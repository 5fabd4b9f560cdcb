-- ===== src/Tunnel/Examples.antt =====
-- A proxy that answers with bytes behind its answer.
use airgate_claude.Prelude.{true, [], ◌∷◌, ◌++◌, ◌≡◌, none}
use airgate_claude.TokenManager.{ok}
use airgate_claude.Tunnel.{Proxy, Network, http_connect}
use airgate_claude.Tunnel.Laws.{Settled, http_connect-Settled, read_all, read_all-append}

abbrev proxy : Proxy
proxy = record { scheme = "http"; host = "p"; user = none }

abbrev net : Network
net = record {
  parse = λ s. ok proxy;
  has_port = λ s. true;
  dial = λ s. none;
  set_deadline = none;
  clear_deadline = none;
  write = λ t u. none;
  read =
      ok
        (record { status_code = 407; status = "407 Proxy Authentication Required"; buffered = [] });
  socks_created = none;
  socks_connected = λ t u. none;
}

http_connect-Settled_example : Settled net (http_connect net 5 none proxy "api.anthropic.com:443")
http_connect-Settled_example = http_connect-Settled net 5 none proxy "api.anthropic.com:443"

read_all-append_example :
    let (t, b, w) = read_all (2 ∷ 2 ∷ 5 ∷ []) (1 ∷ 2 ∷ 3 ∷ []) (4 ∷ 5 ∷ 6 ∷ []) in
    t ++ (b ++ w) ≡ (1 ∷ 2 ∷ 3 ∷ []) ++ (4 ∷ 5 ∷ 6 ∷ [])
read_all-append_example = read_all-append (2 ∷ 2 ∷ 5 ∷ []) (1 ∷ 2 ∷ 3 ∷ []) (4 ∷ 5 ∷ 6 ∷ [])
