-- ===== src/Tunnel.antt =====
-- internal/gateway/tlsfingerprint.go: the connection through a proxy, `dialThroughProxy`, and the reads
-- from it. What the network does is an argument; instants are in nanoseconds.
pub mod Laws
mod Examples
use Prim.Native.String
use airgate_claude.Prelude.{
  ℕ, Bool, true, false, not, List, [], ◌∷◌, ◌+◌, ◌*◌, ◌-◌, Option, none, some, String, string_key,
  ◌==◌, if◌then◌else◌, ltb, nat_eq, zero, suc,
}
use airgate_claude.Limits.{second}
use airgate_claude.Sanitize.{is_nil}
use airgate_claude.TokenManager.{Result, ok, err}

-- A proxy URL; the user information is a name and a password.
pub record Proxy : Type 0 where
  pub scheme : String
  pub host : String
  pub user : Option (String × String)

abbrev pub http_dial_timeout : ℕ
http_dial_timeout = 30 * second

-- A TCP connection; `deadline` is `none` if there is none.
pub record Conn : Type 0 where
  pub closed : Bool
  pub deadline : Option ℕ

abbrev pub close : Conn → Conn
close c = record c { closed = true }

-- The answer of a proxy to CONNECT, with the bytes that the reader took from the connection behind it.
pub record Answer : Type 0 where
  pub status_code : ℕ
  pub status : String
  pub buffered : List ℕ

-- What the network answers, an error as a text: `url.Parse`, `net.SplitHostPort`, the dial of an address,
-- the two calls of SetDeadline, the write of the request and the answer read; and the SOCKS5 library.
pub record Network : Type 0 where
  pub parse : String → Result Proxy
  pub has_port : String → Bool
  pub dial : String → Option String
  pub set_deadline : Option String
  pub clear_deadline : Option String
  pub write : String → Option (String × String) → Option String
  pub read : Result Answer
  pub socks_created : Option String
  pub socks_connected : String → Option (String × String) → Option String

pub data Tunnel : Type 0 where
  plain : Conn → Tunnel
  with_buffer : Conn → List ℕ → Tunnel

-- The result, and the connection to the proxy as it is left, if there is one.
abbrev pub Dialed : Type 0
Dialed = Result Tunnel × Option Conn

-- `proxyHandshakeDeadline`; the deadline of the context may be absent.
unfoldable pub proxy_handshake_deadline : ℕ → Option ℕ → ℕ
proxy_handshake_deadline now none = now + http_dial_timeout
proxy_handshake_deadline now (some d) =
    if ltb d (now + http_dial_timeout) then d else now + http_dial_timeout

abbrev fails : String → String → Option Conn → Dialed
fails what e c = (err (String.◌++◌ what e), c)

module _ (net : Network) (now : ℕ) (ctx : Option ℕ) where
  unfoldable pub proxy_addr : Proxy → String
  proxy_addr p =
      if net.has_port p.host
      then p.host
      else if p.scheme == "http"
      then String.◌++◌ p.host ":80"
      else if p.scheme == "https"
      then String.◌++◌ p.host ":443"
      else if p.scheme == "socks5"
      then String.◌++◌ p.host ":1080"
      else p.host

  abbrev waiting : Conn
  waiting = record { closed = false; deadline = some (proxy_handshake_deadline now ctx) }

  abbrev fresh : Conn
  fresh = record { closed = false; deadline = none }

  -- Behind the handshake the deadline is taken away; a failure of that is ignored.
  abbrev opened : Conn
  opened = elim net.clear_deadline [ none ↦ fresh | some e ↦ waiting ]

  -- What follows the answer of the proxy.
  unfoldable pub answered : Result Answer → Dialed
  answered (err e) = fails "read proxy response: " e (some (close waiting))
  answered (ok a) =
      if not (nat_eq a.status_code 200)
      then fails "proxy CONNECT failed: " a.status (some (close waiting))
      else (
        ok (if is_nil a.buffered then plain opened else with_buffer opened a.buffered),
        some opened,
      )

  unfoldable pub http_connect : Proxy → String → Dialed
  unfolding answered proxy_addr proxy_handshake_deadline
  http_connect p target = elim (net.dial (proxy_addr p)) [
    | some e ↦ fails "connect to proxy: " e none
    | none ↦ elim net.set_deadline [
      | some e ↦ fails "set proxy CONNECT deadline: " e (some (close fresh))
      | none ↦ elim (net.write target p.user) [
        | some e ↦ fails "write CONNECT: " e (some (close waiting))
        | none ↦ answered net.read
      ]
    ]
  ]

  -- `proxyDeadlineDialer.Dial`
  unfoldable pub deadline_dial : String → Result Conn × Option Conn
  unfolding proxy_handshake_deadline
  deadline_dial addr = elim (net.dial addr) [
    | some e ↦ (err e, none)
    | none ↦ elim net.set_deadline [
      | some e ↦ (err e, some (close fresh))
      | none ↦ (ok waiting, some waiting)
    ]
  ]

  abbrev socks_over : String → Option (String × String) → Result Conn × Option Conn → Dialed
  socks_over target user (err e, c) = fails "SOCKS5 connect: " e c
  socks_over target user (ok conn, c) = elim (net.socks_connected target user) [
    | some e ↦ fails "SOCKS5 connect: " e c
    | none ↦ (ok (plain opened), some opened)
  ]

  unfoldable pub socks_connect : Proxy → String → Dialed
  unfolding deadline_dial proxy_addr
  socks_connect p target = elim net.socks_created [
    | some e ↦ fails "create SOCKS5 dialer: " e none
    | none ↦ socks_over target p.user (deadline_dial (proxy_addr p))
  ]

  unfoldable pub dial_through_proxy : String → String → Dialed
  unfolding http_connect socks_connect
  dial_through_proxy proxy_url target = elim (net.parse proxy_url) [
    | err e ↦ (err e, none)
    | ok p ↦ if p.scheme == "socks5" then socks_connect p target else http_connect p target
  ]

-- The first characters of a list, at most `n`, and the rest.
unfoldable pub take_bytes : ℕ → List ℕ → List ℕ × List ℕ
take_bytes zero bs = ([], bs)
take_bytes (suc n) [] = ([], [])
take_bytes (suc n) (b ∷ bs) = let (t, rest) = take_bytes n bs in (b ∷ t, rest)

-- `bufferedProxyConn.Read` into a buffer of `n` bytes: what is buffered comes before what the connection
-- still has, `wire`, and one read does not take from both.
unfoldable pub read_buffered : ℕ → List ℕ → List ℕ → List ℕ × List ℕ × List ℕ
unfolding take_bytes
read_buffered n buffer wire =
    let (t, rest) = take_bytes n buffer in
    let (u, more) = take_bytes n wire in if is_nil buffer then (u, [], more) else (t, rest, wire)
