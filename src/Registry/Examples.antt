-- ===== src/Registry/Examples.antt =====
-- Account 7 is seen: the theorems at a concrete registry.
use airgate_claude.Prelude.{[], ◌∷◌}
use airgate_claude.Prelude.Int.{pos}
use airgate_claude.TokenManager.{Account}

abbrev account : Account
account = record {
  id = pos 7;
  kind = "oauth";
  proxy_url = "socks5://p";
  credentials = ("access_token", "t") ∷ [];
}
