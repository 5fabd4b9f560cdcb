-- ===== src/Fingerprint.antt =====
-- cmd/fp/main.go: the fingerprint of a TLS client, taken from a specification of its hello message and
-- compared with a recorded one. The specification is built with a third-party library: its extensions
-- are data here, with the values that the tool reads. Texts are lists of code points.
pub mod Diff
mod Examples
use airgate_claude.Prelude.{
  ℕ, Bool, true, false, List, [], ◌∷◌, ◌++◌, Option, none, some, String, if◌then◌else◌, ltb,
}
use airgate_claude.Prelude.Int.{pos}
use airgate_claude.Prelude.Text.{codes}
use airgate_claude.Prelude.Decimal.{decimal}
use airgate_claude.Headers.{Text}

pub data Extension : Type 0 where
  sni : Extension
  status_request : Extension
  supported_curves : List ℕ → Extension
  supported_points : Extension
  signature_algorithms : List ℕ → Extension
  alpn : List Text → Extension
  sct : Extension
  extended_master_secret : Extension
  session_ticket : Extension
  supported_versions : Extension
  psk_key_exchange_modes : Extension
  key_share : Extension
  grease_ech : Extension
  renegotiation_info : Extension
  other : Extension

unfoldable pub extension_id : Extension → Option ℕ
extension_id sni = some 0
extension_id status_request = some 5
extension_id (supported_curves cs) = some 10
extension_id supported_points = some 11
extension_id (signature_algorithms found) = some 13
extension_id (alpn ps) = some 16
extension_id sct = some 18
extension_id extended_master_secret = some 23
extension_id session_ticket = some 35
extension_id supported_versions = some 43
extension_id psk_key_exchange_modes = some 45
extension_id key_share = some 51
extension_id grease_ech = some 65037
extension_id renegotiation_info = some 65281
extension_id other = none

-- `utls.ClientHelloSpec`, as far as the tool reads it.
pub record Spec : Type 0 where
  pub version_min : ℕ
  pub version_max : ℕ
  pub cipher_suites : List ℕ
  pub extensions : List Extension

-- A slice of Go: nil is `none`, which `reflect.DeepEqual` tells from an empty one.
abbrev pub Slice : Type 0 → Type 0
Slice A = Option (List A)

pub record Snapshot : Type 0 where
  pub cli_version : Text
  pub runtime : Text
  pub runtime_version : Text
  pub tls_version_min : ℕ
  pub tls_version_max : ℕ
  pub cipher_suites : Slice ℕ
  pub curves : Slice ℕ
  pub signature_algorithms : Slice ℕ
  pub alpn_protocols : Slice Text
  pub extensions : Slice Text
  pub extension_ids : Slice ℕ
  pub ja3 : Text
  pub ja3_hash : Text

-- The parts, with `-` between them.
unfoldable pub join_numbers : List ℕ → Text
join_numbers [] = []
join_numbers (x ∷ []) = codes (decimal (pos x))
join_numbers (x ∷ y ∷ xs) = codes (decimal (pos x)) ++ codes "-" ++ join_numbers (y ∷ xs)

unfoldable pub build_ja3 : ℕ → List ℕ → List ℕ → List ℕ → Text
unfolding join_numbers
build_ja3 version ciphers exts curves =
    let legacy = if ltb version 0x0303 then version else 0x0303 in
    codes (decimal (pos legacy))
    ++ codes ","
    ++ join_numbers ciphers
    ++ codes ","
    ++ join_numbers exts
    ++ codes ","
    ++ join_numbers curves
    ++ codes ",0"

abbrev pub ids_of : List Extension → List ℕ
ids_of [] = []
ids_of (e ∷ es) = elim (extension_id e) [ none ↦ ids_of es | some i ↦ i ∷ ids_of es ]

abbrev pub curves_of : List Extension → List ℕ
curves_of [] = []
curves_of (e ∷ es) = elim e [ supported_curves cs ↦ cs ++ curves_of es | _ ↦ curves_of es ]

abbrev pub algorithms_of : List Extension → List ℕ
algorithms_of [] = []
algorithms_of (e ∷ es) = elim e [
  | signature_algorithms found ↦ found ++ algorithms_of es
  | _ ↦ algorithms_of es
]

abbrev pub protocols_of : List Extension → List Text
protocols_of [] = []
protocols_of (e ∷ es) = elim e [ alpn ps ↦ ps ++ protocols_of es | _ ↦ protocols_of es ]

abbrev pub names_of : (Extension → Text) → List Extension → List Text
names_of name [] = []
names_of name (e ∷ es) = name e ∷ names_of name es

-- `append([]uint16(nil), xs...)`
abbrev copied : List ℕ → Slice ℕ
copied [] = none
copied (x ∷ xs) = some (x ∷ xs)

-- `name` is the type name that `%T` prints, `hash` the hexadecimal MD5 digest.
unfoldable pub snapshot_from_spec : (Extension → Text) → (Text → Text) → Spec → Snapshot
unfolding extension_id build_ja3
snapshot_from_spec name hash spec =
    let ids = ids_of spec.extensions in
    let curves = curves_of spec.extensions in
    let ja3 = build_ja3 spec.version_max spec.cipher_suites ids curves in
    record {
      cli_version = codes "2.1.112";
      runtime = codes "bun";
      runtime_version = codes "v1.3.13";
      tls_version_min = spec.version_min;
      tls_version_max = spec.version_max;
      cipher_suites = copied spec.cipher_suites;
      curves = some curves;
      signature_algorithms = some (algorithms_of spec.extensions);
      alpn_protocols = some (protocols_of spec.extensions);
      extensions = some (names_of name spec.extensions);
      extension_ids = some ids;
      ja3 = ja3;
      ja3_hash = hash ja3;
    }
