-- ===== src/Json.antt =====
-- What the gateway uses of its JSON libraries: gjson reads, sjson writes. They are third-party code, so
-- they are an interface: the operations, and what their documents say of them.
pub mod Tree
use airgate_claude.Prelude.{
  Bool, true, false, List, [], ◌∷◌, Option, some, String, ◌≡◌, map, string_key, ◌==◌,
}
use airgate_claude.Prelude.Int.{ℤ}

-- `R` is a text of JSON (a body, a raw message), `J` a value that was read. A path `a.b` is the list of
-- its members.
pub record Json (R J : Type 0) : Type 0 where
  pub is_empty : R → Bool
  pub parse : R → J
  pub raw : J → R
  -- `gjson.GetBytes(body, path)`
  pub lookup : R → List String → J
  -- `value.Get(name)`
  pub field : J → String → J
  pub exists : J → Bool
  pub is_string : J → Bool
  pub is_array : J → Bool
  -- `value.String()`, `value.Int()`, `value.Array()`
  pub text : J → String
  pub int : J → ℤ
  pub items : J → List J
  -- The member of an object is set to an array of raw values: `sjson.SetBytes` of raw messages, and
  -- `sjson.SetRawBytes` of their array. `none` is an error.
  pub set_array : R → String → List R → Option R

pub record Laws {R J : Type 0} (g : Json R J) : Type 0 where
  pub parse_raw : (j : J) → g.parse (g.raw j) ≡ j
  pub lookup_field : (r : R) (k : String) → g.lookup r (k ∷ []) ≡ g.field (g.parse r) k
  pub not_both : (j : J) → g.is_array j ≡ true → g.is_string j ≡ false
  -- A text with a member that is an array holds an object, whose members can be set.
  pub set_member :
      (r : R) (k : String) (rs : List R)
      → g.is_array (g.lookup r (k ∷ [])) ≡ true
      → (r' : R) × (g.set_array r k rs ≡ some r')
  pub set_not_empty :
      (r r' : R) (k : String) (rs : List R) → g.set_array r k rs ≡ some r' → g.is_empty r' ≡ false
  pub set_is_array :
      (r r' : R) (k : String) (rs : List R)
      → g.set_array r k rs ≡ some r'
      → g.is_array (g.lookup r' (k ∷ [])) ≡ true
  pub set_items :
      (r r' : R) (k : String) (rs : List R)
      → g.set_array r k rs ≡ some r'
      → g.items (g.lookup r' (k ∷ [])) ≡ map g.parse rs
  pub set_other :
      (r r' : R) (k j : String) (rs : List R)
      → g.set_array r k rs ≡ some r'
      → (j == k) ≡ false
      → g.lookup r' (j ∷ []) ≡ g.lookup r (j ∷ [])
