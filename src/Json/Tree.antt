-- ===== src/Json/Tree.antt =====
-- A JSON value as a tree, an implementation of the interface that the witnesses use.
use airgate_claude.Prelude.{
  Bool, true, false, List, [], ◌∷◌, map, ap, Option, none, some, String, string_key, ◌==◌,
  if◌then◌else◌, ◌≡◌, refl, arith,
}
use airgate_claude.Prelude.Int.{ℤ, pos}
use airgate_claude.Json.{Json, Laws}

mutual
  pub data Tree : Type 0 where
    missing : Tree
    number : ℤ → Tree
    string : String → Tree
    array : Trees → Tree
    object : Members → Tree

  pub data Trees : Type 0 where
    nil : Trees
    cons : Tree → Trees → Trees

  pub data Members : Type 0 where
    end : Members
    member : String → Tree → Members → Members

abbrev pub member_of : String → Members → Tree
member_of k end = missing
member_of k (member j v ms) = if j == k then v else member_of k ms

abbrev pub set_member_of : String → Tree → Members → Members
set_member_of k v end = member k v end
set_member_of k v (member j w ms) =
    if j == k then member k v ms else member j w (set_member_of k v ms)

abbrev pub field_of : Tree → String → Tree
field_of t k = elim t [ object ms ↦ member_of k ms | _ ↦ missing ]

abbrev lookup_of : Tree → List String → Tree
lookup_of t [] = t
lookup_of t (k ∷ ks) = lookup_of (field_of t k) ks

abbrev list_of : Trees → List Tree
list_of nil = []
list_of (cons t ts) = t ∷ list_of ts

abbrev pub trees : List Tree → Trees
trees [] = nil
trees (t ∷ ts) = cons t (trees ts)

abbrev items_of : Tree → List Tree
items_of t = elim t [ array ts ↦ list_of ts | _ ↦ [] ]

abbrev set_array_of : Tree → String → List Tree → Option Tree
set_array_of t k ts = elim t [
  | object ms ↦ some (object (set_member_of k (array (trees ts)) ms))
  | _ ↦ none
]

abbrev is_array_of : Tree → Bool
is_array_of t = elim t [ array ts ↦ true | _ ↦ false ]

abbrev is_string_of : Tree → Bool
is_string_of t = elim t [ string s ↦ true | _ ↦ false ]

abbrev pub is_missing : Tree → Bool
is_missing t = elim t [ missing ↦ true | _ ↦ false ]

abbrev pub tree_json : Json Tree Tree
tree_json = record {
  is_empty = is_missing;
  parse = λ t. t;
  raw = λ t. t;
  lookup = lookup_of;
  field = field_of;
  exists = λ t. if is_missing t then false else true;
  is_string = is_string_of;
  is_array = is_array_of;
  text = λ t. elim t [ string s ↦ s | _ ↦ "" ];
  int = λ t. elim t [ number n ↦ n | _ ↦ pos 0 ];
  items = items_of;
  set_array = set_array_of;
}

list_of-trees : (ts : List Tree) → list_of (trees ts) ≡ map (λ t. t) ts
list_of-trees [] = refl
list_of-trees (t ∷ ts) = ap (◌∷◌ t) (list_of-trees ts)

pub member_of-set : (k : String) (v : Tree) (ms : Members) → member_of k (set_member_of k v ms) ≡ v
member_of-set k v end = ground (arith, string_key.same_iff k k)
member_of-set k v (member j w ms) =
    ground (arith, string_key.same_iff k k, string_key.same_iff j k, member_of-set k v ms)

pub member_of-set_other :
    (k j : String) (v : Tree) (ms : Members)
    → (j == k) ≡ false
    → member_of j (set_member_of k v ms) ≡ member_of j ms
member_of-set_other k j v end h = ground (arith, string_key.same_iff k j, string_key.same_iff j k)
member_of-set_other k j v (member i w ms) h = ground (
  arith,
  string_key.same_iff k j,
  string_key.same_iff j k,
  string_key.same_iff i k,
  string_key.same_iff i j,
  member_of-set_other k j v ms h,
)

not_both_of : (t : Tree) → is_array_of t ≡ true → is_string_of t ≡ false
not_both_of missing h = refl
not_both_of (number n) h = refl
not_both_of (string s) h = ground arith
not_both_of (array ts) h = refl
not_both_of (object ms) h = refl

set_member_law :
    (t : Tree) (k : String) (ts : List Tree)
    → is_array_of (lookup_of t (k ∷ [])) ≡ true
    → (t' : Tree) × (set_array_of t k ts ≡ some t')
set_member_law missing k ts h = ground arith
set_member_law (number n) k ts h = ground arith
set_member_law (string s) k ts h = ground arith
set_member_law (array us) k ts h = ground arith
set_member_law (object ms) k ts h = (object (set_member_of k (array (trees ts)) ms), refl)

-- What a successful write leaves.
abbrev Written : Tree → String → List Tree → Tree → Type 0
Written t k ts t' =
    (ms : Members) × (t ≡ object ms) × (t' ≡ object (set_member_of k (array (trees ts)) ms))

written :
    (t t' : Tree) (k : String) (ts : List Tree) → set_array_of t k ts ≡ some t' → Written t k ts t'
written missing t' k ts h = ground arith
written (number n) t' k ts h = ground arith
written (string s) t' k ts h = ground arith
written (array us) t' k ts h = ground arith
written (object ms) t' k ts h = (ms, refl, ground arith)

read_back :
    (t t' : Tree) (k : String) (ts : List Tree)
    → set_array_of t k ts ≡ some t'
    → lookup_of t' (k ∷ []) ≡ array (trees ts)
read_back t t' k ts h =
    let (ms, _, e) = written t t' k ts h in rw e (member_of-set k (array (trees ts)) ms)

read_other :
    (t t' : Tree) (k j : String) (ts : List Tree)
    → set_array_of t k ts ≡ some t'
    → (j == k) ≡ false
    → lookup_of t' (j ∷ []) ≡ lookup_of t (j ∷ [])
read_other t t' k j ts h n =
    let (ms, d, e) = written t t' k ts h in
    rw e (rw d (member_of-set_other k j (array (trees ts)) ms n))

pub tree-Laws : Laws tree_json
tree-Laws = record {
  parse_raw = λ j. refl;
  lookup_field = λ r k. refl;
  not_both = not_both_of;
  set_member = set_member_law;
  set_not_empty = λ r r' k rs h. let (ms, _, e) = written r r' k rs h in rw e refl;
  set_is_array = λ r r' k rs h. rw (read_back r r' k rs h) refl;
  set_items = λ r r' k rs h. rw (read_back r r' k rs h) (list_of-trees rs);
  set_other = read_other;
}
