-- ===== src/Forward/Cloak/Examples.antt =====
-- Writes to JSON trees, and the body of a plain client that goes to the upstream for an OAuth account.
use airgate_claude.Prelude.{
  ℕ, suc, true, false, List, [], ◌∷◌, some, String, string_key, ◌==◌, if◌then◌else◌, ◌≡◌, refl,
  arith, Bool-cases, inl, inr, subst,
}
use airgate_claude.Prelude.Int.{pos}
use airgate_claude.Prelude.Decimal.{decimal}
use airgate_claude.Json.Tree.{
  Tree, Trees, Members, field_of, missing, number, string, array, object, nil, cons, end, member,
  trees, tree_json, member_of, set_member_of, is_missing, member_of-set, member_of-set_other,
}
use airgate_claude.Sessions.{Cache}
use airgate_claude.TokenManager.{Account}
use airgate_claude.Forward.Body.{Writes, preprocess_oauth_body}
use airgate_claude.Forward.Cloak.{WriteLaws, IsCloaked, preprocess_oauth_body-IsCloaked}

abbrev change_nth : (Tree → Tree) → ℕ → String → Trees → Trees
change_nth f i k nil = nil
change_nth f i k (cons t ts) =
    if decimal (pos i) == k then cons (f t) ts else cons t (change_nth f (suc i) k ts)

-- A value at a path; a missing one is not written.
abbrev set_at : List String → Tree → Tree → Tree
set_at [] v t = if is_missing v then t else v
set_at (k ∷ ks) v missing = object (member k (set_at ks v missing) end)
set_at (k ∷ ks) v (number n) = object (member k (set_at ks v missing) end)
set_at (k ∷ ks) v (string s) = object (member k (set_at ks v missing) end)
set_at (k ∷ ks) v (array ts) = array (change_nth (set_at ks v) 0 k ts)
set_at (k ∷ ks) v (object ms) = object (set_member_of k (set_at ks v (member_of k ms)) ms)

abbrev delete_member_of : String → Members → Members
delete_member_of k end = end
delete_member_of k (member j v ms) =
    if j == k then delete_member_of k ms else member j v (delete_member_of k ms)

abbrev delete_at : Tree → List String → Tree
delete_at (object ms) (k ∷ []) = object (delete_member_of k ms)
delete_at t ks = t

abbrev tree_writes : Writes Tree Tree
tree_writes = record {
  set = λ r p v. set_at p v r;
  set_checked = λ r p v. some (set_at p v r);
  delete = delete_at;
  replace_first = λ r a b. r;
  value_of = λ t. t;
  string_of = λ s. "be brief";
  user_id = λ d u s. s;
  fingerprint = λ r. "fingerprint";
  device_id = λ i. "device";
}

abbrev IsObject : Tree → Type 0
IsObject t = (ms : Members) × (t ≡ object ms)

set_at-exists :
    (ks : List String) (v t : Tree) → is_missing t ≡ false → is_missing (set_at ks v t) ≡ false
set_at-exists [] v t h = elim (Bool-cases (is_missing v)) [ inl e ↦ rw e h | inr e ↦ rw e e ]
set_at-exists (k ∷ ks) v missing h = refl
set_at-exists (k ∷ ks) v (number n) h = refl
set_at-exists (k ∷ ks) v (string s) h = refl
set_at-exists (k ∷ ks) v (array ts) h = refl
set_at-exists (k ∷ ks) v (object ms) h = refl

member_of-delete :
    (k j : String) (ms : Members)
    → member_of j (delete_member_of k ms) ≡ (if j == k then missing else member_of j ms)
member_of-delete k j end = ground arith
member_of-delete k j (member i v ms) = ground (
  arith,
  string_key.same_iff i k,
  string_key.same_iff i j,
  string_key.same_iff j k,
  member_of-delete k j ms,
)

some-injective : (s t : Tree) → some s ≡ some t → s ≡ t
some-injective s t h = ground (arith, h)

set_at-IsObject :
    (r : Tree) (k : String) (ks : List String) (v : Tree)
    → IsObject r
    → IsObject (set_at (k ∷ ks) v r)
set_at-IsObject r k ks v (ms, e) = (set_member_of k (set_at ks v (member_of k ms)) ms, rw e refl)

set_at-other :
    (r : Tree) (j k : String) (ks : List String) (v : Tree)
    → IsObject r
    → (j == k) ≡ false
    → field_of (set_at (k ∷ ks) v r) j ≡ field_of r j
set_at-other r j k ks v (ms, e) n =
    rw e (member_of-set_other k j (set_at ks v (member_of k ms)) ms n)

not_missing : (t : Tree) → (if is_missing t then false else true) ≡ true → is_missing t ≡ false
not_missing t h = ground arith

set_at-below :
    (r : Tree) (k : String) (ks : List String) (v : Tree)
    → IsObject r
    → tree_json.exists (field_of r k) ≡ true
    → tree_json.exists (field_of (set_at (k ∷ ks) v r) k) ≡ true
set_at-below r k ks v (ms, e) h =
    let there : is_missing (member_of k ms) ≡ false =
      not_missing (member_of k ms) (subst (λ x. tree_json.exists (field_of x k) ≡ true) e h) in
    rw e (
      rw (member_of-set k (set_at ks v (member_of k ms)) ms)
        (rw (set_at-exists ks v (member_of k ms) there) refl))

tree_writes-WriteLaws : WriteLaws tree_json tree_writes IsObject
tree_writes-WriteLaws = record {
  set_body = set_at-IsObject;
  checked_body =
      λ r r' k ks v o e. subst IsObject (some-injective _ r' e) (set_at-IsObject r k ks v o);
  delete_body = λ r k (ms, e). (delete_member_of k ms, rw e refl);
  set_array = λ r k ts (ms, e). rw e (rw (member_of-set k (array (trees ts)) ms) (refl, refl));
  set_other = set_at-other;
  checked_other = λ r r' j k ks v o n e.
      subst (λ x. field_of x j ≡ field_of r j) (some-injective _ r' e)
        (set_at-other r j k ks v o n);
  checked_below = λ r r' k ks v o h e.
      subst (λ x. tree_json.exists (field_of x k) ≡ true) (some-injective _ r' e)
        (set_at-below r k ks v o h);
  delete_gone =
      λ r k (ms, e). rw e (rw (member_of-delete k k ms) (ground (arith, string_key.same_iff k k)));
  delete_other = λ r j k (ms, e) n. rw e (rw (member_of-delete k j ms) (rw n refl));
}

abbrev account : Account
account = record { id = pos 3; kind = "oauth"; proxy_url = ""; credentials = [] }

abbrev no_sessions : Cache
no_sessions = record { entries = []; last_cleanup = 0 }

abbrev members : Members
members = member "system" (string "Be brief.") (
    member "temperature" (number (pos 1))
      (member "tool_choice" (string "auto") (member "messages" (array nil) end)))

preprocess_oauth_body-IsCloaked_example :
    IsCloaked tree_json tree_writes tree_writes-WriteLaws
      (preprocess_oauth_body tree_json tree_writes "u" "s" 5 account (object members) no_sessions).0
preprocess_oauth_body-IsCloaked_example =
    preprocess_oauth_body-IsCloaked tree_json tree_writes tree_writes-WriteLaws "u" "s" 5 account
      (object members) no_sessions (members, refl)
