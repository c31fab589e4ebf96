-- ===== src/Sharing/Operations/Items.antt =====
-- Which credentials the items of a cleanup delete: those of the unverified entries.
use susentorno.Base.{
  ℕ, ◌≡◌, inl, inr, refl, ◌∙◌, arith, Bool, true, false, ◌&&◌, ◌||◌, List, [], ◌∷◌, any, map, has,
  lookup, insert, lookup-insert, holds, any-values, IsKeyedBy, IsKeyedBy-insert, HasDistinctKeys,
  HasDistinctKeys-insert, ◌==◌, if◌then◌else◌, Bool-cases,
}
use susentorno.Sharing.Ledger.{Entry, Ledger, unverified, open_connections}
use susentorno.Sharing.Ledger.Laws.{IsSound, status_at, is_unverified, hosts, has-unverified}
use susentorno.Sharing.Operations.{
  CleanupItem, open_item, unverified_item, add_open, add_unverified, cleanup_items,
}

abbrev item_host : CleanupItem → ℕ
item_host i = i.target.host_ip

abbrev removes : CleanupItem → Bool
removes i = i.remove_credential

-- Whether the credential at an address is to be deleted.
abbrev pub removable : ℕ → List CleanupItem → Bool
removable k items = any (λ i. removes i && k == item_host i) items

record IsItems (m : List (ℕ × CleanupItem)) : Type 0 where
  distinct : HasDistinctKeys m
  keyed : IsKeyedBy item_host m

insert-IsItems :
    (k : ℕ) (i : CleanupItem) (m : List (ℕ × CleanupItem))
    → item_host i ≡ k
    → IsItems m
    → IsItems (insert k i m)
insert-IsItems k i m e h = record {
  distinct = HasDistinctKeys-insert k i m h.distinct;
  keyed = IsKeyedBy-insert item_host k i m e h.keyed;
}

holds-insert :
    (k j : ℕ) (i : CleanupItem) (m : List (ℕ × CleanupItem))
    → holds removes (lookup k (insert j i m))
      ≡ (if k == j then removes i else holds removes (lookup k m))
holds-insert k j i m = elim (Bool-cases (k == j)) [
  | inl y ↦ rw (lookup-insert j k i m, y) refl
  | inr n ↦ rw (lookup-insert j k i m, n) refl
]

if_false : (b : Bool) {c : Bool} → c ≡ false → (if b then false else c) ≡ false
if_false true e = refl
if_false false e = e

or_if : (a b c d : Bool) → d ≡ (if b then true else c) → (a || d) ≡ ((b || a) || c)
or_if a b c d e = ground arith

or_false : {a b : Bool} → b ≡ false → (a || b) ≡ a
or_false e = ground arith

add_open-lem :
    (k : ℕ) (l : Ledger) (open_hosts : List ℕ) (m : List (ℕ × CleanupItem))
    → IsItems m
    → holds removes (lookup k m) ≡ false
    → IsItems (add_open l open_hosts m)
      × (holds removes (lookup k (add_open l open_hosts m)) ≡ false)
add_open-lem k l [] m h e = (h, e)
add_open-lem k l (j ∷ open_hosts) m h e =
    let i = open_item l j in
    let r = holds-insert k j i m in
    add_open-lem k l open_hosts (insert j i m) (insert-IsItems j i m refl h)
      (r ∙ if_false (k == j) e)

add_unverified-lem :
    (k : ℕ) (es : List Entry) (m : List (ℕ × CleanupItem))
    → IsItems m
    → IsItems (add_unverified es m)
      × (holds removes (lookup k (add_unverified es m))
          ≡ (has k (hosts es) || holds removes (lookup k m)))
unfolding hosts
add_unverified-lem k [] m h = (h, refl)
add_unverified-lem k (entry ∷ es) m h =
    let i = unverified_item entry in
    let j = entry.host_ip in
    let rest = add_unverified-lem k es (insert j i m) (insert-IsItems j i m refl h) in
    let r = holds-insert k j i m in
    (rest.0, rest.1 ∙ or_if (has k (map (λ e. e.host_ip) es)) (k == j) _ _ r)

-- Cleanup deletes the credentials of the unverified entries.
pub removable-cleanup_items :
    (k : ℕ) (l : Ledger) → IsSound l → removable k (cleanup_items l) ≡ is_unverified (status_at k l)
unfolding cleanup_items
removable-cleanup_items k l h =
    let empty : IsItems [] = record { distinct = tt; keyed = tt } in
    let o = add_open-lem k l (open_connections l) [] empty refl in
    let u = add_unverified-lem k (unverified l) (add_open l (open_connections l) []) o.0 in
    any-values item_host removes k _ u.0.distinct u.0.keyed
    ∙ u.1
    ∙ or_false o.1
    ∙ has-unverified k l h
