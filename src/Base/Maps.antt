-- ===== src/Base/Maps.antt =====
-- A JavaScript `Map` from numbers, as the list of its entries in insertion order.
use Prim.Native.Nat.{ℕ}
use mathlib.Core.Path.{◌≡◌, refl, ◌∙◌, subst}
use mathlib.Core.Bool.{Bool, true, false, ◌&&◌}
use mathlib.Core.Option.{Option, none, some}
use mathlib.Core.List.{List, [], ◌∷◌}
use native.Mathlib.Omega.{arith}
use susentorno.Base.Tests.{◌==◌, if◌then◌else◌, Bool-cases}
use susentorno.Base.Lists.{any}
use mathlib.Core.Logic.{inl, inr}

module _ {ℓ} {V : Type ℓ} where
  -- `map.get(key)`
  abbrev pub lookup : ℕ → List (ℕ × V) → Option V
  lookup k [] = none
  lookup k ((j, v) ∷ m) = if k == j then some v else lookup k m

  -- `map.set(key, value)`: an old key keeps its place, a new one goes to the end.
  abbrev pub insert : ℕ → V → List (ℕ × V) → List (ℕ × V)
  insert k v [] = (k, v) ∷ []
  insert k v ((j, w) ∷ m) = if k == j then (j, v) ∷ m else (j, w) ∷ insert k v m

  -- `map.delete(key)`
  abbrev pub remove : ℕ → List (ℕ × V) → List (ℕ × V)
  remove k [] = []
  remove k ((j, w) ∷ m) = if k == j then remove k m else (j, w) ∷ remove k m

  pub lookup-insert :
      (k j : ℕ) (v : V) (m : List (ℕ × V))
      → lookup j (insert k v m) ≡ (if j == k then some v else lookup j m)
  lookup-insert k j v [] = refl
  lookup-insert k j v ((i, w) ∷ m) = ground (arith, lookup-insert k j v m)

  pub lookup-remove :
      (k j : ℕ) (m : List (ℕ × V)) → lookup j (remove k m) ≡ (if j == k then none else lookup j m)
  lookup-remove k j [] = ground arith
  lookup-remove k j ((i, w) ∷ m) = ground (arith, lookup-remove k j m)

module _ {ℓ κ} {V : Type ℓ} (P : ℕ → Type κ) where
  -- `P` holds of every key of the map.
  abbrev pub AllKeys : List (ℕ × V) → Type κ
  AllKeys [] = Unit
  AllKeys ((k, v) ∷ m) = P k × AllKeys m

  pub AllKeys-insert : (k : ℕ) (v : V) (m : List (ℕ × V)) → P k → AllKeys m → AllKeys (insert k v m)
  AllKeys-insert k v [] p h = (p, tt)
  AllKeys-insert k v ((j, w) ∷ m) p (q, h) = elim (Bool-cases (k == j)) [
    | inl e ↦ rw e (q, h)
    | inr e ↦ rw e (q, AllKeys-insert k v m p h)
  ]

  pub AllKeys-remove : (k : ℕ) (m : List (ℕ × V)) → AllKeys m → AllKeys (remove k m)
  AllKeys-remove k [] h = tt
  AllKeys-remove k ((j, w) ∷ m) (q, h) = elim (Bool-cases (k == j)) [
    | inl e ↦ rw e (AllKeys-remove k m h)
    | inr e ↦ rw e (q, AllKeys-remove k m h)
  ]

module _ {ℓ} {V : Type ℓ} where
  -- No key stands twice.
  abbrev pub HasDistinctKeys : List (ℕ × V) → Type ℓ
  HasDistinctKeys [] = Unit
  HasDistinctKeys ((k, v) ∷ m) = (lookup k m ≡ none) × HasDistinctKeys m

  pub HasDistinctKeys-insert :
      (k : ℕ) (v : V) (m : List (ℕ × V)) → HasDistinctKeys m → HasDistinctKeys (insert k v m)
  HasDistinctKeys-insert k v [] h = (refl, tt)
  HasDistinctKeys-insert k v ((j, w) ∷ m) (q, h) = elim (Bool-cases (k == j)) [
    | inl e ↦ rw e (q, h)
    | inr e ↦ rw e (ground (arith, lookup-insert k j v m), HasDistinctKeys-insert k v m h)
  ]

  pub HasDistinctKeys-remove :
      (k : ℕ) (m : List (ℕ × V)) → HasDistinctKeys m → HasDistinctKeys (remove k m)
  HasDistinctKeys-remove k [] h = tt
  HasDistinctKeys-remove k ((j, w) ∷ m) (q, h) = elim (Bool-cases (k == j)) [
    | inl e ↦ rw e (HasDistinctKeys-remove k m h)
    | inr e ↦ rw e (ground (arith, lookup-remove k j m), HasDistinctKeys-remove k m h)
  ]

module _ {ℓ} {V : Type ℓ} where
  -- `[...map.values()]`
  abbrev pub values : List (ℕ × V) → List V
  values [] = []
  values ((k, v) ∷ m) = v ∷ values m

  abbrev pub holds : (V → Bool) → Option V → Bool
  holds p none = false
  holds p (some v) = p v

module _ {ℓ} {V : Type ℓ} (key : V → ℕ) where
  -- Each value stands under the key that it names itself.
  abbrev pub IsKeyedBy : List (ℕ × V) → Type 0
  IsKeyedBy [] = Unit
  IsKeyedBy ((k, v) ∷ m) = (key v ≡ k) × IsKeyedBy m

  pub IsKeyedBy-insert :
      (k : ℕ) (v : V) (m : List (ℕ × V)) → key v ≡ k → IsKeyedBy m → IsKeyedBy (insert k v m)
  IsKeyedBy-insert k v [] e h = (e, tt)
  IsKeyedBy-insert k v ((j, w) ∷ m) e (q, h) = elim (Bool-cases (k == j)) [
    | inl y ↦ rw y (e ∙ ground arith, h)
    | inr n ↦ rw n (q, IsKeyedBy-insert k v m e h)
  ]

  pub IsKeyedBy-lookup :
      (k : ℕ) (v : V) (m : List (ℕ × V)) → IsKeyedBy m → lookup k m ≡ some v → key v ≡ k
  IsKeyedBy-lookup k v [] h e = absurd cc
  IsKeyedBy-lookup k v ((j, w) ∷ m) (q, h) e = elim (Bool-cases (k == j)) [
    | inl y ↦ ground arith
    | inr n ↦ IsKeyedBy-lookup k v m h (ground arith)
  ]

  any-values-none :
      (p : V → Bool) (k : ℕ) (m : List (ℕ × V))
      → IsKeyedBy m
      → lookup k m ≡ none
      → any (λ v. p v && k == key v) (values m) ≡ false
  any-values-none p k [] h e = refl
  any-values-none p k ((j, v) ∷ m) (q, h) e = elim (Bool-cases (k == j)) [
    | inl y ↦ absurd (ground arith)
    | inr n ↦
        let r = any-values-none p k m h (ground arith) in
        let n' : (k == key v) ≡ false = ground arith in ground arith
  ]

  -- A test on the values of one key reads that key's entry.
  pub any-values :
      (p : V → Bool) (k : ℕ) (m : List (ℕ × V))
      → HasDistinctKeys m
      → IsKeyedBy m
      → any (λ v. p v && k == key v) (values m) ≡ holds p (lookup k m)
  any-values p k [] d h = refl
  any-values p k ((j, v) ∷ m) (u, d) (q, h) = elim (Bool-cases (k == j)) [
    | inl y ↦
        let y' : (k == key v) ≡ true = ground arith in
        let same : j ≡ k = ground arith in
        let r = any-values-none p k m h (subst (λ i. lookup i m ≡ none) same u) in
        rw y (ground arith)
    | inr n ↦
        let n' : (k == key v) ≡ false = ground arith in
        let r = any-values p k m d h in rw n (ground arith)
  ]
