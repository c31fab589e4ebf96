-- ===== src/Base/Sets.antt =====
-- JavaScript sets of numbers, as the list of their members in insertion order. A set of fingerprints
-- is one: the lower-case hex text of a SHA-256 is modelled by the number that it writes, and since all
-- have 64 digits, texts and numbers have the same order and equality.
use Prim.Native.Nat.{ℕ}
use mathlib.Core.Path.{◌≡◌, refl, sym, ap, ◌∙◌, subst}
use mathlib.Core.Logic.{inl, inr}
use mathlib.Core.Bool.{Bool, true, false, not, ◌&&◌, ◌||◌}
use mathlib.Core.List.{List, [], ◌∷◌, ◌++◌}
use native.Mathlib.Omega.{arith}
use susentorno.Base.Tests.{leb, ◌==◌, if◌then◌else◌, Bool-cases}
use susentorno.Base.Lists.{has, select}

-- `set.add(x)`
abbrev pub add : ℕ → List ℕ → List ℕ
add x xs = if has x xs then xs else xs ++ x ∷ []

-- `for (const y of ys) set.add(y)`
abbrev pub add_all : List ℕ → List ℕ → List ℕ
add_all [] xs = xs
add_all (y ∷ ys) xs = add_all ys (add y xs)

abbrev insert_sorted : ℕ → List ℕ → List ℕ
insert_sorted x [] = x ∷ []
insert_sorted x (y ∷ ys) = if leb x y then x ∷ y ∷ ys else y ∷ insert_sorted x ys

-- `[...set].sort()`
abbrev pub sort : List ℕ → List ℕ
sort [] = []
sort (x ∷ xs) = insert_sorted x (sort xs)

-- Every member of the first list is in the second, and none is.
abbrev pub all_in : List ℕ → List ℕ → Bool
all_in [] ys = true
all_in (x ∷ xs) ys = has x ys && all_in xs ys

abbrev pub none_in : List ℕ → List ℕ → Bool
none_in [] ys = true
none_in (x ∷ xs) ys = not (has x ys) && none_in xs ys

pub has-append : (x : ℕ) (xs ys : List ℕ) → has x (xs ++ ys) ≡ (has x xs || has x ys)
has-append x [] ys = refl
has-append x (y ∷ xs) ys = ground (arith, has-append x xs ys)

pub has-add : (x y : ℕ) (xs : List ℕ) → has x (add y xs) ≡ (has x xs || x == y)
has-add x y xs =
    let e = has-append x xs (y ∷ []) in
    elim (Bool-cases (has y xs)) [
      | inl h ↦ elim (Bool-cases (x == y)) [
        | inl q ↦
            let same : x ≡ y = ground arith in
            let m : has x xs ≡ true = subst (λ z. has z xs ≡ true) (sym same) h in rw (h, q, m) refl
        | inr q ↦ rw (h, q) (ground arith)
      ]
      | inr n ↦ rw n (ground arith)
    ]

has-insert_sorted : (x y : ℕ) (xs : List ℕ) → has x (insert_sorted y xs) ≡ (x == y || has x xs)
has-insert_sorted x y [] = refl
has-insert_sorted x y (z ∷ xs) = ground (arith, has-insert_sorted x y xs)

pub has-sort : (x : ℕ) (xs : List ℕ) → has x (sort xs) ≡ has x xs
has-sort x [] = refl
has-sort x (y ∷ xs) = has-insert_sorted x y (sort xs) ∙ ap (λ b. x == y || b) (has-sort x xs)

pub has-add_all : (x : ℕ) (ys xs : List ℕ) → has x (add_all ys xs) ≡ (has x xs || has x ys)
has-add_all x [] xs = ground arith
has-add_all x (y ∷ ys) xs =
    let e = has-add x y xs in let r = has-add_all x ys (add y xs) in ground arith

pub all_in_lem :
    (xs ys : List ℕ) → ((x : ℕ) → has x xs ≡ true → has x ys ≡ true) → all_in xs ys ≡ true
all_in_lem [] ys h = refl
all_in_lem (x ∷ xs) ys h =
    rw (h x (ground arith), all_in_lem xs ys (λ y m. h y (ground arith))) refl

-- `set.delete(x)` on a store that may list a fingerprint more than once
abbrev pub without : ℕ → List ℕ → List ℕ
without x ys = select (λ y. not (x == y)) ys

pub has-without : (x y : ℕ) (ys : List ℕ) → has y (without x ys) ≡ (has y ys && not (x == y))
has-without x y [] = refl
has-without x y (z ∷ ys) = ground (arith, has-without x y ys)

pub append_nil : (xs : List ℕ) → xs ++ [] ≡ xs
append_nil [] = refl
append_nil (x ∷ xs) = ap (◌∷◌ x) (append_nil xs)

-- Membership in the first of two lists, or in the second.
pub has-append_left : (x : ℕ) (xs ys : List ℕ) → has x xs ≡ true → has x (xs ++ ys) ≡ true
has-append_left x xs ys h = let e = has-append x xs ys in ground arith

pub has-append_right : (x : ℕ) (xs ys : List ℕ) → has x ys ≡ true → has x (xs ++ ys) ≡ true
has-append_right x xs ys h = let e = has-append x xs ys in ground arith

-- The other half of `all_in_lem`.
pub has-all_in :
    (xs ys : List ℕ) → all_in xs ys ≡ true → (x : ℕ) → has x xs ≡ true → has x ys ≡ true
has-all_in [] ys h x m = absurd (ground arith)
has-all_in (z ∷ xs) ys h x m =
    let rest : all_in xs ys ≡ true = ground arith in
    let here : has z ys ≡ true = ground arith in
    elim (Bool-cases (x == z)) [
      | inl y ↦ let same : z ≡ x = ground arith in subst (λ w. has w ys ≡ true) same here
      | inr n ↦ has-all_in xs ys rest x (ground arith)
    ]

pub all_in-without :
    (sha : ℕ) (xs ys : List ℕ)
    → all_in xs ys ≡ true
    → has sha xs ≡ false
    → all_in xs (without sha ys) ≡ true
all_in-without sha xs ys h n = all_in_lem xs (without sha ys) (λ x m.
    let inside = has-all_in xs ys h x m in
    let e = has-without sha x ys in
    elim (Bool-cases (sha == x)) [
      | inl y ↦
          let same : x ≡ sha = ground arith in
          let m' : has sha xs ≡ true = subst (λ w. has w xs ≡ true) same m in absurd (ground arith)
      | inr k ↦ rw (e, inside, k) refl
    ])
