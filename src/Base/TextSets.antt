-- ===== src/Base/TextSets.antt =====
-- JavaScript sets of texts, as the list of their members in insertion order.
use Prim.Native.String.{String}
use mathlib.Core.Path.{◌≡◌, refl, sym, ◌∙◌, ap, subst}
use mathlib.Core.Logic.{inl, inr}
use mathlib.Core.Bool.{Bool, true, false, not, ◌&&◌, ◌||◌}
use mathlib.Core.List.{List, [], ◌∷◌, ◌++◌}
use native.Mathlib.Omega.{arith}
use susentorno.Base.Tests.{if◌then◌else◌, Bool-cases}
use susentorno.Base.Lists.{select}
use susentorno.Base.Texts.{same_text, same_text_refl, same_text→eq}

-- `set.has(s)`, `array.includes(s)`
abbrev pub has_text : String → List String → Bool
has_text s [] = false
has_text s (t ∷ ts) = same_text s t || has_text s ts

-- `set.add(s)`
abbrev pub add_text : String → List String → List String
add_text s ts = if has_text s ts then ts else ts ++ s ∷ []

-- `new Set(texts)` on top of a set
abbrev pub add_texts : List String → List String → List String
add_texts [] ts = ts
add_texts (s ∷ ss) ts = add_texts ss (add_text s ts)

-- `set.delete(s)`
abbrev pub delete_text : String → List String → List String
delete_text s ts = select (λ t. not (same_text t s)) ts

-- No text stands twice.
abbrev pub IsTextSet : List String → Type 0
IsTextSet [] = Unit
IsTextSet (t ∷ ts) = (has_text t ts ≡ false) × IsTextSet ts

pub same_text_sym : (s t : String) → same_text s t ≡ same_text t s
same_text_sym s t = elim (Bool-cases (same_text s t)) [
  | inl y ↦ elim (Bool-cases (same_text t s)) [
    | inl y' ↦ y ∙ sym y'
    | inr n ↦
        let e = same_text→eq s t y in
        let r = subst (λ u. same_text u s ≡ true) e (same_text_refl s) in absurd (ground arith)
  ]
  | inr n ↦ elim (Bool-cases (same_text t s)) [
    | inl y ↦
        let e = same_text→eq t s y in
        let r = subst (λ u. same_text u t ≡ true) e (same_text_refl t) in absurd (ground arith)
    | inr n' ↦ n ∙ sym n'
  ]
]

-- Tests on equal texts agree.
pub same_text_test : (p : String → Bool) (s t : String) → same_text s t ≡ true → p s ≡ p t
same_text_test p s t y = ap p (same_text→eq s t y)

pub has_text-append :
    (s : String) (ts us : List String) → has_text s (ts ++ us) ≡ (has_text s ts || has_text s us)
has_text-append s [] us = refl
has_text-append s (t ∷ ts) us = let r = has_text-append s ts us in ground arith

pub has_text-add_text :
    (s u : String) (ts : List String)
    → has_text s (add_text u ts) ≡ (has_text s ts || same_text s u)
has_text-add_text s u ts =
    let e = has_text-append s ts (u ∷ []) in
    elim (Bool-cases (has_text u ts)) [
      | inl h ↦ elim (Bool-cases (same_text s u)) [
        | inl q ↦ let m = same_text_test (λ v. has_text v ts) s u q in rw (h, q) (ground arith)
        | inr q ↦ rw (h, q) (ground arith)
      ]
      | inr n ↦ rw n (ground arith)
    ]

pub has_text-add_texts :
    (s : String) (us ts : List String)
    → has_text s (add_texts us ts) ≡ (has_text s ts || has_text s us)
has_text-add_texts s [] ts = ground arith
has_text-add_texts s (u ∷ us) ts =
    let e = has_text-add_text s u ts in
    let r = has_text-add_texts s us (add_text u ts) in ground arith

-- Filtering by a test.
pub has_text-select :
    (p : String → Bool) (s : String) (ts : List String)
    → has_text s (select p ts) ≡ (has_text s ts && p s)
has_text-select p s [] = refl
has_text-select p s (t ∷ ts) =
    let r = has_text-select p s ts in
    elim (Bool-cases (same_text s t)) [
      | inl q ↦
          let e = same_text_test p s t q in
          elim (Bool-cases (p t)) [ inl y ↦ rw y (ground arith) | inr n ↦ rw n (ground arith) ]
      | inr q ↦ elim (Bool-cases (p t)) [
        | inl y ↦ rw y (ground arith)
        | inr n ↦ rw n (ground arith)
      ]
    ]

pub has_text-delete_text :
    (s u : String) (ts : List String)
    → has_text s (delete_text u ts) ≡ (has_text s ts && not (same_text s u))
has_text-delete_text s u ts = has_text-select (λ t. not (same_text t u)) s ts

IsTextSet-append_one :
    (s : String) (ts : List String)
    → has_text s ts ≡ false
    → IsTextSet ts
    → IsTextSet (ts ++ s ∷ [])
IsTextSet-append_one s [] n h = (refl, tt)
IsTextSet-append_one s (t ∷ ts) n (q, h) =
    let e = has_text-append t ts (s ∷ []) in
    let c = same_text_sym s t in (ground arith, IsTextSet-append_one s ts (ground arith) h)

pub IsTextSet-add_text : (s : String) (ts : List String) → IsTextSet ts → IsTextSet (add_text s ts)
IsTextSet-add_text s ts h = elim (Bool-cases (has_text s ts)) [
  | inl y ↦ rw y h
  | inr n ↦ rw n (IsTextSet-append_one s ts n h)
]

pub IsTextSet-add_texts : (us ts : List String) → IsTextSet ts → IsTextSet (add_texts us ts)
IsTextSet-add_texts [] ts h = h
IsTextSet-add_texts (u ∷ us) ts h =
    IsTextSet-add_texts us (add_text u ts) (IsTextSet-add_text u ts h)

pub IsTextSet-select :
    (p : String → Bool) (ts : List String) → IsTextSet ts → IsTextSet (select p ts)
IsTextSet-select p [] h = tt
IsTextSet-select p (t ∷ ts) (q, h) = elim (Bool-cases (p t)) [
  | inl y ↦ let e = has_text-select p t ts in rw y (ground arith, IsTextSet-select p ts h)
  | inr n ↦ rw n (IsTextSet-select p ts h)
]
