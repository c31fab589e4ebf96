-- ===== src/Policy/Combine/Covering.antt =====
-- Pruning drops the entries that a wildcard of the same port covers.
use susentorno.Base.{
  ◌≡◌, refl, sym, ◌∙◌, ap, arith, Bool, true, not, ◌&&◌, ◌||◌, List, [], ◌∷◌, ◌++◌, any, String,
  same_text, same_text_refl, if◌then◌else◌, Bool-cases, inl, inr,
}
use susentorno.Base.Strings.{ends_with, rest_of}
use susentorno.Base.TextSets.{has_text, same_text_test}
use susentorno.Policy.Files.{
  host_of, port_of, is_wildcard, suffixes_at, set_suffixes, add_suffix, suffixes_by_port, is_kept,
}

-- A wildcard covers the hosts of its own port that end in its suffix.
abbrev pub covers : String → String → Bool
covers entry w =
    is_wildcard (host_of w)
    && (same_text (port_of entry) (port_of w) && ends_with (host_of entry) (rest_of (host_of w)))

any-append : (q : String → Bool) (xs ys : List String) → any q (xs ++ ys) ≡ (any q xs || any q ys)
any-append q [] ys = refl
any-append q (x ∷ xs) ys = let r = any-append q xs ys in ground arith

any-set_suffixes :
    (q : String → Bool) (p port : String) (xs : List String) (m : List (String × List String))
    → any q (suffixes_at p (set_suffixes port xs m))
      ≡ (if same_text p port then any q xs else any q (suffixes_at p m))
any-set_suffixes q p port xs [] = elim (Bool-cases (same_text p port)) [
  | inl y ↦ rw y refl
  | inr n ↦ rw n refl
]
any-set_suffixes q p port xs ((other, old) ∷ m) =
    let r = any-set_suffixes q p port xs m in
    elim (Bool-cases (same_text port other)) [
      | inl y ↦
          let same = same_text_test (same_text p) port other y in
          elim (Bool-cases (same_text p other)) [
            | inl h ↦ let k = same ∙ h in rw (y, h, k) refl
            | inr h ↦ let k = same ∙ h in rw (y, h, k) refl
          ]
      | inr n ↦ elim (Bool-cases (same_text p other)) [
        | inl h ↦ elim (Bool-cases (same_text p port)) [
          | inl k ↦
              let same = same_text_test (λ z. same_text z other) p port k in absurd (ground arith)
          | inr k ↦ rw (n, h, k) refl
        ]
        | inr h ↦ rw (n, h) r
      ]
    ]

any-add_suffix :
    (q : String → Bool) (p w : String) (m : List (String × List String))
    → any q (suffixes_at p (add_suffix w m)) ≡ (
        any q (suffixes_at p m)
        || (is_wildcard (host_of w) && (same_text p (port_of w) && q (rest_of (host_of w)))))
any-add_suffix q p w m = elim (Bool-cases (is_wildcard (host_of w))) [
  | inl y ↦
      let suffixes = suffixes_at (port_of w) m in
      let one = rest_of (host_of w) ∷ [] in
      let e = any-set_suffixes q p (port_of w) (suffixes ++ one) m in
      let a = any-append q suffixes one in
      elim (Bool-cases (same_text p (port_of w))) [
        | inl h ↦
            let same = same_text_test (λ z. any q (suffixes_at z m)) p (port_of w) h in
            rw (y, h) (e ∙ rw h (a ∙ ground arith))
        | inr h ↦ rw (y, h) (e ∙ rw h (ground arith))
      ]
  | inr n ↦ rw n (ground arith)
]

any-suffixes_by_port :
    (entry : String) (entries : List String) (m : List (String × List String))
    → any (ends_with (host_of entry)) (suffixes_at (port_of entry) (suffixes_by_port entries m)) ≡ (
        any (ends_with (host_of entry)) (suffixes_at (port_of entry) m)
        || any (covers entry) entries)
any-suffixes_by_port entry [] m = ground arith
any-suffixes_by_port entry (w ∷ entries) m =
    let a = any-add_suffix (ends_with (host_of entry)) (port_of entry) w m in
    any-suffixes_by_port entry entries (add_suffix w m)
    ∙ ap (λ b. b || any (covers entry) entries) a
    ∙ ground arith

pub is_kept_lem :
    (entries : List String) (entry : String)
    → is_kept entries entry ≡ (is_wildcard (host_of entry) || not (any (covers entry) entries))
unfolding is_kept
is_kept_lem entries entry =
    ap (λ b. is_wildcard (host_of entry) || not b) (any-suffixes_by_port entry entries [])

-- A test on the members of a set depends on no order.
any-has :
    (p q : String → Bool) (xs ys : List String)
    → ((e : String) → has_text e xs ≡ true → p e ≡ true → any q ys ≡ true)
    → any p xs ≡ true
    → any q ys ≡ true
any-has p q [] ys f h = absurd cc
any-has p q (x ∷ xs) ys f h = elim (Bool-cases (p x)) [
  | inl y ↦ f x (let r = same_text_refl x in ground arith) y
  | inr n ↦ any-has p q xs ys (λ e m. f e (ground arith)) (ground arith)
]

has-any :
    (q : String → Bool) (e : String) (ys : List String)
    → has_text e ys ≡ true
    → q e ≡ true
    → any q ys ≡ true
has-any q e [] h y = absurd cc
has-any q e (x ∷ ys) h y = elim (Bool-cases (same_text e x)) [
  | inl s ↦ let same = same_text_test q e x s in ground arith
  | inr n ↦ let r = has-any q e ys (ground arith) y in ground arith
]

pub any_same :
    (p q : String → Bool) (xs ys : List String)
    → ((e : String) → has_text e xs ≡ (has_text e ys && q e))
    → any p xs ≡ any (λ e. q e && p e) ys
any_same p q xs ys h = elim (Bool-cases (any p xs)) [
  | inl y ↦
      y
      ∙ sym (
          any-has p (λ e. q e && p e) xs ys
            (λ e m k. let i = h e in has-any (λ z. q z && p z) e ys (ground arith) (ground arith))
            y)
  | inr n ↦ elim (Bool-cases (any (λ e. q e && p e) ys)) [
    | inl y ↦
        let back =
          any-has (λ e. q e && p e) p ys xs
            (λ e m k. let i = h e in has-any p e xs (ground arith) (ground arith)) y in
        absurd (ground arith)
    | inr n' ↦ n ∙ sym n'
  ]
]
