-- ===== src/Dns/Message/Bounds.antt =====
-- The loop over the labels ends, and within the message.
use susentorno.Base.{
  ℕ, zero, suc, ◌+◌, ◌/◌, ◌%◌, ◌^◌, ◌≤◌, ◌<◌, ◌≡◌, ◌≢◌, ◌⊎◌, refl, arith, not, List, [], length,
  Bool-cases, inl, inr, ltb, leb, ◌==◌,
}
use susentorno.Bytes.{Bytes, read_u8, read_u16}
use susentorno.Dns.Message.{
  Labels, found, malformed, out_of_fuel, ParseResult, ok, dropped, formerr, stuck, parse_labels,
  parse_question, with_labels, parse_query,
}

-- Where the loop's result may point.
abbrev pub InBounds : Bytes → ℕ → Labels → Type 0
InBounds buf start (found labels off) = (start < off) × (off ≤ length buf)
InBounds buf start (malformed reason) = Unit
InBounds buf start out_of_fuel = ⊥

weaken : (buf : Bytes) (i j : ℕ) (r : Labels) → i ≤ j → InBounds buf j r → InBounds buf i r
weaken buf i j (found labels off) h (l, u) = (omega arith, u)
weaken buf i j (malformed reason) h b = b
weaken buf i j out_of_fuel h b = b

parse_labels-InBounds :
    (fuel : ℕ) (buf : Bytes) (off name_len : ℕ) (labels : List (List ℕ))
    → length buf < fuel + off
    → off ≤ length buf
    → InBounds buf off (parse_labels fuel buf off name_len labels)
unfolding parse_labels
parse_labels-InBounds zero buf off name_len labels h b = absurd (omega arith)
parse_labels-InBounds (suc fuel) buf off name_len labels h b =
    let len = read_u8 buf off in
    elim (Bool-cases (leb (length buf) off)) [
      | inl y ↦ rw y tt
      | inr n1 ↦ elim (Bool-cases (len == 0)) [
        | inl y ↦ rw (n1, y) (ground arith, ground arith)
        | inr n2 ↦ elim (Bool-cases (not (len / 64 % 4 == 0))) [
          | inl y ↦ rw (n1, n2, y) tt
          | inr n3 ↦ elim (Bool-cases (ltb 63 len)) [
            | inl y ↦ rw (n1, n2, n3, y) tt
            | inr n4 ↦ elim (Bool-cases (ltb (length buf) (off + 1 + len))) [
              | inl y ↦ rw (n1, n2, n3, n4, y) tt
              | inr n5 ↦ elim (Bool-cases (ltb 255 (name_len + (len + 1)))) [
                | inl y ↦ rw (n1, n2, n3, n4, n5, y) tt
                | inr n6 ↦
                    rw (n1, n2, n3, n4, n5, n6)
                      (weaken buf off (off + (1 + len)) _ (omega arith)
                        (parse_labels-InBounds fuel buf _ _ _ (omega arith) (ground arith)))
              ]
            ]
          ]
        ]
      ]
    ]

-- What each result of `parse_query` says of the message.
abbrev pub IsResultOf : Bytes → ParseResult → Type 0
IsResultOf buf (ok query) =
    (17 ≤ query.question_end)
    × (query.question_end ≤ length buf)
    × (query.id ≡ read_u16 buf 0)
    × (read_u16 buf 2 / 2 ^ 15 % 2 ≡ 0)
IsResultOf buf (dropped reason) = (length buf < 12) ⊎ (read_u16 buf 2 / 2 ^ 15 % 2 ≢ 0)
IsResultOf buf (formerr id reason) =
    (12 ≤ length buf) × (id ≡ read_u16 buf 0) × (read_u16 buf 2 / 2 ^ 15 % 2 ≡ 0)
IsResultOf buf stuck = ⊥

with_labels-IsResultOf :
    (buf : Bytes) (r : Labels)
    → InBounds buf 12 r
    → 12 ≤ length buf
    → read_u16 buf 2 / 2 ^ 15 % 2 ≡ 0
    → IsResultOf buf (with_labels buf (read_u16 buf 0) (read_u16 buf 2) r)
unfolding parse_question
with_labels-IsResultOf buf (found labels off) (l, u) h q =
    elim (Bool-cases (ltb (length buf) (off + 4))) [
      | inl y ↦ rw y (h, refl, q)
      | inr n ↦ elim (Bool-cases (not (read_u16 buf (off + 2) == 1))) [
        | inl y ↦ rw (n, y) (h, refl, q)
        | inr n' ↦ rw (n, n') (omega arith, ground arith, refl, q)
      ]
    ]
with_labels-IsResultOf buf (malformed reason) b h q = (h, refl, q)
with_labels-IsResultOf buf out_of_fuel b h q = b

-- For any buffer `parse_query` ends, in a query whose question lies within the buffer, in a
-- FORMERR for a whole header with QR clear that names its ID, or in a drop of a buffer that is
-- shorter than a header or has QR set.
pub parse_query-IsResultOf : (buf : Bytes) → IsResultOf buf (parse_query buf)
unfolding parse_query
parse_query-IsResultOf buf = elim (Bool-cases (ltb (length buf) 12)) [
  | inl y ↦ rw y (inl (ground arith))
  | inr n ↦ elim (Bool-cases (not (read_u16 buf 2 / 2 ^ 15 % 2 == 0))) [
    | inl y ↦ rw (n, y) (inr (ground arith))
    | inr n2 ↦ elim (Bool-cases (not (read_u16 buf 2 / 2 ^ 11 % 16 == 0))) [
      | inl y ↦ rw (n, n2, y) (ground arith, refl, ground arith)
      | inr n3 ↦ elim (Bool-cases (not (read_u16 buf 4 == 1))) [
        | inl y ↦ rw (n, n2, n3, y) (ground arith, refl, ground arith)
        | inr n4 ↦
            rw (n, n2, n3, n4)
              (with_labels-IsResultOf buf _
                (parse_labels-InBounds _ buf 12 0 [] (omega arith) (ground arith)) (ground arith)
                (ground arith))
      ]
    ]
  ]
]
