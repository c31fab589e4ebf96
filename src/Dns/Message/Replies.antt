-- ===== src/Dns/Message/Replies.antt =====
-- What the responder sends.
use susentorno.Base.{
  ℕ, zero, suc, ◌+◌, ◌-◌, ◌*◌, ◌/◌, ◌%◌, ◌^◌, ◌≤◌, ◌<◌, ◌≡◌, refl, arith, true, false, not, Option,
  none, some, [], ◌∷◌, ◌++◌, length, take, drop, Bool-cases, ap, subst, inl, inr, ltb, ◌==◌,
}
use susentorno.Bytes.{Bytes, read_u16}
use susentorno.Dhcp.Ip.{Ip}
use susentorno.Dns.Message.{
  ParsedQuery, ParseResult, ok, dropped, formerr, stuck, parse_query, respond, reply_to,
  build_response, build_form_err,
}
use susentorno.Dns.Message.Bounds.{IsResultOf, parse_query-IsResultOf}

-- A message whose third byte has the top bit set is not answered.
silent :
    (ip : Ip) (b0 b1 : ℕ) (rest : Bytes) (x y : ℕ)
    → 128 ≤ x
    → x < 256
    → y < 256
    → 8 ≤ length rest
    → respond ip (b0 ∷ b1 ∷ x ∷ y ∷ rest) ≡ none
unfolding respond parse_query
silent ip b0 b1 rest x y hx hx' hy hr =
    let n : ltb (suc (suc (suc (suc (length rest))))) 12 ≡ false = ground arith in
    let q : not ((x * 2 ^ 8 + y) / 2 ^ 15 % 2 == 0) ≡ true = ground arith in rw (n, q) refl

abbrev IsSilent : Ip → Option Bytes → Type 0
IsSilent ip none = Unit
IsSilent ip (some reply) = respond ip reply ≡ none

build_response-IsSilent :
    (ip : Ip) (msg : Bytes) (q : ParsedQuery) (a : Option Ip)
    → respond ip (build_response msg q a) ≡ none
unfolding build_response
build_response-IsSilent ip msg q a = elim (Bool-cases q.rd) [
  | inl y ↦ rw y (silent ip _ _ _ 129 0 (omega arith) (omega arith) (omega arith) (omega arith))
  | inr n ↦ rw n (silent ip _ _ _ 128 0 (omega arith) (omega arith) (omega arith) (omega arith))
]

reply_to-IsSilent : (ip : Ip) (msg : Bytes) (r : ParseResult) → IsSilent ip (reply_to ip msg r)
unfolding build_form_err
reply_to-IsSilent ip msg (ok q) = build_response-IsSilent ip msg q _
reply_to-IsSilent ip msg (dropped reason) = tt
reply_to-IsSilent ip msg (formerr id reason) =
    silent ip _ _ _ 128 1 (omega arith) (omega arith) (omega arith) (omega arith)
reply_to-IsSilent ip msg stuck = tt

-- A message that is itself a reply of the responder is not answered, so two responders send no
-- replies back and forth.
pub respond-respond :
    (ip : Ip) (msg reply : Bytes) → respond ip msg ≡ some reply → respond ip reply ≡ none
unfolding respond
respond-respond ip msg reply h = subst (IsSilent ip) h (reply_to-IsSilent ip msg (parse_query msg))

-- The two bytes of an ID come back as they were.
id_read : (n : ℕ) → n / 2 ^ 8 % 256 * 2 ^ 8 + n % 256 ≡ n % 2 ^ 16
id_read n = omega arith

answered :
    (ip : Ip) (msg : Bytes) (r : ParseResult)
    → IsResultOf msg r
    → 12 ≤ length msg
    → read_u16 msg 2 / 2 ^ 15 % 2 ≡ 0
    → (reply : Bytes) × (reply_to ip msg r ≡ some reply)
      × (read_u16 reply 0 ≡ read_u16 msg 0 % 2 ^ 16)
unfolding build_form_err build_response
answered ip msg (ok q) (l, u, e, c) h z = (_, refl, rw e (id_read _))
answered ip msg (dropped reason) r h z = absurd (elim r [ inl short ↦ omega arith | inr n ↦ n z ])
answered ip msg (formerr id reason) (l, e, c) h z = (_, refl, rw e (id_read _))
answered ip msg stuck r h z = absurd r

-- Every message with a whole header and QR clear is answered, under its own ID.
pub respond-answers :
    (ip : Ip) (msg : Bytes)
    → 12 ≤ length msg
    → read_u16 msg 2 / 2 ^ 15 % 2 ≡ 0
    → (reply : Bytes) × (respond ip msg ≡ some reply) × (read_u16 reply 0 ≡ read_u16 msg 0 % 2 ^ 16)
unfolding respond
respond-answers ip msg h z = answered ip msg (parse_query msg) (parse_query-IsResultOf msg) h z

take-take : (n : ℕ) (xs ys : Bytes) → n ≤ length xs → take n (take n xs ++ ys) ≡ take n xs
take-take zero xs ys h = refl
take-take (suc n) [] ys h = absurd (omega arith)
take-take (suc n) (x ∷ xs) ys h = ap (◌∷◌ x) (take-take n xs ys (omega arith))

length-drop : (n : ℕ) (xs : Bytes) → length xs ≤ n + length (drop n xs)
length-drop zero xs = omega arith
length-drop (suc n) [] = omega arith
length-drop (suc n) (x ∷ xs) = let h = length-drop n xs in omega arith

-- The reply to a query repeats its question, byte for byte, behind the header.
pub build_response-question :
    (msg : Bytes) (q : ParsedQuery) (a : Option Ip)
    → parse_query msg ≡ ok q
    → take (q.question_end - 12) (drop 12 (build_response msg q a))
      ≡ take (q.question_end - 12) (drop 12 msg)
unfolding build_response
build_response-question msg q a h =
    let (l, u, e, c) = subst (IsResultOf msg) h (parse_query-IsResultOf msg) in
    let d = length-drop 12 msg in take-take (q.question_end - 12) (drop 12 msg) _ (omega arith)
