-- ===== src/Steps/Output.antt =====
-- `boundStepOutput` of src/guestSetup/windows/stepRunner.ts, on the UTF-8 bytes of the text. The
-- text that it gives is the head, the marker with the count of the omitted bytes, and the tail.
use susentorno.Base.{
  ℕ, zero, suc, ◌+◌, ◌-◌, ◌/◌, ◌%◌, ◌≤◌, ◌<◌, ◌≡◌, refl, arith, Bool, true, false, [], ◌∷◌, length,
  take, drop, ◌==◌, leb, if◌then◌else◌, Bool-cases, inl, inr, ◌⊎◌, ap, sym, subst, ◌∙◌,
}
use susentorno.Bytes.{Bytes, read_u8}

pub record BoundedStepOutput : Type 0 where
  pub head : Bytes
  pub tail : Bytes
  pub truncated : Bool
  pub total_bytes : ℕ
  pub omitted_bytes : ℕ

-- `(byte & 0xc0) === 0x80`
abbrev pub is_continuation : ℕ → Bool
is_continuation byte = byte / 64 % 4 == 2

-- The loop that moves `headEnd` down.
abbrev pub head_end : Bytes → ℕ → ℕ
head_end bytes zero = zero
head_end bytes (suc i) =
    let rest = head_end bytes i in if is_continuation (read_u8 bytes (suc i)) then rest else suc i

-- The loop that moves `tailStart` up, over the bytes from there on.
abbrev pub tail_start : Bytes → ℕ → ℕ
tail_start [] i = i
tail_start (byte ∷ rest) i =
    let next = tail_start rest (i + 1) in if is_continuation byte then next else i

abbrev whole : Bytes → BoundedStepOutput
whole bytes = record {
  head = bytes;
  tail = [];
  truncated = false;
  total_bytes = length bytes;
  omitted_bytes = 0;
}

abbrev cut_at : Bytes → ℕ → ℕ → BoundedStepOutput
cut_at bytes last first = record {
  head = take last bytes;
  tail = drop first bytes;
  truncated = true;
  total_bytes = length bytes;
  omitted_bytes = first - last;
}

-- `half` bytes of either side, less what the two loops give up.
abbrev cut : Bytes → ℕ → BoundedStepOutput
cut bytes half =
    let start = length bytes - half in
    cut_at bytes (head_end bytes half) (tail_start (drop start bytes) start)

unfoldable pub bound_step_output : Bytes → ℕ → BoundedStepOutput
bound_step_output bytes ceiling =
    if leb (length bytes) ceiling then whole bytes else cut bytes (ceiling / 2)

-- A character begins at the place, or the text ends there.
abbrev pub IsBoundary : Bytes → ℕ → Type 0
IsBoundary bytes i = is_continuation (read_u8 bytes i) ≡ false

head_end-≤ : (bytes : Bytes) (i : ℕ) → head_end bytes i ≤ i
head_end-≤ bytes zero = omega arith
head_end-≤ bytes (suc i) = let below = head_end-≤ bytes i in ground arith

head_end-IsBoundary :
    (bytes : Bytes) (i : ℕ) → (head_end bytes i ≡ 0) ⊎ IsBoundary bytes (head_end bytes i)
head_end-IsBoundary bytes zero = inl refl
head_end-IsBoundary bytes (suc i) = let below = head_end-IsBoundary bytes i in ground arith

tail_start-≤ : (bytes : Bytes) (i : ℕ) → i ≤ tail_start bytes i
tail_start-≤ [] i = omega arith
tail_start-≤ (byte ∷ rest) i = let above = tail_start-≤ rest (i + 1) in ground arith

tail_start-inside : (bytes : Bytes) (i : ℕ) → tail_start bytes i ≤ i + length bytes
tail_start-inside [] i = omega arith
tail_start-inside (byte ∷ rest) i = let inside = tail_start-inside rest (i + 1) in ground arith

if-IsBoundary :
    (bytes : Bytes) (c : Bool) (m i : ℕ) (at : c ≡ false → IsBoundary bytes i)
    → IsBoundary bytes m
    → IsBoundary bytes (if c then m else i)
if-IsBoundary bytes true m i at h = h
if-IsBoundary bytes false m i at h = at refl

tail_start-IsBoundary :
    (bytes rest : Bytes) (i : ℕ) (same : (j : ℕ) → read_u8 rest j ≡ read_u8 bytes (i + j))
    → IsBoundary bytes (tail_start rest i)
tail_start-IsBoundary bytes [] i same =
    let at : i + 0 ≡ i = omega arith in
    subst (IsBoundary bytes) at (sym (ap is_continuation (same 0)))
tail_start-IsBoundary bytes (byte ∷ rest) i same =
    let shifted : (j : ℕ) → read_u8 rest j ≡ read_u8 bytes (i + 1 + j) =
      λ j. subst (λ k. read_u8 rest j ≡ read_u8 bytes k) (omega arith) (same (suc j)) in
    let at : i + 0 ≡ i = omega arith in
    if-IsBoundary bytes (is_continuation byte) (tail_start rest (i + 1)) i
      (λ no. subst (IsBoundary bytes) at (sym (ap is_continuation (same 0)) ∙ no))
      (tail_start-IsBoundary bytes rest (i + 1) shifted)

read_u8-drop : (n : ℕ) (bytes : Bytes) (j : ℕ) → read_u8 (drop n bytes) j ≡ read_u8 bytes (n + j)
read_u8-drop zero bytes j = let at : j ≡ 0 + j = omega arith in ap (read_u8 bytes) at
read_u8-drop (suc n) [] j = refl
read_u8-drop (suc n) (byte ∷ bytes) j =
    let at : suc (n + j) ≡ suc n + j = omega arith in
    read_u8-drop n bytes j ∙ ap (read_u8 (byte ∷ bytes)) at

length-take : (n : ℕ) (bytes : Bytes) → n ≤ length bytes → length (take n bytes) ≡ n
length-take zero bytes h = refl
length-take (suc n) [] h = omega arith
length-take (suc n) (byte ∷ bytes) h = let same = length-take n bytes (omega arith) in omega arith

length-drop : (n : ℕ) (bytes : Bytes) → n ≤ length bytes → n + length (drop n bytes) ≡ length bytes
length-drop zero bytes h = omega arith
length-drop (suc n) [] h = omega arith
length-drop (suc n) (byte ∷ bytes) h = let same = length-drop n bytes (omega arith) in omega arith

-- What a text over the ceiling becomes.
pub record IsCut (bytes : Bytes) (ceiling : ℕ) (o : BoundedStepOutput) : Type 0 where
  pub is_truncated : o.truncated ≡ true
  pub over : ceiling < length bytes
  pub last : ℕ
  pub first : ℕ
  pub head_is : o.head ≡ take last bytes
  pub tail_is : o.tail ≡ drop first bytes
  pub kept : length o.head + length o.tail ≤ ceiling
  pub counted : length o.head + o.omitted_bytes + length o.tail ≡ o.total_bytes
  pub head_ends : (last ≡ 0) ⊎ IsBoundary bytes last
  pub tail_begins : IsBoundary bytes first

-- What a text within the ceiling becomes.
pub record IsWhole (bytes : Bytes) (ceiling : ℕ) (o : BoundedStepOutput) : Type 0 where
  pub is_truncated : o.truncated ≡ false
  pub within : length bytes ≤ ceiling
  pub head_is : o.head ≡ bytes
  pub tail_is : o.tail ≡ []
  pub omitted : o.omitted_bytes ≡ 0

cut_at-IsCut :
    (bytes : Bytes) (ceiling half : ℕ) (over : ceiling < length bytes)
    (halves : half + half ≤ ceiling)
    → IsCut bytes ceiling (cut bytes half)
cut_at-IsCut bytes ceiling half over halves =
    let start = length bytes - half in
    let tail = drop start bytes in
    let last = head_end bytes half in
    let first = tail_start tail start in
    let below : last ≤ half = head_end-≤ bytes half in
    let above : start ≤ first = tail_start-≤ tail start in
    let tail_length : start + length tail ≡ length bytes = length-drop start bytes (omega arith) in
    let inside : first ≤ start + length tail = tail_start-inside tail start in
    let head_length : length (take last bytes) ≡ last = length-take last bytes (omega arith) in
    let rest_length : first + length (drop first bytes) ≡ length bytes =
      length-drop first bytes (omega arith) in
    record {
      is_truncated = refl;
      over = over;
      last = last;
      first = first;
      head_is = refl;
      tail_is = refl;
      kept = omega arith;
      counted = omega arith;
      head_ends = head_end-IsBoundary bytes half;
      tail_begins = tail_start-IsBoundary bytes tail start (read_u8-drop start bytes);
    }

-- `boundStepOutput` gives a text within the ceiling whole. Of a longer one it keeps a beginning and
-- an end, of together no more bytes than the ceiling, and counts the bytes between them; neither
-- cut stands before a continuation byte, but for a head of no bytes.
pub bound_step_output-IsBounded :
    (bytes : Bytes) (ceiling : ℕ)
    → IsWhole bytes ceiling (bound_step_output bytes ceiling)
      ⊎ IsCut bytes ceiling (bound_step_output bytes ceiling)
unfolding bound_step_output
bound_step_output-IsBounded bytes ceiling = elim (Bool-cases (leb (length bytes) ceiling)) [
  | inl fits ↦ rw fits (
      inl (record {
        is_truncated = refl;
        within = ground arith;
        head_is = refl;
        tail_is = refl;
        omitted = refl;
      }))
  | inr over ↦ rw over (inr (cut_at-IsCut bytes ceiling (ceiling / 2) (ground arith) (omega arith)))
]
