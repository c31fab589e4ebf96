-- ===== src/Bytes/Laws.antt =====
-- Reading behind a padded field.
use susentorno.Base.{
  ℕ, zero, suc, ◌+◌, ◌≤◌, ◌≡◌, refl, arith, [], ◌∷◌, ◌++◌, get_or, length, take, drop, ap,
}
use susentorno.Bytes.{Bytes, pad}

pub get_or-pad : (n k : ℕ) (b rest : Bytes) → get_or (pad n b ++ rest) (n + k) 0 ≡ get_or rest k 0
unfolding pad
get_or-pad zero k b rest = let e : 0 + k ≡ k = omega arith in rw e refl
get_or-pad (suc n) k [] rest =
    let e : suc n + k ≡ suc (n + k) = omega arith in rw e (get_or-pad n k [] rest)
get_or-pad (suc n) k (x ∷ b) rest =
    let e : suc n + k ≡ suc (n + k) = omega arith in rw e (get_or-pad n k b rest)

pub drop-pad : (n k : ℕ) (b rest : Bytes) → drop (n + k) (pad n b ++ rest) ≡ drop k rest
unfolding pad
drop-pad zero k b rest = let e : 0 + k ≡ k = omega arith in rw e refl
drop-pad (suc n) k [] rest =
    let e : suc n + k ≡ suc (n + k) = omega arith in rw e (drop-pad n k [] rest)
drop-pad (suc n) k (x ∷ b) rest =
    let e : suc n + k ≡ suc (n + k) = omega arith in rw e (drop-pad n k b rest)

pub take-pad : (n : ℕ) (b rest : Bytes) → length b ≤ n → take (length b) (pad n b ++ rest) ≡ b
unfolding pad
take-pad n [] rest h = refl
take-pad zero (x ∷ b) rest h = absurd (omega arith)
take-pad (suc n) (x ∷ b) rest h = ap (◌∷◌ x) (take-pad n b rest (omega arith))

pub length-pad : (n : ℕ) (b : Bytes) → length (pad n b) ≡ n
unfolding pad
length-pad zero b = refl
length-pad (suc n) [] = ap suc (length-pad n [])
length-pad (suc n) (x ∷ b) = ap suc (length-pad n b)
