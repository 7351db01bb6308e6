-- ===== src/Bracket/Size.antt =====
-- The size of the bracket: the loop of `seedPairs`.
use Prim.Native.Nat.{max}
use intereng_api.Base.{ℕ, zero, suc, ◌+◌, ◌*◌, ◌≡◌, ◌≤◌, ◌<◌, inl, inr, arith, ltb, Bool-cases}
use intereng_api.Bracket.{double_until, bracket_size}

-- A power of two.
pub data PowerOfTwo : ℕ → Type 0 where
  one : PowerOfTwo 1
  twice : (n : ℕ) → PowerOfTwo n → PowerOfTwo (n * 2)

double_until-PowerOfTwo :
    (fuel size n : ℕ) → PowerOfTwo size → PowerOfTwo (double_until fuel size n)
unfolding double_until
double_until-PowerOfTwo zero size n h = h
double_until-PowerOfTwo (suc fuel) size n h = elim (Bool-cases (ltb size n)) [
  | inl e ↦ rw e (double_until-PowerOfTwo fuel (size * 2) n (twice size h))
  | inr e ↦ rw e h
]

double_until-ends : (fuel size n : ℕ) → 1 ≤ size → n ≤ size + fuel → n ≤ double_until fuel size n
unfolding double_until
double_until-ends zero size n h l = omega arith
double_until-ends (suc fuel) size n h l = ground (arith, double_until-ends fuel (size * 2) n)

double_until-small : (fuel size n : ℕ) → size < 2 * n → double_until fuel size n < 2 * n
unfolding double_until
double_until-small zero size n h = h
double_until-small (suc fuel) size n h = ground (arith, double_until-small fuel (size * 2) n)

-- For two entries or more, the bracket is the smallest power of two that holds them: a power of two, at
-- least as large as their number and less than twice as large.
pub bracket_size_lem :
    (n : ℕ) → 2 ≤ n → PowerOfTwo (bracket_size n) × (n ≤ bracket_size n) × (bracket_size n < 2 * n)
unfolding bracket_size
bracket_size_lem n h =
    let large = double_until-ends n 1 n (omega arith) (omega arith) in
    let small = double_until-small n 1 n (omega arith) in
    let same : max 2 (double_until n 1 n) ≡ double_until n 1 n = omega arith in
    (rw same (double_until-PowerOfTwo n 1 n one), omega arith, omega arith)
