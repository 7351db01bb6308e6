-- ===== src/Bracket.antt =====
-- src/edition-actions/edition-action-recalculation.service.ts: the pairs of the first round of a knockout
-- phase and of the rounds after it (`seedPairs`, `sequentialPairs`).
pub mod Sequential
pub mod Size
pub mod Seeding
use Prim.Native.Nat.{max}
use intereng_api.Base.{
  ℕ, zero, suc, ◌+◌, ◌-◌, ◌*◌, ◌/◌, String, Option, none, some, List, [], ◌∷◌, ◌++◌, map, ltb,
  length, get_or, replicate, if◌then◌else◌,
}
use intereng_api.Base.Int.{ℤ}
use intereng_api.Standings.{truthy}

pub record QualifierSlot : Type 0 where
  pub entry_id : String
  pub points : ℤ
  pub balance : ℤ
  pub score_for : ℕ

pub record BracketPair : Type 0 where
  pub order : ℕ
  pub entry_a : String
  pub entry_b : Option String

pub data Crossing : Type 0 where
  padrao sequencial : Crossing

abbrev pub pair : ℕ → String → Option String → BracketPair
pair k a b = record { order = k; entry_a = a; entry_b = b }

-- The loop of `sequentialPairs`; `k` is `pairs.length + 1`.
unfoldable pub sequential_from : ℕ → List String → List BracketPair
sequential_from k [] = []
sequential_from k (a ∷ []) = pair k a none ∷ []
sequential_from k (a ∷ b ∷ rest) = pair k a (some b) ∷ sequential_from (k + 1) rest

unfoldable pub sequential_pairs : List String → List BracketPair
sequential_pairs entries = sequential_from 1 entries

-- while (size < n) size *= 2, for `fuel` rounds at most.
unfoldable pub double_until : ℕ → ℕ → ℕ → ℕ
double_until zero size n = size
double_until (suc fuel) size n =
    let larger = double_until fuel (size * 2) n in if ltb size n then larger else size

-- The size of the bracket. `n` rounds are enough, as `n ≤ 2 ^ n`.
unfoldable pub bracket_size : ℕ → ℕ
unfolding double_until
bracket_size n = max 2 (double_until n 1 n)

-- seeded[index]
abbrev pub slot : List (Option String) → ℕ → Option String
slot seeded i = get_or seeded i none

-- The loop over the index, for `fuel` rounds; `k` is `pairs.length + 1`.
unfoldable pub seed_from : ℕ → ℕ → ℕ → List (Option String) → ℕ → List BracketPair
seed_from zero i k seeded size = []
seed_from (suc fuel) i k seeded size =
    let skipped = seed_from fuel (i + 1) k seeded size in
    let rest = seed_from fuel (i + 1) (k + 1) seeded size in
    elim (truthy (slot seeded i)) [
      | none ↦ skipped
      | some a ↦ pair k a (slot seeded (size - 1 - i)) ∷ rest
    ]

unfoldable pub seed_pairs : List QualifierSlot → Crossing → List BracketPair
seed_pairs slots sequencial =
    let entries = map (λ s. s.entry_id) slots in
    if ltb (length entries) 2 then [] else sequential_pairs entries
seed_pairs slots padrao =
    let entries = map (λ s. s.entry_id) slots in
    let size = bracket_size (length entries) in
    let seeded = map some entries ++ replicate (size - length entries) none in
    if ltb (length entries) 2 then [] else seed_from (size / 2) 0 1 seeded size
