-- ===== src/Bracket/Sequential.antt =====
-- The pairs of `sequentialPairs`.
use mathlib.Core.List.{flat_map}
use intereng_api.Base.{
  ℕ, ◌+◌, ◌*◌, ◌/◌, ◌≡◌, ◌≤◌, arith, refl, String, none, some, List, [], ◌∷◌, map, length,
}
use intereng_api.Bracket.{BracketPair, sequential_from, sequential_pairs}

-- The entries of a pair.
abbrev pub sides : BracketPair → List String
sides p = elim p.entry_b [ none ↦ p.entry_a ∷ [] | some b ↦ p.entry_a ∷ b ∷ [] ]

abbrev pub participants : List BracketPair → List String
participants ps = flat_map sides ps

-- k, k + 1, …
abbrev pub orders_from : ℕ → List BracketPair → List ℕ
orders_from k [] = []
orders_from k (p ∷ ps) = k ∷ orders_from (k + 1) ps

participants-sequential_from :
    (k : ℕ) (entries : List String) → participants (sequential_from k entries) ≡ entries
unfolding sequential_from flat_map
participants-sequential_from k [] = refl
participants-sequential_from k (a ∷ []) = refl
participants-sequential_from k (a ∷ b ∷ rest) = rw (participants-sequential_from (k + 1) rest)

length-sequential_from :
    (k : ℕ) (entries : List String)
    → (length entries ≤ 2 * length (sequential_from k entries))
      × (2 * length (sequential_from k entries) ≤ length entries + 1)
unfolding sequential_from
length-sequential_from k [] = (omega arith, omega arith)
length-sequential_from k (a ∷ []) = (omega arith, omega arith)
length-sequential_from k (a ∷ b ∷ rest) =
    let h = length-sequential_from (k + 1) rest in (omega (arith, h), omega (arith, h))

orders-sequential_from :
    (k : ℕ) (entries : List String)
    → map (λ p. p.order) (sequential_from k entries) ≡ orders_from k (sequential_from k entries)
unfolding sequential_from
orders-sequential_from k [] = refl
orders-sequential_from k (a ∷ []) = refl
orders-sequential_from k (a ∷ b ∷ rest) = rw (orders-sequential_from (k + 1) rest)

-- The pairs hold the entries in their order, there are half as many of them, rounded up, and they are
-- numbered from 1.
pub sequential_pairs_keep :
    (entries : List String)
    → (participants (sequential_pairs entries) ≡ entries)
      × (length (sequential_pairs entries) ≡ (length entries + 1) / 2)
      × (map (λ p. p.order) (sequential_pairs entries) ≡ orders_from 1 (sequential_pairs entries))
unfolding sequential_pairs
sequential_pairs_keep entries = (
  participants-sequential_from 1 entries,
  omega (arith, length-sequential_from 1 entries),
  orders-sequential_from 1 entries,
)
