-- ===== src/Bracket/Seeding.antt =====
-- `seedPairs` with the usual crossing (`padrao`).
use mathlib.Core.Path.{subst}
use mathlib.Core.List.{append-nil, perm_append_singleton, Perm, flat_map}
use mathlib.Core.List.Perm
use intereng_api.Base.{
  ℕ, zero, suc, ◌+◌, ◌-◌, ◌*◌, ◌/◌, ◌≡◌, ◌≤◌, ◌<◌, arith, refl, ap, sym, ◌∙◌, String, false, Option,
  none, some, List, [], ◌∷◌, ◌++◌, map, ltb, length, get_elem?, replicate, take, drop,
  length-append, length-map, length-replicate,
}
use intereng_api.Base.Order.{All}
use intereng_api.Standings.{truthy}
use intereng_api.Bracket.{
  QualifierSlot, BracketPair, padrao, pair, bracket_size, slot, seed_from, seed_pairs,
}
use intereng_api.Bracket.Size.{PowerOfTwo, one, twice, bracket_size_lem}
use intereng_api.Bracket.Sequential.{participants}

-- The entries of a list with empty places.
abbrev somes : List (Option String) → List String
somes [] = []
somes (none ∷ s) = somes s
somes (some x ∷ s) = x ∷ somes s

somes-append : (s t : List (Option String)) → somes (s ++ t) ≡ somes s ++ somes t
somes-append [] t = refl
somes-append (none ∷ s) t = somes-append s t
somes-append (some x ∷ s) t = rw (somes-append s t)

-- A window of a list is its first, the window within, and its last.
take-snoc :
    (m : ℕ) (s : List (Option String)) → m < length s → take (suc m) s ≡ take m s ++ slot s m ∷ []
take-snoc m [] h = elim h [ ]
take-snoc zero (x ∷ s) h = refl
take-snoc (suc m) (x ∷ s) h = ap (λ r. x ∷ r) (take-snoc m s (omega arith))

window :
    (i m j : ℕ) (s : List (Option String))
    → j ≡ i + suc m
    → j < length s
    → take (suc (suc m)) (drop i s) ≡ slot s i ∷ (take m (drop (suc i) s) ++ slot s j ∷ [])
window i m j [] e h = elim h [ ]
window zero m j (x ∷ s) e h =
    let last : j ≡ suc m = omega arith in rw last (ap (λ r. x ∷ r) (take-snoc m s (omega arith)))
window (suc i) m zero (x ∷ s) e h = absurd (omega arith)
window (suc i) m (suc j) (x ∷ s) e h = window i m j s (omega arith) (omega arith)

-- The first half of the places is taken by entries that are not empty.
abbrev Filled : ℕ → List (Option String) → Type 0
Filled h s = (i : ℕ) → i < h → (a : String) × (slot s i ≡ some a) × (truthy (some a) ≡ some a)

-- One round of the loop, at a place that is taken.
pub seed_from-taken :
    (fuel i k : ℕ) (s : List (Option String)) (size : ℕ) (a : String)
    → slot s i ≡ some a
    → truthy (some a) ≡ some a
    → seed_from (suc fuel) i k s size
      ≡ pair k a (slot s (size - 1 - i)) ∷ seed_from fuel (i + 1) (k + 1) s size
unfolding seed_from
seed_from-taken fuel i k s size a e t = ground arith

-- A pair around the pairs within.
around :
    (k : ℕ) (a : String) (last : Option String) (ps : List BracketPair) (w : List (Option String))
    → Perm (participants ps) (somes w)
    → Perm (participants (pair k a last ∷ ps)) (somes (some a ∷ (w ++ last ∷ [])))
unfolding flat_map
around k a none ps w h = rw (somes-append w (none ∷ []), append-nil) (Perm.cons a h)
around k a (some b) ps w h =
    rw (somes-append w (some b ∷ []))
      (Perm.cons a (Perm.trans (Perm.cons b h) (Perm.symm (perm_append_singleton b (somes w)))))

-- The pairs made from the index `i` on hold the entries between `i` and its mirror image.
seed_from-perm :
    (fuel i k : ℕ) (s : List (Option String)) (size : ℕ)
    → size ≡ 2 * (i + fuel)
    → length s ≡ size
    → Filled (i + fuel) s
    → Perm (participants (seed_from fuel i k s size)) (somes (take (2 * fuel) (drop i s)))
seed_from-perm zero i k s size e l f = unfold seed_from flat_map in Perm.refl _
seed_from-perm (suc fuel) i k s size e l f =
    let (a, ea, ta) = f i (omega arith) in
    let rest =
      seed_from-perm fuel (i + 1) (k + 1) s size (omega arith) l (λ j h. f j (omega arith)) in
    let twice_more : 2 * suc fuel ≡ suc (suc (2 * fuel)) = omega arith in
    let next : i + 1 ≡ suc i = omega arith in
    let inner = take (2 * fuel) (drop (suc i) s) in
    let others : Perm (participants (seed_from fuel (i + 1) (k + 1) s size)) (somes inner) =
      subst
        (λ j.
          Perm (participants (seed_from fuel (i + 1) (k + 1) s size))
            (somes (take (2 * fuel) (drop j s))))
        next rest in
    let last : size - 1 - i ≡ i + suc (2 * fuel) = omega arith in
    let cut = window i (2 * fuel) (size - 1 - i) s last (omega arith) in
    let whole : take (2 * suc fuel) (drop i s) ≡ some a ∷ (inner ++ slot s (size - 1 - i) ∷ []) =
      ap (λ m. take m (drop i s)) twice_more
      ∙ cut
      ∙ ap (λ x. x ∷ (inner ++ slot s (size - 1 - i) ∷ [])) ea in
    rw (seed_from-taken fuel i k s size a ea ta, whole)
      (around k a (slot s (size - 1 - i)) (seed_from fuel (i + 1) (k + 1) s size) inner others)

some_injective : {a b : String} → some a ≡ some b → a ≡ b
some_injective h = cc

-- The pair of the place `i + j`.
seed_from-get_elem? :
    (fuel i k : ℕ) (s : List (Option String)) (size j : ℕ) (a : String)
    → Filled (i + fuel) s
    → j < fuel
    → slot s (i + j) ≡ some a
    → get_elem? (seed_from fuel i k s size) j ≡ some (pair (k + j) a (slot s (size - 1 - (i + j))))
seed_from-get_elem? zero i k s size j a f l e = absurd (omega arith)
seed_from-get_elem? (suc fuel) i k s size zero a f l e =
    let (b, eb, tb) = f i (omega arith) in
    let here : i + 0 ≡ i = omega arith in
    let number : k + 0 ≡ k = omega arith in
    let same : b ≡ a = some_injective (sym eb ∙ ap (slot s) (sym here) ∙ e) in
    rw (seed_from-taken fuel i k s size b eb tb, here, number, same) refl
seed_from-get_elem? (suc fuel) i k s size (suc j) a f l e =
    let (b, eb, tb) = f i (omega arith) in
    let here : i + suc j ≡ i + 1 + j = omega arith in
    let number : k + suc j ≡ k + 1 + j = omega arith in
    rw (seed_from-taken fuel i k s size b eb tb, here, number)
      (seed_from-get_elem? fuel (i + 1) (k + 1) s size j a (λ m h. f m (omega arith)) (omega arith)
        (ap (slot s) (sym here) ∙ e))

somes-some : (xs : List String) → somes (map some xs) ≡ xs
somes-some [] = refl
somes-some (x ∷ xs) = ap (λ r. x ∷ r) (somes-some xs)

somes-replicate : (n : ℕ) → somes (replicate n none) ≡ []
somes-replicate zero = refl
somes-replicate (suc n) = somes-replicate n

take_all : (n : ℕ) (s : List (Option String)) → length s ≡ n → take n s ≡ s
take_all zero [] h = refl
take_all zero (x ∷ s) h = absurd (omega arith)
take_all (suc n) [] h = absurd (omega arith)
take_all (suc n) (x ∷ s) h = ap (λ r. x ∷ r) (take_all n s (omega arith))

-- The seeds, and the empty places behind them.
slot-seed : (xs : List String) (n i : ℕ) → slot (map some xs ++ replicate n none) i ≡ get_elem? xs i
slot-seed [] zero i = refl
slot-seed [] (suc n) zero = refl
slot-seed [] (suc n) (suc i) = slot-seed [] n i
slot-seed (x ∷ xs) n zero = refl
slot-seed (x ∷ xs) n (suc i) = slot-seed xs n i

present :
    (xs : List String) (i : ℕ)
    → All (λ x. truthy (some x) ≡ some x) xs
    → i < length xs
    → (a : String) × (get_elem? xs i ≡ some a) × (truthy (some a) ≡ some a)
present [] i t h = elim h [ ]
present (x ∷ xs) zero t h = (x, refl, t.0)
present (x ∷ xs) (suc i) t h = present xs i t.1 (omega arith)

even : (n : ℕ) → PowerOfTwo n → 2 ≤ n → n ≡ 2 * (n / 2)
even _ one h = absurd (omega arith)
even _ (twice n p) h = omega arith

module _ (slots : List QualifierSlot) where
  abbrev pub entries : List String
  entries = map (λ s. s.entry_id) slots

  abbrev empty : Option String
  empty = none

  abbrev seeded : List (Option String)
  seeded = map some entries ++ replicate (bracket_size (length entries) - length entries) none

  -- Where two or more qualified, and no id is empty, every one of them stands in exactly one place of
  -- exactly one pair, and nobody else does.
  pub seed_pairs-perm :
      2 ≤ length entries
      → All (λ x. truthy (some x) ≡ some x) entries
      → Perm (participants (seed_pairs slots padrao)) entries
  unfolding seed_pairs
  seed_pairs-perm h t =
      let n = length entries in
      let size = bracket_size n in
      let (p, large, small) = bracket_size_lem n h in
      let padding : length (replicate (size - n) empty) ≡ size - n =
        length-replicate (size - n) empty in
      let measured : length seeded ≡ size = omega (
        arith,
        length-append (map some entries) (replicate (size - n) empty),
        length-map entries some,
        padding,
      ) in
      let halves = even size p (omega arith) in
      let filled : Filled (0 + size / 2) seeded = λ i l.
        let (a, ea, ta) = present entries i t (omega arith) in
        (a, slot-seed entries (size - n) i ∙ ea, ta) in
      let all : somes (take (2 * (size / 2)) seeded) ≡ entries =
        ap somes (take_all (2 * (size / 2)) seeded (omega arith))
        ∙ somes-append (map some entries) (replicate (size - n) none)
        ∙ (rw (somes-some entries, somes-replicate (size - n), append-nil) refl) in
      let two : ltb n 2 ≡ false = ground arith in
      rw two (
        subst (λ r. Perm (participants (seed_from (size / 2) 0 1 seeded size)) r) all
          (seed_from-perm (size / 2) 0 1 seeded size (omega arith) measured filled))

  -- The pair number `i + 1` is made of the seed `i + 1` and of the seed that stands as far from the end of
  -- the bracket as that one from its beginning, which is missing, a bye, where the bracket is larger than
  -- the number of seeds.
  pub seed_pairs-get_elem? :
      2 ≤ length entries
      → All (λ x. truthy (some x) ≡ some x) entries
      → (i : ℕ) (a : String) → i < bracket_size (length entries) / 2
      → get_elem? entries i ≡ some a
      → get_elem? (seed_pairs slots padrao) i
        ≡ some (pair (i + 1) a (get_elem? entries (bracket_size (length entries) - 1 - i)))
  unfolding seed_pairs
  seed_pairs-get_elem? h t i a l e =
      let n = length entries in
      let size = bracket_size n in
      let (p, large, small) = bracket_size_lem n h in
      let halves = even size p (omega arith) in
      let filled : Filled (0 + size / 2) seeded = λ i l.
        let (a, ea, ta) = present entries i t (omega arith) in
        (a, slot-seed entries (size - n) i ∙ ea, ta) in
      let two : ltb n 2 ≡ false = ground arith in
      let first : 0 + i ≡ i = omega arith in
      let number : 1 + i ≡ i + 1 = omega arith in
      rw two (
        seed_from-get_elem? (size / 2) 0 1 seeded size i a filled l
          (ap (slot seeded) first ∙ slot-seed entries (size - n) i ∙ e)
        ∙ (rw (first, number, slot-seed entries (size - n) (size - 1 - i)) refl))
