-- ===== src/Base/Sort.antt =====
-- `Array.prototype.sort`, which is stable: a stable insertion sort by a Boolean test that says
-- whether the comparator orders the first value before the second or leaves them tied.
use mathlib.Core.List.{Perm, perm_append_comm, append_assoc, flat_map}
use mathlib.Core.List.Perm
use intereng_api.Base.{
  String, refl, arith, occurrences, ◌≡◌, Bool, true, false, List, [], ◌∷◌, ◌++◌, if◌then◌else◌,
  length, suc, Bool-cases, inl, inr,
}
use intereng_api.Base.Order.{All, Ordered, All-imp}

pub perm_exchange {ℓ} :
    {A : Type ℓ} (xs ys zs : List A) → Perm (xs ++ (ys ++ zs)) (ys ++ (xs ++ zs))
perm_exchange xs ys zs =
    rw (← append_assoc xs ys zs, ← append_assoc ys xs zs)
      (Perm.append_right zs (perm_append_comm xs ys))

module _ {ℓ} {A : Type ℓ} (leq : A → A → Bool) where
  unfoldable pub insert : A → List A → List A
  insert x [] = x ∷ []
  insert x (y ∷ ys) = if leq x y then x ∷ y ∷ ys else y ∷ insert x ys

  unfoldable pub sort : List A → List A
  unfolding insert
  sort [] = []
  sort (x ∷ xs) = insert x (sort xs)

  insert-perm : (x : A) (xs : List A) → Perm (insert x xs) (x ∷ xs)
  unfolding insert
  insert-perm x [] = Perm.refl _
  insert-perm x (y ∷ ys) = elim (Bool-cases (leq x y)) [
    | inl e ↦ rw e (Perm.refl _)
    | inr e ↦ rw e (Perm.trans (Perm.cons y (insert-perm x ys)) (Perm.swap x y ys))
  ]

  -- Sorting permutes.
  pub sort-perm : (xs : List A) → Perm (sort xs) xs
  unfolding sort
  sort-perm [] = Perm.refl _
  sort-perm (x ∷ xs) = Perm.trans (insert-perm x (sort xs)) (Perm.cons x (sort-perm xs))

  length-insert : (x : A) (xs : List A) → length (insert x xs) ≡ suc (length xs)
  unfolding insert
  length-insert x [] = refl
  length-insert x (y ∷ ys) = ground (arith, length-insert x ys)

  pub length-sort : (xs : List A) → length (sort xs) ≡ length xs
  unfolding sort
  length-sort [] = refl
  length-sort (x ∷ xs) = omega (arith, length-insert x (sort xs), length-sort xs)

  pub All-insert {κ} : (P : A → Type κ) (x : A) (xs : List A) → P x → All P xs → All P (insert x xs)
  unfolding insert
  All-insert P x [] p h = (p, tt)
  All-insert P x (y ∷ ys) p h = elim (Bool-cases (leq x y)) [
    | inl e ↦ rw e (p, h)
    | inr e ↦ rw e (h.0, All-insert P x ys p h.1)
  ]

  pub All-sort {κ} : (P : A → Type κ) (xs : List A) → All P xs → All P (sort xs)
  unfolding sort
  All-sort P [] h = tt
  All-sort P (x ∷ xs) h = All-insert P x (sort xs) h.0 (All-sort P xs h.1)

  abbrev pub Leq : A → A → Type 0
  Leq x y = leq x y ≡ true

  module _ (trans : (x y z : A) → Leq x y → Leq y z → Leq x z)
      (total : (x y : A) → leq x y ≡ false → Leq y x) where
    insert-Ordered : (x : A) (xs : List A) → Ordered Leq xs → Ordered Leq (insert x xs)
    unfolding insert
    insert-Ordered x [] h = (tt, tt)
    insert-Ordered x (y ∷ ys) h = elim (Bool-cases (leq x y)) [
      | inl e ↦ rw e ((e, All-imp (Leq y) (Leq x) ys (λ z. trans x y z e) h.0), h)
      | inr e ↦ rw e (All-insert (Leq y) x ys (total x y e) h.0, insert-Ordered x ys h.1)
    ]

    -- With a total and transitive test the result is in order.
    pub sort-Ordered : (xs : List A) → Ordered Leq (sort xs)
    unfolding sort
    sort-Ordered [] = tt
    sort-Ordered (x ∷ xs) = insert-Ordered x (sort xs) (sort-Ordered xs)

  -- A list made of the parts of a sorted list is made of the parts of the list.
  module _ {κ} {B : Type κ} (f : A → List B) where
    flat_map-insert : (x : A) (xs : List A) → Perm (flat_map f (insert x xs)) (f x ++ flat_map f xs)
    unfolding insert flat_map
    flat_map-insert x [] = Perm.refl _
    flat_map-insert x (y ∷ ys) = elim (Bool-cases (leq x y)) [
      | inl e ↦ rw e (Perm.refl _)
      | inr e ↦ rw e (
          Perm.trans (Perm.append_left (f y) (flat_map-insert x ys))
            (perm_exchange (f y) (f x) (flat_map f ys)))
    ]

    pub flat_map-sort : (xs : List A) → Perm (flat_map f (sort xs)) (flat_map f xs)
    unfolding sort flat_map
    flat_map-sort [] = Perm.refl _
    flat_map-sort (x ∷ xs) =
        Perm.trans (flat_map-insert x (sort xs)) (Perm.append (Perm.refl (f x)) (flat_map-sort xs))

module _ (leq : String → String → Bool) (j : String) where
  occurrences-insert :
      (x : String) (xs : List String) → occurrences j (insert leq x xs) ≡ occurrences j (x ∷ xs)
  unfolding insert
  occurrences-insert x [] = refl
  occurrences-insert x (y ∷ ys) = ground (arith, occurrences-insert x ys)

  pub occurrences-sort : (xs : List String) → occurrences j (sort leq xs) ≡ occurrences j xs
  unfolding sort
  occurrences-sort [] = refl
  occurrences-sort (x ∷ xs) = omega (arith, occurrences-insert x (sort leq xs), occurrences-sort xs)
