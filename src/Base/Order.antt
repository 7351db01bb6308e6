-- ===== src/Base/Order.antt =====
-- Predicates on lists by recursion, which compute to tuples.
use mathlib.Core.List.{flat_map}
use mathlib.Core.Path.{subst}
use intereng_api.Base.{ℕ, zero, suc, ◌<◌, ◌≡◌, arith, some, get_elem?, List, [], ◌∷◌, ◌++◌}

abbrev pub All {ℓ κ} : {A : Type ℓ} → (A → Type κ) → List A → Type κ
All P [] = Unit
All P (x ∷ xs) = P x × All P xs

-- Every element is related to every later one.
abbrev pub Ordered {ℓ κ} : {A : Type ℓ} → (A → A → Type κ) → List A → Type κ
Ordered R [] = Unit
Ordered R (x ∷ xs) = All (R x) xs × Ordered R xs

module _ {ℓ κ} {A : Type ℓ} (P : A → Type κ) where
  pub All-append : (xs ys : List A) → All P xs → All P ys → All P (xs ++ ys)
  All-append [] ys hx hy = hy
  All-append (x ∷ xs) ys hx hy = (hx.0, All-append xs ys hx.1 hy)

  pub All-tabulate : (xs : List A) → ((x : A) → P x) → All P xs
  All-tabulate [] h = tt
  All-tabulate (x ∷ xs) h = (h x, All-tabulate xs h)

module _ {ℓ κ ι} {A : Type ℓ} (P : A → Type κ) (Q : A → Type ι) where
  pub All-imp : (xs : List A) → ((x : A) → P x → Q x) → All P xs → All Q xs
  All-imp [] f h = tt
  All-imp (x ∷ xs) f h = (f x h.0, All-imp xs f h.1)

module _ {ℓ κ ι} {A : Type ℓ} (R : A → A → Type κ) (S : A → A → Type ι) where
  pub Ordered-imp : (xs : List A) → ((x y : A) → R x y → S x y) → Ordered R xs → Ordered S xs
  Ordered-imp [] f h = tt
  Ordered-imp (x ∷ xs) f h = (All-imp (R x) (S x) xs (f x) h.0, Ordered-imp xs f h.1)

module _ {ℓ κ} {A : Type ℓ} (R : A → A → Type κ) where
  pub Ordered-append :
      (xs ys : List A)
      → Ordered R xs
      → Ordered R ys
      → All (λ x. All (R x) ys) xs
      → Ordered R (xs ++ ys)
  Ordered-append [] ys hx hy h = hy
  Ordered-append (x ∷ xs) ys hx hy h =
      (All-append (R x) xs ys hx.0 h.0, Ordered-append xs ys hx.1 hy h.1)

module _ {ℓ κ ι} {A : Type ℓ} {B : Type κ} (Q : B → Type ι) where
  pub All-flat_map :
      (f : A → List B) (xs : List A) → All (λ x. All Q (f x)) xs → All Q (flat_map f xs)
  unfolding flat_map
  All-flat_map f [] h = tt
  All-flat_map f (x ∷ xs) h = All-append Q (f x) (flat_map f xs) h.0 (All-flat_map f xs h.1)

module _ {ℓ κ} {A : Type ℓ} where
  get_elem?-All :
      (P : A → Type κ) (xs : List A) (i : ℕ) (x : A) → All P xs → get_elem? xs i ≡ some x → P x
  get_elem?-All P [] i x h e = cc
  get_elem?-All P (y ∷ xs) zero x h e = let same : y ≡ x = cc in subst P same h.0
  get_elem?-All P (y ∷ xs) (suc i) x h e = get_elem?-All P xs i x h.1 e

  -- Two places of a list in order.
  pub get_elem?-Ordered :
      (R : A → A → Type κ) (xs : List A) (i j : ℕ) (x y : A)
      → Ordered R xs
      → i < j
      → get_elem? xs i ≡ some x
      → get_elem? xs j ≡ some y
      → R x y
  get_elem?-Ordered R [] i j x y o l e f = cc
  get_elem?-Ordered R (z ∷ xs) i zero x y o l e f = absurd (omega arith)
  get_elem?-Ordered R (z ∷ xs) zero (suc j) x y o l e f =
      let same : z ≡ x = cc in subst (λ w. R w y) same (get_elem?-All (R z) xs j y o.0 f)
  get_elem?-Ordered R (z ∷ xs) (suc i) (suc j) x y o l e f =
      get_elem?-Ordered R xs i j x y o.1 (omega arith) e f
