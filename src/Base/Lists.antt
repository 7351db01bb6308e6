-- ===== src/Base/Lists.antt =====
-- Lists measured and indexed by native numbers, under the library's names.
use Prim.Native.Nat.{ℕ, zero, suc, ◌+◌, ◌-◌, ◌<◌, min}
use mathlib.Core.Path.{◌≡◌, refl, ap, subst}
use mathlib.Core.Logic.{◌≢◌, inl, inr}
use mathlib.Core.List.{List, [], ◌∷◌, ◌++◌, map}
use mathlib.Core.Option.{Option, none, some}
use native.Mathlib.Omega.{arith}
use Prim.Native.String.{String}
use mathlib.Core.Bool.{Bool, true, false, ◌||◌, ◌&&◌, not}
use intereng_api.Base.Tests.{◌===◌, if◌then◌else◌, Bool-cases}

module _ {ℓ} {A : Type ℓ} where
  abbrev pub length : List A → ℕ
  length [] = 0
  length (x ∷ xs) = suc (length xs)

  abbrev pub get_elem? : List A → ℕ → Option A
  get_elem? [] i = none
  get_elem? (x ∷ xs) zero = some x
  get_elem? (x ∷ xs) (suc i) = get_elem? xs i

  -- A write out of bounds changes nothing.
  abbrev pub set : List A → ℕ → A → List A
  set [] i v = []
  set (x ∷ xs) zero v = v ∷ xs
  set (x ∷ xs) (suc i) v = x ∷ set xs i v

  pub length-append : (xs ys : List A) → length (xs ++ ys) ≡ length xs + length ys
  length-append [] ys = omega arith
  length-append (x ∷ xs) ys = omega (arith, length-append xs ys)

module _ {ℓ} {A : Type ℓ} where
  pub length-set : (xs : List A) (i : ℕ) (v : A) → length (set xs i v) ≡ length xs
  length-set [] i v = refl
  length-set (x ∷ xs) zero v = refl
  length-set (x ∷ xs) (suc i) v = ap suc (length-set xs i v)

  pub get_elem?-set_self :
      (xs : List A) (i : ℕ) (v : A) → i < length xs → get_elem? (set xs i v) i ≡ some v
  get_elem?-set_self [] i v h = elim h [ ]
  get_elem?-set_self (x ∷ xs) zero v h = refl
  get_elem?-set_self (x ∷ xs) (suc i) v h = get_elem?-set_self xs i v (omega arith)

  pub get_elem?-set_ne :
      (xs : List A) {i j : ℕ} (v : A) → i ≢ j → get_elem? (set xs i v) j ≡ get_elem? xs j
  get_elem?-set_ne [] v h = refl
  get_elem?-set_ne (x ∷ xs) {i = zero} {j = zero} v h = absurd (h refl)
  get_elem?-set_ne (x ∷ xs) {i = zero} {j = suc j} v h = refl
  get_elem?-set_ne (x ∷ xs) {i = suc i} {j = zero} v h = refl
  get_elem?-set_ne (x ∷ xs) {i = suc i} {j = suc j} v h = get_elem?-set_ne xs v (λ e. h (ap suc e))

module _ {ℓ} {A : Type ℓ} where
  abbrev pub get_or : List A → ℕ → A → A
  get_or [] i d = d
  get_or (x ∷ xs) zero d = x
  get_or (x ∷ xs) (suc i) d = get_or xs i d

  abbrev pub take : ℕ → List A → List A
  take zero xs = []
  take (suc n) [] = []
  take (suc n) (x ∷ xs) = x ∷ take n xs

  abbrev pub drop : ℕ → List A → List A
  drop zero xs = xs
  drop (suc n) [] = []
  drop (suc n) (x ∷ xs) = drop n xs

  abbrev pub replicate : ℕ → A → List A
  replicate zero a = []
  replicate (suc n) a = a ∷ replicate n a

  pub take-append-drop : (n : ℕ) (xs : List A) → take n xs ++ drop n xs ≡ xs
  take-append-drop zero xs = refl
  take-append-drop (suc n) [] = refl
  take-append-drop (suc n) (x ∷ xs) = rw (take-append-drop n xs)

  pub length-take : (n : ℕ) (xs : List A) → length (take n xs) ≡ min n (length xs)
  length-take zero xs = omega arith
  length-take (suc n) [] = omega arith
  length-take (suc n) (x ∷ xs) = omega (arith, length-take n xs)

  pub length-drop : (n : ℕ) (xs : List A) → length (drop n xs) ≡ length xs - n
  length-drop zero xs = omega arith
  length-drop (suc n) [] = omega arith
  length-drop (suc n) (x ∷ xs) = omega (arith, length-drop n xs)

  pub length-replicate : (n : ℕ) (a : A) → length (replicate n a) ≡ n
  length-replicate zero a = refl
  length-replicate (suc n) a = ap suc (length-replicate n a)

  pub length-map {κ} : {B : Type κ} (xs : List A) (f : A → B) → length (map f xs) ≡ length xs
  length-map [] f = refl
  length-map (x ∷ xs) f = ap suc (length-map xs f)

module _ {ℓ κ} {A : Type ℓ} {B : Type κ} where
  -- An element of a mapped list is an image.
  pub get_elem?-map :
      (f : A → B) (xs : List A) (i : ℕ) (y : B)
      → get_elem? (map f xs) i ≡ some y
      → (x : A) × (f x ≡ y)
  get_elem?-map f [] i y h = cc
  get_elem?-map f (x ∷ xs) zero y h = (x, cc)
  get_elem?-map f (x ∷ xs) (suc i) y h = get_elem?-map f xs i y h

-- list.includes(s)
abbrev pub contains : List String → String → Bool
contains [] s = false
contains (x ∷ xs) s = x === s || contains xs s

-- Whether no text stands twice in a list.
abbrev pub all_different : List String → Bool
all_different [] = true
all_different (x ∷ xs) = not (contains xs x) && all_different xs

module _ {ℓ} {A : Type ℓ} where
  -- list.find(p), also the row that a query finds first.
  unfoldable pub find : (A → Bool) → List A → Option A
  find p [] = none
  find p (x ∷ xs) = if p x then some x else find p xs

  -- list.filter(p)
  unfoldable pub filter : (A → Bool) → List A → List A
  filter p [] = []
  filter p (x ∷ xs) = let rest = filter p xs in if p x then x ∷ rest else rest

  -- list.some(p)
  unfoldable pub any : (A → Bool) → List A → Bool
  any p [] = false
  any p (x ∷ xs) = p x || any p xs

  -- An element of a list, at a place of it.
  abbrev pub At : A → List A → Type ℓ
  At x xs = (i : ℕ) × (get_elem? xs i ≡ some x)

  pub find-At : (p : A → Bool) (xs : List A) (x : A) → find p xs ≡ some x → At x xs × (p x ≡ true)
  unfolding find
  find-At p [] x h = cc
  find-At p (y ∷ ys) x h = elim (Bool-cases (p y)) [
    | inl e ↦ let same : y ≡ x = ground arith in ((0, ap some same), subst (λ z. p z ≡ true) same e)
    | inr e ↦ let rest = find-At p ys x (ground arith) in ((suc rest.0.0, rest.0.1), rest.1)
  ]

  pub any-At : (p : A → Bool) (xs : List A) → any p xs ≡ true → (x : A) × At x xs × (p x ≡ true)
  unfolding any
  any-At p [] h = cc
  any-At p (y ∷ ys) h = elim (Bool-cases (p y)) [
    | inl e ↦ (y, (0, refl), e)
    | inr e ↦ let rest = any-At p ys (ground arith) in (rest.0, (suc rest.1.0, rest.1.1), rest.2)
  ]

  pub filter-At : (p : A → Bool) (xs : List A) (x : A) → At x (filter p xs) → At x xs × (p x ≡ true)
  unfolding filter
  filter-At p [] x (i, h) = cc
  filter-At p (y ∷ ys) x (zero, h) = elim (Bool-cases (p y)) [
    | inl e ↦ let same : y ≡ x = ground arith in ((0, ap some same), subst (λ z. p z ≡ true) same e)
    | inr e ↦ let rest = filter-At p ys x (zero, ground arith) in ((suc rest.0.0, rest.0.1), rest.1)
  ]
  filter-At p (y ∷ ys) x (suc i, h) = elim (Bool-cases (p y)) [
    | inl e ↦ let rest = filter-At p ys x (i, ground arith) in ((suc rest.0.0, rest.0.1), rest.1)
    | inr e ↦
        let rest = filter-At p ys x (suc i, ground arith) in ((suc rest.0.0, rest.0.1), rest.1)
  ]

  pub find-append_none :
      (p : A → Bool) (xs ys : List A) → find p xs ≡ none → find p (xs ++ ys) ≡ find p ys
  unfolding find
  find-append_none p [] ys h = refl
  find-append_none p (x ∷ xs) ys h = ground (arith, find-append_none p xs ys)

  pub find-append_some :
      (p : A → Bool) (xs ys : List A) (x : A) → find p xs ≡ some x → find p (xs ++ ys) ≡ some x
  unfolding find
  find-append_some p [] ys x h = cc
  find-append_some p (y ∷ xs) ys x h = ground (arith, find-append_some p xs ys x)

-- How often a text stands in a list.
abbrev pub occurrences : String → List String → ℕ
occurrences j [] = 0
occurrences j (x ∷ xs) = (if x === j then 1 else 0) + occurrences j xs
