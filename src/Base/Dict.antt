-- ===== src/Base/Dict.antt =====
-- A `Map` with text keys: an association list in insertion order.
use mathlib.Core.Option
use mathlib.Core.Path.{subst}
use intereng_api.Base.{
  ℕ, ◌+◌, String, ◌≡◌, refl, ◌∙◌, Bool, true, false, ◌||◌, Option, none, some, List, [], ◌∷◌, arith,
  eq_iff, ◌===◌, if◌then◌else◌, Bool-cases, inl, inr,
}
use intereng_api.Base.Order.{All}

abbrev pub Dict {ℓ} : Type ℓ → Type ℓ
Dict V = List (String × V)

module _ {ℓ} {V : Type ℓ} where
  -- map.get(k)
  unfoldable pub get : String → Dict V → Option V
  get k [] = none
  get k ((j, v) ∷ d) = if j === k then some v else get k d

  -- map.has(k)
  unfoldable pub has : String → Dict V → Bool
  has k [] = false
  has k ((j, v) ∷ d) = if j === k then true else has k d

  -- map.set(k, v): a key that is there keeps its place.
  unfoldable pub set : String → V → Dict V → Dict V
  set k v [] = (k, v) ∷ []
  set k v ((j, w) ∷ d) = if j === k then (j, v) ∷ d else (j, w) ∷ set k v d

  -- A write to the fields of the object that the map holds under `k`.
  unfoldable pub modify : String → (V → V) → Dict V → Dict V
  modify k f [] = []
  modify k f ((j, v) ∷ d) = if j === k then (j, f v) ∷ d else (j, v) ∷ modify k f d

  unfoldable pub set_all : Dict V → List (String × V) → Dict V
  set_all d [] = d
  set_all d ((k, v) ∷ es) = set_all (set k v d) es

  -- new Map(entries)
  unfoldable pub of_entries : List (String × V) → Dict V
  unfolding set_all set
  of_entries es = set_all [] es

  pub get-set :
      (k j : String) (v : V) (d : Dict V)
      → get j (set k v d) ≡ (if k === j then some v else get j d)
  unfolding get set
  get-set k j v [] = refl
  get-set k j v ((i, w) ∷ d) = ground (arith, eq_iff k j, eq_iff i k, eq_iff i j, get-set k j v d)

  pub get-modify :
      (k j : String) (f : V → V) (d : Dict V)
      → get j (modify k f d) ≡ (if k === j then Option.map f (get j d) else get j d)
  unfolding get modify
  get-modify k j f [] = ground arith
  get-modify k j f ((i, w) ∷ d) =
      ground (arith, eq_iff k j, eq_iff i k, eq_iff i j, get-modify k j f d)

  pub has-modify : (k j : String) (f : V → V) (d : Dict V) → has j (modify k f d) ≡ has j d
  unfolding has modify
  has-modify k j f [] = refl
  has-modify k j f ((i, w) ∷ d) = ground (arith, has-modify k j f d)

  -- The sum of a number of every value.
  unfoldable pub total : (V → ℕ) → Dict V → ℕ
  total f [] = 0
  total f ((k, v) ∷ d) = f v + total f d

  pub total-modify :
      (f : V → ℕ) (k : String) (g : V → V) (n : ℕ) (d : Dict V)
      → ((v : V) → f (g v) ≡ f v + n)
      → has k d ≡ true
      → total f (modify k g d) ≡ total f d + n
  unfolding total has modify
  total-modify f k g n [] h p = cc
  total-modify f k g n ((j, v) ∷ d) h p = ground (arith, h v, total-modify f k g n d h)

  -- What holds of every value under a key.
  abbrev pub Values {κ} : (V → Type κ) → Dict V → Type (ℓ ⊔ κ)
  Values P d = (k : String) (v : V) → get k d ≡ some v → P v

  Values-set {κ} :
      (P : V → Type κ) (k : String) (v : V) (d : Dict V) → P v → Values P d → Values P (set k v d)
  Values-set P k v d p h j w e = elim (Bool-cases (k === j)) [
    | inl q ↦ let same : v ≡ w = ground (arith, get-set k j v d) in subst P same p
    | inr q ↦ h j w (ground (arith, get-set k j v d))
  ]

  Values-set_all {κ} :
      (P : V → Type κ) (d : Dict V) (es : List (String × V))
      → Values P d
      → All (λ e. P e.1) es
      → Values P (set_all d es)
  unfolding set_all
  Values-set_all P d [] h a = h
  Values-set_all P d ((k, v) ∷ es) h a =
      Values-set_all P (set k v d) es (Values-set P k v d a.0 h) a.1

  pub Values-of_entries {κ} :
      (P : V → Type κ) (es : List (String × V)) → All (λ e. P e.1) es → Values P (of_entries es)
  unfolding of_entries
  Values-of_entries P es a = Values-set_all P [] es (λ k v e. unfold get in cc) a

  total-set_zero :
      (f : V → ℕ) (k : String) (v : V) (d : Dict V)
      → f v ≡ 0
      → total f d ≡ 0
      → total f (set k v d) ≡ 0
  unfolding total set
  total-set_zero f k v [] p h = omega arith
  total-set_zero f k v ((j, w) ∷ d) p h = ground (arith, total-set_zero f k v d p)

  total-set_all :
      (f : V → ℕ) (d : Dict V) (es : List (String × V))
      → All (λ e. f e.1 ≡ 0) es
      → total f d ≡ 0
      → total f (set_all d es) ≡ 0
  unfolding set_all
  total-set_all f d [] a h = h
  total-set_all f d ((k, v) ∷ es) a h =
      total-set_all f (set k v d) es a.1 (total-set_zero f k v d a.0 h)

  pub total-of_entries :
      (f : V → ℕ) (es : List (String × V)) → All (λ e. f e.1 ≡ 0) es → total f (of_entries es) ≡ 0
  unfolding of_entries
  total-of_entries f es a = total-set_all f [] es a (unfold total in refl)

  has-set : (k j : String) (v : V) (d : Dict V) → has j (set k v d) ≡ (k === j || has j d)
  unfolding has set
  has-set k j v [] = ground arith
  has-set k j v ((i, w) ∷ d) = ground (arith, eq_iff k j, eq_iff i k, eq_iff i j, has-set k j v d)

  pub total-modify_same :
      (f : V → ℕ) (k : String) (g : V → V) (d : Dict V)
      → ((v : V) → f (g v) ≡ f v)
      → total f (modify k g d) ≡ total f d
  unfolding total modify
  total-modify_same f k g [] h = refl
  total-modify_same f k g ((j, v) ∷ d) h = ground (arith, h v, total-modify_same f k g d h)

  has-set_all :
      (j : String) (d : Dict V) (es : List (String × V))
      → has j (set_all d es) ≡ (has j d || has j es)
  unfolding set_all has
  has-set_all j d [] = ground arith
  has-set_all j d ((k, v) ∷ es) = ground (arith, has-set_all j (set k v d) es, has-set k j v d)

  pub has-of_entries : (j : String) (es : List (String × V)) → has j (of_entries es) ≡ has j es
  unfolding of_entries
  has-of_entries j es = has-set_all j [] es ∙ (unfold has in refl)

  -- A key that is not written keeps its value.
  pub get-set_all :
      (j : String) (d : Dict V) (es : List (String × V))
      → has j es ≡ false
      → get j (set_all d es) ≡ get j d
  unfolding set_all has
  get-set_all j d [] h = refl
  get-set_all j d ((k, v) ∷ es) h = ground (arith, get-set_all j (set k v d) es, get-set k j v d)
