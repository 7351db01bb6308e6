-- ===== src/Outcome.antt =====
-- What a transaction may throw: the exceptions of the code and the known errors of Prisma.
use intereng_api.Base.{arith, ◌≡◌, ◌⊎◌, inl, inr, refl, Bool, true, false, Option, none, some}
use intereng_api.Http.{HttpError, Reply, ok, fail}

pub data Thrown : Type 0 where
  refused : HttpError → Thrown
  -- P2034, P2002, P2003 and any other error.
  write_conflict unique_violation foreign_key_violation other_error : Thrown

pub data Outcome (A : Type 0) : Type 0 where
  done : A → Outcome A
  thrown : Thrown → Outcome A

-- What is thrown skips the rest.
infixl 5 ◌>>=◌ ◌>>◌
abbrev pub ◌>>=◌ : {A B : Type 0} → Outcome A → (A → Outcome B) → Outcome B
thrown e >>= rest = thrown e
done a >>= rest = rest a

abbrev pub ◌>>◌ : {A : Type 0} → Outcome (Unit {0}) → Outcome A → Outcome A
first >> rest = first >>= (λ u. rest)

abbrev pub lift : {A : Type 0} → Reply A → Outcome A
lift (ok a) = done a
lift (fail e) = thrown (refused e)

-- if (condition) throw e
abbrev pub refuse_if : Bool → HttpError → Outcome (Unit {0})
refuse_if true e = thrown (refused e)
refuse_if false e = done tt

-- A row, or the exception where there is none.
abbrev pub or_refuse : {A : Type 0} → Option A → HttpError → Outcome A
or_refuse none e = thrown (refused e)
or_refuse (some a) e = done a

-- The value of a step that is done.
abbrev pub Makes : {A : Type 0} → Outcome A → A → Type 0
Makes m a = m ≡ done a

-- A chain of steps that is done is done at its first step.
pub >>=-Makes :
    {A B : Type 0} (m : Outcome A) (rest : A → Outcome B) {b : B}
    → Makes (m >>= rest) b
    → (a : A) × Makes m a × Makes (rest a) b
>>=-Makes (thrown e) rest h = cc
>>=-Makes (done a) rest h = (a, refl, h)

pub lift-eq-done : {A : Type 0} (m : Reply A) {a : A} → lift m ≡ done a → m ≡ ok a
lift-eq-done (ok x) h = ground arith
lift-eq-done (fail e) h = cc

pub refuse_if-eq-done : (b : Bool) (e : HttpError) → refuse_if b e ≡ done tt → b ≡ false
refuse_if-eq-done true e h = cc
refuse_if-eq-done false e h = refl

pub or_refuse-eq-done :
    {A : Type 0} (o : Option A) (e : HttpError) {a : A} → or_refuse o e ≡ done a → o ≡ some a
or_refuse-eq-done none e h = cc
or_refuse-eq-done (some x) e h = ground arith

pub Outcome-cases :
    {A : Type 0} (m : Outcome A) → ((a : A) × (m ≡ done a)) ⊎ ((e : Thrown) × (m ≡ thrown e))
Outcome-cases (done a) = inl (a, refl)
Outcome-cases (thrown e) = inr (e, refl)

pub done_inj : {A : Type 0} {a b : A} → done a ≡ done b → a ≡ b
done_inj h = ground arith

-- A row, or the error of the database where there is none.
abbrev pub or_throw : {A : Type 0} → Option A → Thrown → Outcome A
or_throw none e = thrown e
or_throw (some a) e = done a

pub or_throw-eq-done :
    {A : Type 0} (o : Option A) (e : Thrown) {a : A} → or_throw o e ≡ done a → o ≡ some a
or_throw-eq-done none e h = cc
or_throw-eq-done (some x) e h = ground arith
