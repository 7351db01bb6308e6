-- ===== src/Http.antt =====
-- The exceptions of @nestjs/common that the code throws, and the reply of code that may throw one. The
-- texts of the messages are left out.
use intereng_api.Base.{◌≡◌, refl, ◌⊎◌, inl, inr, Bool, true, false}

pub data HttpError : Type 0 where
  bad_request conflict forbidden not_found internal : HttpError

pub data Reply (A : Type 0) : Type 0 where
  ok : A → Reply A
  fail : HttpError → Reply A

-- An exception skips the rest.
infixl 5 ◌>>=◌ ◌>>◌
abbrev pub ◌>>=◌ : {A B : Type 0} → Reply A → (A → Reply B) → Reply B
fail e >>= rest = fail e
ok a >>= rest = rest a

abbrev pub ◌>>◌ : {A : Type 0} → Reply (Unit {0}) → Reply A → Reply A
first >> rest = first >>= (λ u. rest)

-- if (condition) throw e
abbrev pub throw_if : Bool → HttpError → Reply (Unit {0})
throw_if true e = fail e
throw_if false e = ok tt

pub Reply-cases :
    {A : Type 0} (x : Reply A) → ((a : A) × (x ≡ ok a)) ⊎ ((e : HttpError) × (x ≡ fail e))
Reply-cases (ok a) = inl (a, refl)
Reply-cases (fail e) = inr (e, refl)

-- What a step that does not throw returns.
abbrev pub Returns : {A : Type 0} → Reply A → A → Type 0
Returns m a = m ≡ ok a

-- A chain of steps that succeeds succeeds at its first step.
pub >>=-Returns :
    {A B : Type 0} (m : Reply A) (rest : A → Reply B) {b : B}
    → Returns (m >>= rest) b
    → (a : A) × Returns m a × Returns (rest a) b
>>=-Returns (fail e) rest h = cc
>>=-Returns (ok a) rest h = (a, refl, h)

pub throw_if-Returns :
    (b : Bool) (e : HttpError) {u : Unit {0}} → Returns (throw_if b e) u → b ≡ false
throw_if-Returns true e h = cc
throw_if-Returns false e h = refl
