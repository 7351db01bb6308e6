-- ===== src/Match/Operator.antt =====
-- The lock of the operator: `assertOperator` and `claimOperator`.
use intereng_api.Base.{
  ◌+◌, ◌≤◌, ◌≡◌, ◌↔◌, inl, inr, refl, ap, sym, ◌∙◌, arith, String, true, false, Option, none, some,
  ◌===◌, eq_iff, Option-cases, Bool-cases,
}
use intereng_api.Standings.{truthy}
use intereng_api.Match.{
  ok, Context, LiveMatch, lock_is_free, require_device, assert_operator, claim_operator,
  operator_lock_ms, take_lock, is_text, lock_is_fresh,
}

pub is_text_iff : (o : Option String) (s : String) → (is_text o s ≡ true) ↔ (o ≡ some s)
is_text_iff none s = (λ h. cc, λ h. cc)
is_text_iff (some t) s =
    (λ h. ap (λ x. some x) ((eq_iff t s).0 h), λ h. (eq_iff t s).1 (some_injective h))
  where
    some_injective : {x y : String} → some x ≡ some y → x ≡ y
    some_injective e = cc

-- `assertOperator` passes with a fresh lock of the same user on the same device, and only so.
pub assert_operator_iff :
    (m : LiveMatch) (c : Context) (d : String)
    → truthy c.device ≡ some d
    → (assert_operator m c ≡ ok tt)
      ↔ ((lock_is_fresh m c.now ≡ true) × (m.operator ≡ some c.user) × (m.operator_device ≡ some d))
unfolding assert_operator require_device
assert_operator_iff m c d e = (
  λ h. (
    ground arith,
    (is_text_iff m.operator c.user).0 (ground arith),
    (is_text_iff m.operator_device d).0 (ground arith),
  ),
  λ h.
      let user = (is_text_iff m.operator c.user).1 h.1 in
      let device = (is_text_iff m.operator_device d).1 h.2 in
      rw (e, h.0, user, device, assert_operator) refl,
)

device_of :
    (m : LiveMatch) (c : Context)
    → assert_operator m c ≡ ok tt
    → (d : String) × (truthy c.device ≡ some d)
unfolding assert_operator require_device
device_of m c h = elim (Option-cases (truthy c.device)) [ inl e ↦ ground arith | inr p ↦ p ]

-- Two operators that both pass the test on the same match are the same user on the same device.
pub assert_operator_exclusive :
    (m : LiveMatch) (c d : Context)
    → assert_operator m c ≡ ok tt
    → assert_operator m d ≡ ok tt
    → (c.user ≡ d.user) × (truthy c.device ≡ truthy d.device)
assert_operator_exclusive m c d h k =
    let (x, ex) = device_of m c h in
    let (y, ey) = device_of m d k in
    let (fx, ux, dx) = (assert_operator_iff m c x ex).0 h in
    let (fy, uy, dy) = (assert_operator_iff m d y ey).0 k in (cc, cc)

claimed :
    (m n : LiveMatch) (c : Context) (requested : String)
    → claim_operator c requested false m ≡ ok n
    → (truthy c.device ≡ some requested)
      × (lock_is_free m c.user requested c.now ≡ true)
      × (n ≡ take_lock c requested m)
unfolding claim_operator require_device
claimed m n c requested h = elim (Option-cases (truthy c.device)) [
  | inl e ↦ ground arith
  | inr (d, e) ↦ elim (Bool-cases (requested === d)) [
    | inl q ↦
        let same : requested ≡ d = (eq_iff requested d).0 q in
        rw same (e, ground arith, ground arith)
    | inr q ↦ ground arith
  ]
]

-- A claim without force that succeeds took no fresh lock from another operator, and from then on, for as
-- long as the lock lasts, the test is passed by the claimer on this device and by nobody else.
pub claim_operator_lem :
    (m n : LiveMatch) (c : Context) (requested : String)
    → claim_operator c requested false m ≡ ok n
    → (lock_is_free m c.user requested c.now ≡ true)
      × ((d : Context) (device : String)
          → truthy d.device ≡ some device
          → d.now ≤ c.now + operator_lock_ms
          → (assert_operator n d ≡ ok tt) ↔ ((d.user ≡ c.user) × (device ≡ requested)))
claim_operator_lem m n c requested h =
    let (e, free, taken) = claimed m n c requested h in
    (
      free,
      λ d device ed l. (
        λ k.
            let (f, u, v) = (assert_operator_iff n d device ed).0 k in
            let user : some d.user ≡ some c.user = sym u ∙ ap (λ x. x.operator) taken in
            let dev : some device ≡ some requested = sym v ∙ ap (λ x. x.operator_device) taken in
            (cc, cc),
        λ k. rw taken (
            (assert_operator_iff (take_lock c requested m) d device ed).1
              (ground arith, ap (λ x. some x) (sym k.0), ap (λ x. some x) (sym k.1))),
      ),
    )
