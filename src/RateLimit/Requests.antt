-- ===== src/RateLimit/Requests.antt =====
-- What `wrap` promises a request.
use lemmy.Prelude.{
  ℕ, ◌+◌, ◌≤◌, ◌<◌, ◌≡◌, refl, String, Bool, true, false, some, Result, ok, err, LemmyError, api,
  arith, if◌then◌else◌, sym, ap, ap₂, ◌∙◌, str_eq_iff,
}
use lemmy.Prelude.Int.{ℤ, pos}
use lemmy.RateLimit.Limiter.{
  Float, RateLimitType, message, register, post, image, RateLimiter, check_bucket,
  check_rate_limit_full, same_type_iff,
}
use lemmy.RateLimit.Inserts.{bucket_in, or_fresh}
use lemmy.RateLimit.Buckets.{check_rate_limit_full_lem}
use lemmy.RateLimit.Allowance.{Ieee, i32_limit, second, check_bucket-covers}
use lemmy.RateLimit.Wrap.{RateLimitConfig, Readings, Request, charge, then_charge, if_allowed, wrap}

-- The limit of each kind in the settings.
abbrev pub rate_of : RateLimitConfig → RateLimitType → ℤ
rate_of c message = c.message
rate_of c register = c.register
rate_of c post = c.post
rate_of c image = c.image

abbrev pub per_of : RateLimitConfig → RateLimitType → ℤ
per_of c message = c.message_per_second
per_of c register = c.register_per_second
per_of c post = c.post_per_second
per_of c image = c.image_per_second

-- Posts and registrations are charged after they went well, the others before they start.
abbrev pub is_deferred : RateLimitType → Bool
is_deferred post = true
is_deferred register = true
is_deferred t = false

module _ {f : Float} {T : Type 0} where
  if_allowed-err :
      (m : RateLimiter f × Result (Unit {0})) (fut : Request f T) (e : LemmyError)
      → m.1 ≡ err e
      → if_allowed f m fut ≡ (m.0, err e)
  unfolding if_allowed
  if_allowed-err (l, ok u) fut e h = cc
  if_allowed-err (l, err e') fut e h = ground arith

  if_allowed-ok :
      (m : RateLimiter f × Result (Unit {0})) (fut : Request f T)
      → m.1 ≡ ok tt
      → if_allowed f m fut ≡ fut m.0
  unfolding if_allowed
  if_allowed-ok (l, ok u) fut h = refl
  if_allowed-ok (l, err e) fut h = cc

  charge-ok :
      (m : RateLimiter f × Result (Unit {0})) (a : T) → m.1 ≡ ok tt → (charge f m (ok a)).1 ≡ ok a
  unfolding charge
  charge-ok (l, ok u) a h = refl
  charge-ok (l, err e) a h = cc

-- A bucket that passed a check that only looks, and that nobody touched since, passes a charge.
check_full-covers :
    {f : Float} (h : Ieee f) (too_many : RateLimitType → String → ℤ → ℤ → String)
    (t : RateLimitType) (ip : String) (rate per : ℕ) (l l' : RateLimiter f)
    (k k' : RateLimitType → ℕ) (now later : ℕ)
    → 1 ≤ rate
    → rate < i32_limit
    → 1 ≤ per
    → per < i32_limit
    → (check_rate_limit_full f too_many l t ip (pos rate) (pos per) true k now).1 ≡ ok tt
    → bucket_in t ip l'.buckets
      ≡ bucket_in t ip
          (check_rate_limit_full f too_many l t ip (pos rate) (pos per) true k now).0.buckets
    → now ≤ later
    → later < now + second
    → (check_rate_limit_full f too_many l' t ip (pos rate) (pos per) false k' later).1 ≡ ok tt
check_full-covers {f} h too_many t ip rate per l l' k k' now later one small op sp passed kept p q =
    let refusal = api (too_many t ip (pos rate) (pos per)) in
    let looked = check_rate_limit_full_lem too_many l t ip (pos rate) (pos per) true k now in
    let charged = check_rate_limit_full_lem too_many l' t ip (pos rate) (pos per) false k' later in
    let b = or_fresh (k t) (bucket_in t ip l.buckets) in
    let b' = (check_bucket f refusal (pos rate) (pos per) true now b).0 in
    let there : bucket_in t ip l'.buckets ≡ some b' =
      kept
      ∙ looked.1 t ip
      ∙ ap₂
          (λ x y.
            if x
            then (if y then some b' else some (or_fresh (k t) (bucket_in t ip l.buckets)))
            else bucket_in t ip l.buckets)
          ((str_eq_iff ip ip).1 refl) ((same_type_iff t t).1 refl) in
    charged.0
    ∙ rw there (
        check_bucket-covers h refusal rate per small op sp b now later one (sym looked.0 ∙ passed) p
          q)

module _ {f : Float} (too_many : RateLimitType → String → ℤ → ℤ → String) {T : Type 0}
    (c : RateLimitConfig) (ip : String) (at : Readings) (fut : Request f T)
    (l : RateLimiter f) where
  abbrev pub first_check : RateLimitType → RateLimiter f × Result (Unit {0})
  first_check t =
      check_rate_limit_full f too_many l t ip (rate_of c t) (per_of c t) (is_deferred t)
        at.clock_before at.before

  abbrev pub charge_check : RateLimitType → RateLimiter f → RateLimiter f × Result (Unit {0})
  charge_check t l' =
      check_rate_limit_full f too_many l' t ip (rate_of c t) (per_of c t) false at.clock_after
        at.after

  -- A request does not run if the check before it refuses. If that passes, a request that fails is
  -- not charged any more, and one that succeeds is charged now if its kind is a deferred one.
  pub wrap_lem :
      (t : RateLimitType)
      → ((e : LemmyError)
          → (first_check t).1 ≡ err e
          → wrap f too_many c t ip at fut l ≡ ((first_check t).0, err e))
        × ((l' : RateLimiter f) (e : LemmyError)
            → (first_check t).1 ≡ ok tt
            → fut (first_check t).0 ≡ (l', err e)
            → wrap f too_many c t ip at fut l ≡ (l', err e))
        × ((l' : RateLimiter f) (a : T)
            → (first_check t).1 ≡ ok tt
            → fut (first_check t).0 ≡ (l', ok a)
            → wrap f too_many c t ip at fut l
              ≡ (if is_deferred t then charge f (charge_check t l') (ok a) else (l', ok a)))
  unfolding wrap then_charge
  wrap_lem message = (
    λ e h. if_allowed-err (first_check message) fut e h,
    λ l' e h g. if_allowed-ok (first_check message) fut h ∙ g,
    λ l' a h g. if_allowed-ok (first_check message) fut h ∙ g,
  )
  wrap_lem image = (
    λ e h. if_allowed-err (first_check image) fut e h,
    λ l' e h g. if_allowed-ok (first_check image) fut h ∙ g,
    λ l' a h g. if_allowed-ok (first_check image) fut h ∙ g,
  )
  wrap_lem post = (
    λ e h. if_allowed-err (first_check post) _ e h,
    λ l' e h g. if_allowed-ok (first_check post) _ h ∙ ap (then_charge f (charge_check post)) g,
    λ l' a h g. if_allowed-ok (first_check post) _ h ∙ ap (then_charge f (charge_check post)) g,
  )
  wrap_lem register = (
    λ e h. if_allowed-err (first_check register) _ e h,
    λ l' e h g.
        if_allowed-ok (first_check register) _ h ∙ ap (then_charge f (charge_check register)) g,
    λ l' a h g.
        if_allowed-ok (first_check register) _ h ∙ ap (then_charge f (charge_check register)) g,
  )

  -- A deferred request that passed the check before it, succeeded within the second and left its own
  -- bucket alone is not refused by the charge after it. The limits are positive and fit an `i32`.
  pub wrap_deferred :
      (h : Ieee f) (t : RateLimitType) (rate per : ℕ) (l' : RateLimiter f) (a : T)
      → rate_of c t ≡ pos rate
      → per_of c t ≡ pos per
      → 1 ≤ rate
      → rate < i32_limit
      → 1 ≤ per
      → per < i32_limit
      → is_deferred t ≡ true
      → (first_check t).1 ≡ ok tt
      → fut (first_check t).0 ≡ (l', ok a)
      → bucket_in t ip l'.buckets ≡ bucket_in t ip (first_check t).0.buckets
      → at.before ≤ at.after
      → at.after < at.before + second
      → (wrap f too_many c t ip at fut l).1 ≡ ok a
  wrap_deferred h t rate per l' a re pe one small op sp d passed ran kept p q =
      ap (λ (r : RateLimiter f × Result T). r.1) ((wrap_lem t).2 l' a passed ran)
      ∙ rw (d, re, pe)
          (charge-ok _ a (
            check_full-covers h too_many t ip rate per l l' at.clock_before at.clock_after at.before
              at.after one small op sp (rw (d, re, pe) at passed) (rw (d, re, pe) at kept) p q))
