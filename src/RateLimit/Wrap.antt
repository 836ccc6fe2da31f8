-- ===== src/RateLimit/Wrap.antt =====
-- Requests under a limit (`RateLimited::wrap` of lemmy_rate_limit/src/lib.rs).
use lemmy.Prelude.{ℕ, String, true, false, Result, ok, err}
use lemmy.Prelude.Int.{ℤ}
use lemmy.RateLimit.Limiter.{
  Float, RateLimitType, message, register, post, image, RateLimiter, check_rate_limit_full,
}

-- The limits of the settings.
pub record RateLimitConfig : Type 0 where
  pub message : ℤ
  pub message_per_second : ℤ
  pub post : ℤ
  pub post_per_second : ℤ
  pub register : ℤ
  pub register_per_second : ℤ
  pub image : ℤ
  pub image_per_second : ℤ

-- What the clock shows at the check before the request and at the one after it.
pub record Readings : Type 0 where
  pub clock_before : RateLimitType → ℕ
  pub before : ℕ
  pub clock_after : RateLimitType → ℕ
  pub after : ℕ

-- A request runs with the lock released, so it takes the limiter through whatever else happens
-- meanwhile.
abbrev pub Request : Float → Type 0 → Type 0
Request f T = RateLimiter f → RateLimiter f × Result T

module _ (f : Float) {T : Type 0} where
  -- A charge after the request, whose refusal is the result.
  unfoldable pub charge : RateLimiter f × Result (Unit {0}) → Result T → RateLimiter f × Result T
  charge (l, ok _) res = (l, res)
  charge (l, err e) res = (l, err e)

  -- The request, and then a charge if it went well.
  unfoldable pub then_charge :
      (RateLimiter f → RateLimiter f × Result (Unit {0}))
      → RateLimiter f × Result T
      → RateLimiter f × Result T
  unfolding charge
  then_charge check (l, ok a) = charge (check l) (ok a)
  then_charge check (l, err e) = (l, err e)

  -- The request, if the check before it passes.
  unfoldable pub if_allowed :
      RateLimiter f × Result (Unit {0}) → Request f T → RateLimiter f × Result T
  if_allowed (l, ok _) fut = fut l
  if_allowed (l, err e) fut = (l, err e)

module _ (f : Float) (too_many : RateLimitType → String → ℤ → ℤ → String) {T : Type 0} where
  unfoldable pub wrap :
      RateLimitConfig
      → RateLimitType
      → String
      → Readings
      → Request f T
      → RateLimiter f
      → RateLimiter f × Result T
  unfolding then_charge if_allowed
  wrap c message ip at fut l =
      if_allowed f
        (check_rate_limit_full f too_many l message ip c.message c.message_per_second false
          at.clock_before at.before)
        fut
  wrap c post ip at fut l =
      if_allowed f
        (check_rate_limit_full f too_many l post ip c.post c.post_per_second true at.clock_before
          at.before)
        λ l'.
          then_charge f
            (λ k.
              check_rate_limit_full f too_many k post ip c.post c.post_per_second false
                at.clock_after at.after)
            (fut l')
  wrap c register ip at fut l =
      if_allowed f
        (check_rate_limit_full f too_many l register ip c.register c.register_per_second true
          at.clock_before at.before)
        λ l'.
          then_charge f
            (λ k.
              check_rate_limit_full f too_many k register ip c.register c.register_per_second false
                at.clock_after at.after)
            (fut l')
  wrap c image ip at fut l =
      if_allowed f
        (check_rate_limit_full f too_many l image ip c.image c.image_per_second false
          at.clock_before at.before)
        fut
