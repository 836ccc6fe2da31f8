-- ===== src/RateLimit/Tests.antt =====
-- Runs of the limiter, and its theorems at such inputs.
use lemmy.Prelude.{ℕ, ◌≡◌, refl, true, false, ok, api, arith}
use lemmy.Prelude.Int.{pos}
use lemmy.RateLimit.Limiter.{
  post, RateLimitBucket, RateLimiter, check_bucket, check_rate_limit_full, seconds_since, refill,
  insert_ip,
}
use lemmy.RateLimit.Buckets.{check_rate_limit_full_lem}
use lemmy.RateLimit.Allowance.{second, check_bucket-charged}
use lemmy.RateLimit.Wrap.{Request, wrap}
use lemmy.RateLimit.Requests.{wrap_deferred}
use lemmy.RateLimit.Whole.{whole, whole-Ieee, lt_int, too_many, empty, at_zero, limits, readings}

abbrev succeeds : Request whole ℕ
succeeds l = (l, ok 42)

check_rate_limit_full_lem_example :
    (check_rate_limit_full whole too_many empty post "10.0.0.1" (pos 6) (pos 600) true at_zero 5).1
    ≡ ok tt
unfolding check_bucket refill seconds_since
check_rate_limit_full_lem_example =
    (check_rate_limit_full_lem too_many empty post "10.0.0.1" (pos 6) (pos 600) true at_zero 5).0

abbrev used_bucket : RateLimitBucket whole
used_bucket = record { last_checked = 0; allowance = pos 4 }

check_bucket-charged_example :
    lt_int
      (pos 5)
      (check_bucket whole (api "no") (pos 6) (pos 2) false second used_bucket).0.allowance
    ≡ false
unfolding check_bucket refill seconds_since
check_bucket-charged_example =
    check_bucket-charged whole-Ieee (api "no") (pos 6) (pos 2) second used_bucket refl

abbrev looked : RateLimiter whole
looked =
    (check_rate_limit_full whole too_many empty post "10.0.0.1" (pos 6) (pos 600) true at_zero 5).0

wrap_deferred_example :
    (wrap whole too_many limits post "10.0.0.1" readings succeeds empty).1 ≡ ok 42
unfolding check_rate_limit_full check_bucket refill seconds_since insert_ip
wrap_deferred_example =
    wrap_deferred too_many limits "10.0.0.1" readings succeeds empty whole-Ieee post 6 600 looked 42
      refl refl (omega arith) (omega arith) (omega arith) (omega arith) refl refl refl refl
      (omega arith) (omega arith)
