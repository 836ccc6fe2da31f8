-- ===== src/RateLimit/Allowance.antt =====
-- What the allowance of a bucket does over checks, from documented properties of `f64`.
use lemmy.Prelude.{ℕ, ◌+◌, ◌-◌, ◌/◌, ◌≤◌, ◌<◌, ◌≡◌, true, false, ok, LemmyError, arith, ltb}
use lemmy.Prelude.Int.{ℤ, pos}
use lemmy.RateLimit.Limiter.{Float, RateLimitBucket, unset, seconds_since, refill, check_bucket}

abbrev pub i32_limit : ℕ
i32_limit = 2_147_483_648

abbrev pub second : ℕ
second = 1_000_000_000

-- IEEE 754 arithmetic on the values that the limiter meets. An `i32` is exact as `f64`; a product
-- by zero of a finite number is zero, and adding zero to a number that is not below one gives that
-- number; rounding is monotone; a comparison with NaN is false.
pub record Ieee (f : Float) : Type 0 where
  pub unset_ne : (x : f.F64) → f.lt x (f.from_int (pos 1)) ≡ false → f.eq x (unset f) ≡ false
  pub lt_int :
      (a b : ℕ)
      → a < i32_limit
      → b < i32_limit
      → f.lt (f.from_int (pos a)) (f.from_int (pos b)) ≡ ltb a b
  pub idle :
      (x : f.F64) (r p : ℕ)
      → f.lt x (f.from_int (pos 1)) ≡ false
      → r < i32_limit
      → 1 ≤ p
      → p < i32_limit
      → f.add x (f.mul (f.from_int (pos 0)) (f.div (f.from_int (pos r)) (f.from_int (pos p)))) ≡ x
  pub lt_irrefl : (x : f.F64) → f.lt x x ≡ false
  pub sub_mono : (x y z : f.F64) → f.lt x y ≡ false → f.lt (f.sub x z) (f.sub y z) ≡ false

module _ {f : Float} (h : Ieee f) where
  -- Unless a check only looks, it caps the allowance at the rate.
  refill-capped :
      (rate per : ℤ) (seconds : ℕ) (x : f.F64)
      → f.lt (f.from_int rate) (refill f rate per false seconds x) ≡ false
  unfolding refill
  refill-capped rate per seconds x = ground (arith, h.lt_irrefl (f.from_int rate))

  -- After a charge that passed, the allowance is not above the rate less one, whatever it was and
  -- however long ago the bucket was checked.
  pub check_bucket-charged :
      (refusal : LemmyError) (rate per : ℤ) (now : ℕ) (b : RateLimitBucket f)
      → (check_bucket f refusal rate per false now b).1 ≡ ok tt
      → f.lt
          (f.sub (f.from_int rate) (f.from_int (pos 1)))
          (check_bucket f refusal rate per false now b).0.allowance
        ≡ false
  unfolding check_bucket seconds_since
  check_bucket-charged refusal rate per now b e =
      let x = refill f rate per false ((now - b.last_checked) / second) b.allowance in
      ground (
        arith,
        h.sub_mono (f.from_int rate) x (f.from_int (pos 1)),
        refill-capped rate per ((now - b.last_checked) / second) b.allowance,
      )

  module _ (refusal : LemmyError) (rate per : ℕ) (small : rate < i32_limit) (some_per : 1 ≤ per)
      (small_per : per < i32_limit) where
    refill-idle :
        (x : f.F64)
        → f.lt x (f.from_int (pos 1)) ≡ false
        → 1 ≤ rate
        → f.lt (refill f (pos rate) (pos per) false 0 x) (f.from_int (pos 1)) ≡ false
    unfolding refill
    refill-idle x e one =
        ground (
          arith,
          h.unset_ne x e,
          h.idle x rate per e small some_per small_per,
          h.lt_int rate 1 small,
        )

    -- What a check that only looks has passed, a charge within the second does not refuse.
    pub check_bucket-covers :
        (b : RateLimitBucket f) (now later : ℕ)
        → 1 ≤ rate
        → (check_bucket f refusal (pos rate) (pos per) true now b).1 ≡ ok tt
        → now ≤ later
        → later < now + second
        → (check_bucket f refusal
            (pos rate)
            (pos per)
            false
            later
            (check_bucket f refusal (pos rate) (pos per) true now b).0).1
          ≡ ok tt
    unfolding check_bucket seconds_since
    check_bucket-covers b now later one e p q =
        let x = refill f (pos rate) (pos per) true ((now - b.last_checked) / second) b.allowance in
        let z : (later - now) / second ≡ 0 = omega arith in ground (arith, z, refill-idle x)
