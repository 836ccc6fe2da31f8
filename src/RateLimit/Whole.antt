-- ===== src/RateLimit/Whole.antt =====
-- The limiter over whole numbers, which have the properties of `f64` that the theorems ask for,
-- and settings, for tests.
use lemmy.Prelude.{
  ℕ, suc, ◌+◌, ◌-◌, ◌*◌, ◌/◌, ◌≡◌, refl, String, Bool, true, false, [], arith, ltb, leb,
  if◌then◌else◌,
}
use lemmy.Prelude.Int.{ℤ, pos, negsuc, ◌==ℤ◌}
use lemmy.RateLimit.Limiter.{Float, RateLimitType, RateLimiter}
use lemmy.RateLimit.Allowance.{Ieee}
use lemmy.RateLimit.Wrap.{RateLimitConfig, Readings}

abbrev pub sub_ℕ : ℕ → ℕ → ℤ
sub_ℕ a b = if leb b a then pos (a - b) else negsuc (b - a - 1)

abbrev pub add_int : ℤ → ℤ → ℤ
add_int (pos a) (pos b) = pos (a + b)
add_int (pos a) (negsuc b) = sub_ℕ a (suc b)
add_int (negsuc a) (pos b) = sub_ℕ b (suc a)
add_int (negsuc a) (negsuc b) = negsuc (suc (a + b))

abbrev pub negate : ℤ → ℤ
negate (pos a) = sub_ℕ 0 a
negate (negsuc a) = pos (suc a)

abbrev pub mul_int : ℤ → ℤ → ℤ
mul_int (pos a) (pos b) = pos (a * b)
mul_int (pos a) (negsuc b) = sub_ℕ 0 (a * suc b)
mul_int (negsuc a) (pos b) = sub_ℕ 0 (suc a * b)
mul_int (negsuc a) (negsuc b) = pos (suc a * suc b)

abbrev pub div_int : ℤ → ℤ → ℤ
div_int (pos a) (pos b) = pos (a / b)
div_int a b = a

abbrev pub lt_int : ℤ → ℤ → Bool
lt_int (pos a) (pos b) = ltb a b
lt_int (pos a) (negsuc b) = false
lt_int (negsuc a) (pos b) = true
lt_int (negsuc a) (negsuc b) = ltb b a

abbrev pub whole : Float
whole = record {
  F64 = ℤ;
  from_int = λ x. x;
  add = add_int;
  sub = λ a b. add_int a (negate b);
  mul = mul_int;
  div = div_int;
  lt = lt_int;
  eq = ◌==ℤ◌;
}

not_below_one : (x : ℤ) → lt_int x (pos 1) ≡ false → (x ==ℤ negsuc 1) ≡ false
not_below_one (pos a) e = refl
not_below_one (negsuc a) e = cc

add_zero : (x : ℤ) → lt_int x (pos 1) ≡ false → add_int x (pos 0) ≡ x
add_zero (pos a) e = ground arith
add_zero (negsuc a) e = cc

lt_int_irrefl : (x : ℤ) → lt_int x x ≡ false
lt_int_irrefl (pos a) = ground arith
lt_int_irrefl (negsuc a) = ground arith

mul_zero : (r p : ℕ) → mul_int (pos 0) (div_int (pos r) (pos p)) ≡ pos 0
mul_zero r p = ground arith

sub_int_mono :
    (x y z : ℤ) → lt_int x y ≡ false → lt_int (add_int x (negate z)) (add_int y (negate z)) ≡ false
sub_int_mono x y z h = ground arith

pub whole-Ieee : Ieee whole
whole-Ieee = record {
  unset_ne = not_below_one;
  lt_int = λ a b p q. refl;
  idle = λ x r p e a b c. ground (arith, mul_zero r p, add_zero x e);
  lt_irrefl = lt_int_irrefl;
  sub_mono = sub_int_mono;
}

abbrev pub too_many : RateLimitType → String → ℤ → ℤ → String
too_many t ip rate per = "Too many requests"

abbrev pub empty : RateLimiter whole
empty = record { buckets = [] }

abbrev pub at_zero : RateLimitType → ℕ
at_zero t = 0

abbrev pub limits : RateLimitConfig
limits = record {
  message = pos 180;
  message_per_second = pos 60;
  post = pos 6;
  post_per_second = pos 600;
  register = pos 3;
  register_per_second = pos 3600;
  image = pos 6;
  image_per_second = pos 3600;
}

abbrev pub readings : Readings
readings = record { clock_before = at_zero; before = 5; clock_after = at_zero; after = 7 }
