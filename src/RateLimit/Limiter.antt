-- ===== src/RateLimit/Limiter.antt =====
-- The token buckets (lemmy_rate_limit/src/rate_limiter.rs).
use lemmy.Prelude.{
  ℕ, ◌-◌, ◌≡◌, ◌↔◌, String, Bool, true, false, ◌&&◌, not, List, [], ◌∷◌, none, some, Result, ok,
  err, LemmyError, api, internal, arith, ltb, is_some, if◌then◌else◌, ◌/◌,
}
use lemmy.Prelude.Int.{ℤ, pos, negsuc}
use lemmy.Prelude.Dict.{Eq, Dict, get, insert, string_eq}

-- `f64` and the operations on it that the limiter uses.
pub record Float : Type 1 where
  pub F64 : Type 0
  pub from_int : ℤ → F64
  pub add : F64 → F64 → F64
  pub sub : F64 → F64 → F64
  pub mul : F64 → F64 → F64
  pub div : F64 → F64 → F64
  pub lt : F64 → F64 → Bool
  pub eq : F64 → F64 → Bool

pub data RateLimitType : Type 0 where
  message register post image : RateLimitType

-- `RateLimitType::iter()`
abbrev pub all_types : List RateLimitType
all_types = message ∷ register ∷ post ∷ image ∷ []

abbrev pub same_type : RateLimitType → RateLimitType → Bool
same_type message message = true
same_type register register = true
same_type post post = true
same_type image image = true
same_type _ _ = false

pub same_type_iff : (a b : RateLimitType) → (same_type a b ≡ true) ↔ (a ≡ b)
same_type_iff a b = ground arith

instance abbrev pub type_eq : Eq RateLimitType
type_eq = record { beq = same_type; beq_iff = same_type_iff }

module _ (f : Float) where
  open f use {F64, from_int, add, sub, mul, div, lt, eq}

  -- Times are in nanoseconds.
  pub record RateLimitBucket : Type 0 where
    pub last_checked : ℕ
    pub allowance : F64

  abbrev pub Buckets : Type 0
  Buckets = Dict String RateLimitBucket

  pub record RateLimiter : Type 0 where
    pub buckets : Dict RateLimitType Buckets

  -- `-2f64` marks a bucket that was never checked.
  abbrev pub unset : F64
  unset = from_int (negsuc 1)

  -- `buckets.get(t).is_none()`, then `buckets.insert(t, HashMap::new())`.
  unfoldable pub open_type : RateLimitType → Dict RateLimitType Buckets → Dict RateLimitType Buckets
  open_type t m = if is_some (get t m) then m else insert t [] m

  -- `bucket.get(ip).is_none()`, then the bucket that was never checked.
  unfoldable pub open_ip : ℕ → String → Buckets → Buckets
  open_ip now ip m =
      if is_some (get ip m)
      then m
      else insert ip (record { last_checked = now; allowance = unset }) m

  -- One round of the loop; `clock t` is the time that it reads.
  unfoldable pub insert_ip_type :
      (RateLimitType → ℕ)
      → String
      → RateLimitType
      → Dict RateLimitType Buckets
      → Dict RateLimitType Buckets
  unfolding open_type open_ip
  insert_ip_type clock ip t m =
      let opened = open_type t m in
      elim (get t opened) [
        | none ↦ opened
        | some bucket ↦ insert t (open_ip (clock t) ip bucket) opened
      ]

  unfoldable pub insert_ip_types :
      (RateLimitType → ℕ)
      → String
      → List RateLimitType
      → Dict RateLimitType Buckets
      → Dict RateLimitType Buckets
  unfolding insert_ip_type
  insert_ip_types clock ip [] m = m
  insert_ip_types clock ip (t ∷ ts) m = insert_ip_types clock ip ts (insert_ip_type clock ip t m)

  unfoldable pub insert_ip : (RateLimitType → ℕ) → String → RateLimiter → RateLimiter
  unfolding insert_ip_types
  insert_ip clock ip l = record l { buckets = insert_ip_types clock ip all_types l.buckets }

  -- `duration_since(…)?.as_secs()`: an error if the clock went back, whole seconds otherwise.
  unfoldable pub seconds_since : ℕ → ℕ → Result ℕ
  seconds_since last current =
      if ltb current last then err internal else ok ((current - last) / 1_000_000_000)

  -- The allowance before the verdict.
  unfoldable pub refill : ℤ → ℤ → Bool → ℕ → F64 → F64
  refill rate per check_only seconds allowance =
      let start = if eq allowance unset then from_int rate else allowance in
      let grown = add start (mul (from_int (pos seconds)) (div (from_int rate) (from_int per))) in
      if not check_only && lt (from_int rate) grown then from_int rate else grown

  -- The verdict on a bucket, and the bucket after it.
  unfoldable pub check_bucket :
      LemmyError → ℤ → ℤ → Bool → ℕ → RateLimitBucket → RateLimitBucket × Result (Unit {0})
  check_bucket refusal rate per check_only current b = elim (seconds_since b.last_checked current) [
    | err e ↦ (b, err e)
    | ok seconds ↦
        let allowance = refill rate per check_only seconds b.allowance in
        if lt allowance (from_int (pos 1))
        then (record { last_checked = current; allowance = allowance }, err refusal)
        else if check_only
        then (record { last_checked = current; allowance = allowance }, ok tt)
        else (
          record { last_checked = current; allowance = sub allowance (from_int (pos 1)) },
          ok tt,
        )
  ]

  -- `too_many` formats the message of a refusal. `clock` is read for new buckets, `current` is read
  -- for the check.
  module _ (too_many : RateLimitType → String → ℤ → ℤ → String) where
    unfoldable pub check_rate_limit_full :
        RateLimiter
        → RateLimitType
        → String
        → ℤ
        → ℤ
        → Bool
        → (RateLimitType → ℕ)
        → ℕ
        → RateLimiter × Result (Unit {0})
    check_rate_limit_full limiter type_ ip rate per check_only clock current =
        let l = insert_ip clock ip limiter in
        elim (get type_ l.buckets) [
          | none ↦ (l, ok tt)
          | some bucket ↦ elim (get ip bucket) [
            | none ↦ (l, ok tt)
            | some b ↦
                let (b', r) =
                  check_bucket (api (too_many type_ ip rate per)) rate per check_only current b in
                (record l { buckets = insert type_ (insert ip b' bucket) l.buckets }, r)
          ]
        ]
