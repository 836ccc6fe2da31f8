-- ===== src/RateLimit/Buckets.antt =====
-- The limiter as independent buckets: what a check does to each of them.
use lemmy.Prelude.{
  ℕ, ◌≡◌, refl, String, Bool, true, false, Option, none, some, inl, inr, api, arith, str_eq,
  str_eq_iff, if◌then◌else◌, Bool-cases,
}
use lemmy.Prelude.Int.{ℤ}
use lemmy.Prelude.Dict.{Dict, get, insert, string_eq, get-insert}
use lemmy.RateLimit.Limiter.{
  Float, RateLimitType, same_type, same_type_iff, type_eq, RateLimitBucket, RateLimiter, Buckets,
  insert_ip, check_bucket, check_rate_limit_full,
}
use lemmy.RateLimit.Inserts.{in_kind, bucket_in, or_fresh, bucket_in-insert, bucket_in-insert_ip}

-- A test that was made is not made again.
test_twice {ℓ} :
    {A : Type ℓ} (e c : Bool) (x y z : A)
    → (if e then (if c then x else if e then y else z) else if e then y else z)
      ≡ (if e then (if c then x else y) else z)
test_twice true c x y z = refl
test_twice false c x y z = refl

module _ {f : Float} where
  in_kind-eq-some :
      (ip : String) (o : Option (Buckets f)) (b : RateLimitBucket f)
      → in_kind ip o ≡ some b
      → (bucket : Buckets f) × (o ≡ some bucket) × (get ip bucket ≡ some b)
  in_kind-eq-some ip none b h = cc
  in_kind-eq-some ip (some bucket) b h = (bucket, refl, h)

  -- A bucket is replaced and no other changes.
  bucket_in-replace :
      (t : RateLimitType) (ip : String) (b : RateLimitBucket f) (bucket : Buckets f)
      (m : Dict RateLimitType (Buckets f)) (t' : RateLimitType) (ip' : String)
      → get t m ≡ some bucket
      → bucket_in t' ip' (insert t (insert ip b bucket) m) ≡ (
          if str_eq ip' ip
          then (if same_type t' t then some b else bucket_in t' ip' m)
          else bucket_in t' ip' m)
  bucket_in-replace t ip b bucket m t' ip' h = elim (Bool-cases (same_type t' t)) [
    | inl e ↦
        rw
          (
            bucket_in-insert t t' ip' (insert ip b bucket) m,
            e,
            get-insert ip' ip b bucket,
            (same_type_iff t' t).0 e,
            h,
          )
          refl
    | inr e ↦ rw (bucket_in-insert t t' ip' (insert ip b bucket) m, e) (ground arith)
  ]

  module _ (too_many : RateLimitType → String → ℤ → ℤ → String) (l : RateLimiter f)
      (type_ : RateLimitType) (ip : String) (rate per : ℤ) (check_only : Bool)
      (clock : RateLimitType → ℕ) (current : ℕ) where
    -- A check is one on the bucket of its kind and address alone, a fresh one if there was none. That
    -- bucket is replaced, the address has a bucket of every other kind, fresh if it had none, and no
    -- other bucket changes.
    pub check_rate_limit_full_lem :
        let b = or_fresh (clock type_) (bucket_in type_ ip l.buckets) in
        let (b', verdict) =
          check_bucket f (api (too_many type_ ip rate per)) rate per check_only current b in
        let (l', r) =
          check_rate_limit_full f too_many l type_ ip rate per check_only clock current in
        (r ≡ verdict)
        × ((t' : RateLimitType) (ip' : String)
            → bucket_in t' ip' l'.buckets ≡ (
                if str_eq ip' ip
                then (if same_type t' type_
                    then some b'
                    else some (or_fresh (clock t') (bucket_in t' ip l.buckets)))
                else bucket_in t' ip' l.buckets))
    unfolding check_rate_limit_full
    check_rate_limit_full_lem =
        let m = (insert_ip f clock ip l).buckets in
        let there : bucket_in type_ ip m
            ≡ some (or_fresh (clock type_) (bucket_in type_ ip l.buckets)) =
          rw (bucket_in-insert_ip clock ip type_ ip l, (str_eq_iff ip ip).1 refl) in
        let (bucket, e, e') = in_kind-eq-some ip (get type_ m) _ there in
        rw (e, check_rate_limit_full)
          (rw (e', check_rate_limit_full)
            (
              refl,
              λ t' ip'.
                  rw
                    (
                      bucket_in-replace type_ ip _ bucket m t' ip' e,
                      bucket_in-insert_ip clock ip t' ip' l,
                    )
                    (test_twice (str_eq ip' ip) (same_type t' type_) _ _ _),
            ))
