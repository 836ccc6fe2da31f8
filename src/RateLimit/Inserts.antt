-- ===== src/RateLimit/Inserts.antt =====
-- The buckets that the limiter makes for an address (`insert_ip` of
-- lemmy_rate_limit/src/rate_limiter.rs).
use lemmy.Prelude.{
  ℕ, ◌≡◌, refl, ap, String, Bool, true, false, List, [], ◌∷◌, Option, none, some, Option-cases, inl,
  inr, arith, str_eq, str_eq_iff, any, if◌then◌else◌, sym, ◌∙◌, Bool-cases, ◌&&◌, ◌||◌,
}
use lemmy.Prelude.Dict.{Dict, get, insert, string_eq, get-insert}
use lemmy.RateLimit.Limiter.{
  Float, RateLimitType, message, all_types, same_type, same_type_iff, type_eq, RateLimitBucket,
  RateLimiter, Buckets, unset, open_type, open_ip, insert_ip_type, insert_ip_types, insert_ip,
}

all_types-any : (t : RateLimitType) → any (same_type t) all_types ≡ true
all_types-any message = refl
all_types-any t = refl

module _ {f : Float} where
  abbrev pub in_kind : String → Option (Buckets f) → Option (RateLimitBucket f)
  in_kind ip none = none
  in_kind ip (some bucket) = get ip bucket

  -- The bucket of a kind and an address.
  abbrev pub bucket_in :
      RateLimitType → String → Dict RateLimitType (Buckets f) → Option (RateLimitBucket f)
  bucket_in t ip m = in_kind ip (get t m)

  abbrev pub or_fresh : ℕ → Option (RateLimitBucket f) → RateLimitBucket f
  or_fresh now none = record { last_checked = now; allowance = unset f }
  or_fresh now (some b) = b

  in_kind-if :
      (ip : String) (c : Bool) (b : Buckets f) (o : Option (Buckets f))
      → in_kind ip (if c then some b else o) ≡ (if c then get ip b else in_kind ip o)
  in_kind-if ip true b o = refl
  in_kind-if ip false b o = refl

  pub bucket_in-insert :
      (t t' : RateLimitType) (ip' : String) (b : Buckets f) (m : Dict RateLimitType (Buckets f))
      → bucket_in t' ip' (insert t b m) ≡ (if same_type t' t then get ip' b else bucket_in t' ip' m)
  bucket_in-insert t t' ip' b m =
      ap (in_kind ip') (get-insert t' t b m) ∙ in_kind-if ip' (same_type t' t) b (get t' m)

  get-open_ip :
      (now : ℕ) (ip ip' : String) (b : Buckets f)
      → get ip' (open_ip f now ip b)
        ≡ (if str_eq ip' ip then some (or_fresh now (get ip b)) else get ip' b)
  unfolding open_ip
  get-open_ip now ip ip' b = ground (
    arith,
    str_eq_iff ip' ip,
    get-insert ip' ip (record { last_checked = now; allowance = unset f }) b,
  )

  -- Opening a kind changes no bucket, and the kind is there afterwards.
  bucket_in-open_type :
      (t t' : RateLimitType) (ip' : String) (m : Dict RateLimitType (Buckets f))
      → bucket_in t' ip' (open_type f t m) ≡ bucket_in t' ip' m
  unfolding open_type
  bucket_in-open_type t t' ip' m = elim (Option-cases (get t m)) [
    | inl e ↦ rw (e, open_type) (ground (arith, same_type_iff t' t, bucket_in-insert t t' ip' [] m))
    | inr (b, e) ↦ rw (e, open_type)
  ]

  get-open_type :
      (t : RateLimitType) (m : Dict RateLimitType (Buckets f))
      → (b : Buckets f) × (get t (open_type f t m) ≡ some b)
  unfolding open_type
  get-open_type t m = elim (Option-cases (get t m)) [
    | inl e ↦ ([], rw (e, open_type) (ground (arith, same_type_iff t t, get-insert t t [] m)))
    | inr (b, e) ↦ (b, rw (e, open_type) e)
  ]

  -- One round of `insert_ip`: the bucket of the kind and the address is there, and no other changes.
  bucket_in-insert_ip_type :
      (clock : RateLimitType → ℕ) (ip : String) (t t' : RateLimitType) (ip' : String)
      (m : Dict RateLimitType (Buckets f))
      → bucket_in t' ip' (insert_ip_type f clock ip t m) ≡ (
          if same_type t' t && str_eq ip' ip
          then some (or_fresh (clock t) (bucket_in t ip m))
          else bucket_in t' ip' m)
  unfolding insert_ip_type
  bucket_in-insert_ip_type clock ip t t' ip' m =
      let (b, e) = get-open_type t m in
      let e' : bucket_in t ip m ≡ get ip b =
        sym (bucket_in-open_type t t ip m) ∙ ap (in_kind ip) e in
      rw (e, insert_ip_type)
        (ground (
          arith,
          e',
          bucket_in-insert t t' ip' (open_ip f (clock t) ip b) (open_type f t m),
          get-open_ip (clock t) ip ip' b,
          bucket_in-open_type t t' ip' m,
          same_type_iff t' t,
          ap (in_kind ip') e,
        ))

  -- The same round, told by the kind that is looked at.
  round :
      (clock : RateLimitType → ℕ) (ip : String) (t t' : RateLimitType) (ip' : String)
      (m : Dict RateLimitType (Buckets f))
      → bucket_in t' ip' (insert_ip_type f clock ip t m) ≡ (
          if same_type t' t && str_eq ip' ip
          then some (or_fresh (clock t') (bucket_in t' ip m))
          else bucket_in t' ip' m)
  round clock ip t t' ip' m = elim (Bool-cases (same_type t' t)) [
    | inl e ↦ rw ((same_type_iff t' t).0 e) (bucket_in-insert_ip_type clock ip t t ip' m)
    | inr e ↦ rw (bucket_in-insert_ip_type clock ip t t' ip' m, e)
  ]

  round_self :
      (clock : RateLimitType → ℕ) (ip : String) (t t' : RateLimitType)
      (m : Dict RateLimitType (Buckets f))
      → bucket_in t' ip (insert_ip_type f clock ip t m) ≡ (
          if same_type t' t
          then some (or_fresh (clock t') (bucket_in t' ip m))
          else bucket_in t' ip m)
  round_self clock ip t t' m =
      round clock ip t t' ip m
      ∙ ap (λ b. if b then some (or_fresh (clock t') (bucket_in t' ip m)) else bucket_in t' ip m)
          (both (same_type t' t))
    where
      both : (c : Bool) → (c && str_eq ip ip) ≡ c
      both true = (str_eq_iff ip ip).1 refl
      both false = refl

  -- Two rounds make a bucket fresh as one does.
  merge :
      (a b e : Bool) (now : ℕ) (o o' p p' : Option (RateLimitBucket f))
      → p ≡ (if a then some (or_fresh now o) else o)
      → p' ≡ (if a && e then some (or_fresh now o) else o')
      → (if b && e then some (or_fresh now p) else p')
        ≡ (if (a || b) && e then some (or_fresh now o) else o')
  merge true true true now o o' p p' h h' = rw h
  merge true true false now o o' p p' h h' = h'
  merge true false e now o o' p p' h h' = h'
  merge false true true now o o' p p' h h' = rw h
  merge false true false now o o' p p' h h' = h'
  merge false false e now o o' p p' h h' = h'

  bucket_in-insert_ip_types :
      (clock : RateLimitType → ℕ) (ip : String) (ts : List RateLimitType) (t' : RateLimitType)
      (ip' : String) (m : Dict RateLimitType (Buckets f))
      → bucket_in t' ip' (insert_ip_types f clock ip ts m) ≡ (
          if any (same_type t') ts && str_eq ip' ip
          then some (or_fresh (clock t') (bucket_in t' ip m))
          else bucket_in t' ip' m)
  unfolding insert_ip_types
  bucket_in-insert_ip_types clock ip [] t' ip' m = refl
  bucket_in-insert_ip_types clock ip (t ∷ ts) t' ip' m =
      bucket_in-insert_ip_types clock ip ts t' ip' (insert_ip_type f clock ip t m)
      ∙ merge (same_type t' t) (any (same_type t') ts) (str_eq ip' ip) (clock t')
          (bucket_in t' ip m) (bucket_in t' ip' m) _ _ (round_self clock ip t t' m)
          (round clock ip t t' ip' m)

  pub bucket_in-insert_ip :
      (clock : RateLimitType → ℕ) (ip : String) (t' : RateLimitType) (ip' : String)
      (l : RateLimiter f)
      → bucket_in t' ip' (insert_ip f clock ip l).buckets ≡ (
          if str_eq ip' ip
          then some (or_fresh (clock t') (bucket_in t' ip l.buckets))
          else bucket_in t' ip' l.buckets)
  unfolding insert_ip
  bucket_in-insert_ip clock ip t' ip' l =
      bucket_in-insert_ip_types clock ip all_types t' ip' l.buckets
      ∙ ap
          (λ b.
            if b && str_eq ip' ip
            then some (or_fresh (clock t') (bucket_in t' ip l.buckets))
            else bucket_in t' ip' l.buckets)
          (all_types-any t')
