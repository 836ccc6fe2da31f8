-- ===== src/Chat/Isolation.antt =====
-- Whose allowance a client's message takes from (`parse_json_message` of
-- lemmy_websocket/src/chat_server.rs).
use lemmy.Prelude.{
  ℕ, ◌≡◌, refl, String, Bool, true, false, Option, none, some, Result, ok, err, arith, ◌⊎◌, inl,
  inr, ◌∙◌, sym, ap, ◌&&◌, str_eq, str_eq_iff, Bool-cases, Option-cases,
}
use lemmy.Prelude.Int.{ℤ}
use lemmy.Prelude.Maps.{get}
use lemmy.Structs.{UserOperation, register, create_post, create_community}
use lemmy.RateLimit.Limiter.{
  Float, RateLimitType, message, post, image, same_type, RateLimiter, unset, check_rate_limit_full,
}
use lemmy.RateLimit.Limiter as Limiter
use lemmy.RateLimit.Inserts.{bucket_in, or_fresh}
use lemmy.RateLimit.Buckets.{check_rate_limit_full_lem}
use lemmy.RateLimit.Wrap.{RateLimitConfig, Readings, Request, wrap, if_allowed, charge, then_charge}
use lemmy.Chat.Server.{ChatServer, SessionInfo}
use lemmy.Chat.Standard.{
  StandardMessage, Envelope, kind_of, parse_json_message, read_operation, session_ip,
}

-- Which operations a kind of limit is for.
abbrev pub is_for : RateLimitType → UserOperation → Bool
is_for post create_post = true
is_for post op = false
is_for Limiter.RateLimitType.register register = true
is_for Limiter.RateLimitType.register create_community = true
is_for Limiter.RateLimitType.register op = false
is_for image op = false
is_for message create_post = false
is_for message register = false
is_for message create_community = false
is_for message op = true

kind_of-is_for : (t : RateLimitType) (op : UserOperation) → same_type t (kind_of op) ≡ is_for t op
unfolding kind_of
kind_of-is_for t op = ground arith

module _ {f : Float} (t : RateLimitType) (ip : String) where
  -- The bucket is as it was, or it was made, and nothing was taken from it.
  abbrev pub Spares : RateLimiter f → RateLimiter f → Type 0
  Spares l l' =
      (bucket_in t ip l'.buckets ≡ bucket_in t ip l.buckets)
      ⊎ ((bucket_in t ip l.buckets ≡ none)
          × ((now : ℕ) × (bucket_in t ip l'.buckets
                ≡ some (record { last_checked = now; allowance = unset f }))))

  Spares-trans : (l l' l'' : RateLimiter f) → Spares l l' → Spares l' l'' → Spares l l''
  Spares-trans l l' l'' (inl e) (inl g) = inl (g ∙ e)
  Spares-trans l l' l'' (inl e) (inr (n, (now, g))) = inr (sym e ∙ n, (now, g))
  Spares-trans l l' l'' (inr (n, (now, e))) (inl g) = inr (n, (now, g ∙ e))
  Spares-trans l l' l'' (inr (n, (now, e))) (inr (n', (now', g))) = cc

  module _ {T : Type 0} where
    if_allowed-Spares :
        (l : RateLimiter f) (m : RateLimiter f × Result (Unit {0})) (fut : Request f T)
        → Spares l m.0
        → ((k : RateLimiter f) → Spares k (fut k).0)
        → Spares l (if_allowed f m fut).0
    unfolding if_allowed
    if_allowed-Spares l (k, ok u) fut h g = Spares-trans l k (fut k).0 h (g k)
    if_allowed-Spares l (k, err e) fut h g = h

    charge-Spares :
        (l : RateLimiter f) (m : RateLimiter f × Result (Unit {0})) (r : Result T)
        → Spares l m.0
        → Spares l (charge f m r).0
    unfolding charge
    charge-Spares l (k, ok u) r h = h
    charge-Spares l (k, err e) r h = h

    then_charge-Spares :
        (check : RateLimiter f → RateLimiter f × Result (Unit {0})) (l : RateLimiter f)
        (r : RateLimiter f × Result T)
        → ((k : RateLimiter f) → Spares k (check k).0)
        → Spares l r.0
        → Spares l (then_charge f check r).0
    unfolding then_charge
    then_charge-Spares check l (k, ok a) h g =
        Spares-trans l k _ g (charge-Spares k (check k) (ok a) (h k))
    then_charge-Spares check l (k, err e) h g = g

  module _ (too_many : RateLimitType → String → ℤ → ℤ → String) (own : String) where
    check-Spares :
        (kind : RateLimitType) (rate per : ℤ) (check_only : Bool) (clock : RateLimitType → ℕ)
        (now : ℕ) (l : RateLimiter f)
        → (str_eq ip own && same_type t kind) ≡ false
        → Spares l (check_rate_limit_full f too_many l kind own rate per check_only clock now).0
    check-Spares kind rate per check_only clock now l apart =
        let after =
          (check_rate_limit_full_lem too_many l kind own rate per check_only clock now).1 t ip in
        elim (Bool-cases (str_eq ip own)) [
          | inl same ↦
              let p = ap (λ i. bucket_in t i l.buckets) ((str_eq_iff ip own).0 same) in
              elim (Option-cases (bucket_in t ip l.buckets)) [
                | inl gone ↦
                    inr (gone, (clock t, ground (arith, ap (or_fresh (clock t)) (sym p ∙ gone))))
                | inr (b, there) ↦ inl (ground (arith, ap (or_fresh (clock t)) (sym p ∙ there)))
              ]
          | inr other ↦ inl (ground arith)
        ]

    -- The charge after a deferred request.
    abbrev again :
        RateLimitType → ℤ → ℤ → Readings → RateLimiter f → RateLimiter f × Result (Unit {0})
    again kind rate per at k =
        check_rate_limit_full f too_many k kind own rate per false at.clock_after at.after

    wrap-Spares :
        {T : Type 0} (kind : RateLimitType) (c : RateLimitConfig) (at : Readings)
        (fut : Request f T) (l : RateLimiter f)
        → (str_eq ip own && same_type t kind) ≡ false
        → ((k : RateLimiter f) → Spares k (fut k).0)
        → Spares l (wrap f too_many c kind own at fut l).0
    unfolding wrap
    wrap-Spares message c at fut l apart h =
        if_allowed-Spares l _ fut
          (check-Spares message c.message c.message_per_second false at.clock_before at.before l
            apart)
          h
    wrap-Spares image c at fut l apart h =
        if_allowed-Spares l _ fut
          (check-Spares image c.image c.image_per_second false at.clock_before at.before l apart) h
    wrap-Spares post c at fut l apart h =
        if_allowed-Spares l _ _
          (check-Spares post c.post c.post_per_second true at.clock_before at.before l apart)
          λ k.
            then_charge-Spares (again post c.post c.post_per_second at) k (fut k)
              (λ k'.
                check-Spares post c.post c.post_per_second false at.clock_after at.after k' apart)
              (h k)
    wrap-Spares Limiter.RateLimitType.register c at fut l apart h =
        if_allowed-Spares l _ _
          (check-Spares Limiter.RateLimitType.register c.register c.register_per_second true
            at.clock_before at.before l apart)
          λ k.
            then_charge-Spares
              (again Limiter.RateLimitType.register c.register c.register_per_second at) k (fut k)
              (λ k'.
                check-Spares Limiter.RateLimitType.register c.register c.register_per_second false
                  at.clock_after at.after k' apart)
              (h k)

module _ (f : Float) (too_many : RateLimitType → String → ℤ → ℤ → String) (c : RateLimitConfig)
    (read_json : String → Option Envelope) (from_str : String → Option UserOperation)
    (handler : ℕ → UserOperation → String → Request f String) where
  -- A message of a session with an operation in it takes nothing from the allowance of another
  -- address, and from that of its own only for the kind of limit that the operation falls under,
  -- unless the operation's handler does so itself: any other bucket is as it was, or was not there
  -- and is fresh, whatever the outcome.
  pub parse_json_message-Spares :
      (s : ChatServer) (msg : StandardMessage) (at : Readings) (l : RateLimiter f)
      (info : SessionInfo) (json : Envelope) (name : String) (op : UserOperation)
      (t : RateLimitType) (ip : String)
      → get msg.id s.sessions ≡ some info
      → read_json msg.msg ≡ some json
      → json.op_text ≡ some name
      → from_str name ≡ some op
      → (ip ≡ info.ip → is_for t op ≡ false)
      → ((k : RateLimiter f) → Spares t ip k (handler msg.id op json.data_text k).0)
      → Spares t ip l (parse_json_message f too_many c read_json from_str handler s msg at l).0
  unfolding parse_json_message read_operation session_ip
  parse_json_message-Spares s msg at l info json name op t ip here read named known apart spares =
      let apart' : (str_eq ip info.ip && same_type t (kind_of op)) ≡ false =
        elim (Bool-cases (str_eq ip info.ip)) [
          | inl same ↦ rw (same, kind_of-is_for t op) (apart ((str_eq_iff ip info.ip).0 same))
          | inr other ↦ rw other refl
        ] in
      rw (read, named, known, here, parse_json_message, read_operation, session_ip)
        (wrap-Spares t ip too_many info.ip (kind_of op) c at (handler msg.id op json.data_text) l
          apart' spares)
