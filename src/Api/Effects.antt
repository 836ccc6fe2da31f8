-- ===== src/Api/Effects.antt =====
-- How a run of a handler is taken apart, and which steps leave the tables alone.
use lemmy.Prelude.{
  ℕ, Bool, true, false, [], Option, none, some, Result, ok, err, LemmyError, ◌≡◌, refl, ◌∙◌, subst,
  arith,
}
use lemmy.Db.Tables.{Db}
use lemmy.Api.Monad.{
  M, World, pure, ◌>>=◌, fail_if, ok_or, query, execute, send_activity, send_post_activity, deliver,
  Activity, about_comment, about_post, do_send, next_weather, later_weather, ActivityKind,
}
use lemmy.Chat.Handlers.{Message}

-- The tables are as before, and fair weather stays fair.
abbrev pub Calm : World → World → Type 0
Calm w w' = (w'.db ≡ w.db) × (w.weather ≡ [] → w'.weather ≡ [])

abbrev pub Reads : {A : Type 0} → M A → Type 0
Reads m = (w : World) → Calm w (m w).1

pub Calm-trans : (u v w : World) → Calm u v → Calm v w → Calm u w
Calm-trans u v w h k = (k.0 ∙ h.0, λ e. k.1 (h.1 e))

pub Calm-at :
    {A : Type 0} (m : M A) (w w' : World) (r : Result A) → Reads m → m w ≡ (r, w') → Calm w w'
Calm-at m w w' r h e = subst (λ x. Calm w x.1) e (h w)

module _ {A B : Type 0} where
  -- A sequence ends where its first part fails, or goes on from where that succeeded.
  pub seq {ℓ} :
      (Q : Result B × World → Type ℓ) (m : M A) (f : A → M B) (w : World)
      → ((e : LemmyError) (w' : World) → m w ≡ (err e, w') → Q (err e, w'))
      → ((a : A) (w' : World) → m w ≡ (ok a, w') → Q (f a w'))
      → Q ((m >>= f) w)
  unfolding ◌>>=◌
  seq Q m f w failed went = go (m w) refl
    where
      go : (r : Result A × World) → m w ≡ r → Q (elim r.0 [ ok a ↦ f a r.1 | err e ↦ (err e, r.1) ])
      go (ok a, w') e = went a w' e
      go (err x, w') e = failed x w' e

  -- A sequence whose first part leaves the tables alone.
  pub calmly {ℓ} :
      (Q : Result B × World → Type ℓ) (m : M A) (f : A → M B) (w : World)
      → Reads m
      → ((e : LemmyError) (w' : World) → Calm w w' → Q (err e, w'))
      → ((a : A) (w' : World) → Calm w w' → m w ≡ (ok a, w') → Q (f a w'))
      → Q ((m >>= f) w)
  calmly Q m f w h failed went =
      seq Q m f w (λ e w' q. failed e w' (Calm-at m w w' (err e) h q))
        λ a w' q. went a w' (Calm-at m w w' (ok a) h q) q

  pub Reads-bind : (m : M A) (f : A → M B) → Reads m → ((a : A) → Reads (f a)) → Reads (m >>= f)
  Reads-bind m f h g w =
      seq (λ r. Calm w r.1) m f w (λ e w' q. Calm-at m w w' (err e) h q)
        λ a w' q. Calm-trans w w' (f a w').1 (Calm-at m w w' (ok a) h q) (g a w')

module _ {A : Type 0} where
  pub Reads-pure : (a : A) → Reads (pure a)
  Reads-pure a w = (refl, λ h. h)

  pub Reads-ok_or : (o : Option A) (e : LemmyError) → Reads (ok_or o e)
  Reads-ok_or none e w = (refl, λ h. h)
  Reads-ok_or (some a) e w = (refl, λ h. h)

  pub Reads-query : (q : Db → Option A) → Reads (query q)
  unfolding query execute next_weather later_weather
  Reads-query q w = ground arith

pub Reads-fail_if : (b : Bool) (e : LemmyError) → Reads (fail_if b e)
Reads-fail_if true e w = (refl, λ h. h)
Reads-fail_if false e w = (refl, λ h. h)

pub Reads-deliver : (a : Activity) → Reads (deliver a)
unfolding deliver
Reads-deliver a w = ground arith

pub Reads-send_activity : (k : ActivityKind) (c a : ℕ) → Reads (send_activity k c a)
Reads-send_activity k c a =
    Reads-deliver (record { kind = k; object = about_comment c; actor_id = a })

pub Reads-send_post_activity : (k : ActivityKind) (p a : ℕ) → Reads (send_post_activity k p a)
Reads-send_post_activity k p a =
    Reads-deliver (record { kind = k; object = about_post p; actor_id = a })

pub Reads-do_send : (m : Message) → Reads (do_send m)
unfolding do_send
Reads-do_send m w = (refl, λ h. h)
