-- ===== src/Api/Steps.antt =====
-- What the steps of a handler come to: queries, statements and tests that must hold.
use lemmy.Prelude.{
  Bool, true, false, List, [], ◌∷◌, Option, none, some, Result, ok, err, LemmyError, internal, ◌≡◌,
  refl, ap, ◌∙◌, sym, ◌≢◌, arith,
}
use lemmy.Db.Tables.{Db}
use lemmy.Db.Comment.{Statement}
use lemmy.Api.Monad.{
  M, World, Weather, fine, no_connection, refused, pure, ◌>>=◌, fail_if, ok_or, query, execute,
  reading, applied, next_weather, later_weather,
}
use lemmy.Api.Effects.{Calm, Reads, seq}

-- What a step can come to.
module _ {A : Type 0} where
  -- A statement is not run, is run and refused, or gives its result and its tables.
  pub execute-cases {ℓ} :
      (q : Statement A) (w : World) (Q : Result (Option A) × World → Type ℓ)
      → ((w' : World) → Calm w w' → (w.weather ≢ []) → Q (err internal, w'))
      → ((w' : World) → Calm w w' → (w.weather ≡ [] → q w.db ≡ none) → Q (ok none, w'))
      → ((a : A) (w' : World)
          → q w.db ≡ some (a, w'.db)
          → (w.weather ≡ [] → w'.weather ≡ [])
          → Q (ok (some a), w'))
      → Q (execute q w)
  unfolding execute next_weather later_weather
  execute-cases q w Q failed empty full = go w.weather refl
    where
      ran :
          (w' : World) (x : Option (A × Db))
          → w'.db ≡ w.db
          → (w.weather ≡ [] → w'.weather ≡ [])
          → q w.db ≡ x
          → Q (applied x w')
      ran w' none d c e = empty w' (d, c) (λ h. e)
      ran w' (some (a, db)) d c e = full a (record w' { db = db }) e c

      go :
          (ws : List Weather)
          → w.weather ≡ ws
          → Q (elim (next_weather ws) [
            | fine ↦ applied (q w.db) (record w { weather = later_weather ws })
            | no_connection ↦ (err internal, record w { weather = later_weather ws })
            | refused ↦ (ok none, record w { weather = later_weather ws })
          ])
      go [] e = ran (record w { weather = [] }) (q w.db) refl (λ h. refl) refl
      go (fine ∷ ws) e = ran (record w { weather = ws }) (q w.db) refl (λ h. cc) refl
      go (no_connection ∷ ws) e = failed (record w { weather = ws }) (refl, λ h. cc) (λ h. cc)
      go (refused ∷ ws) e = empty (record w { weather = ws }) (refl, λ h. cc) (λ h. cc)

  -- The answer of a successful step.
  abbrev result_of : Result (Option A) × World → Option A
  result_of (ok o, w) = o
  result_of (err e, w) = none

  reading-some : (q : Db → Option A) (d d' : Db) (a : A) → reading q d ≡ some (a, d') → q d ≡ some a
  reading-some q d d' a = go (q d) refl
    where
      go :
          (o : Option A)
          → q d ≡ o
          → ◌≡◌ {A = Option (A × Db)} (elim o [ none ↦ none | some b ↦ some (b, d) ]) (some (a, d'))
          → q d ≡ some a
      go none e h = cc
      go (some b) e h = cc

  reading-none : (q : Db → Option A) (d : Db) → reading q d ≡ none → q d ≡ none
  reading-none q d = go (q d) refl
    where
      go :
          (o : Option A)
          → q d ≡ o
          → ◌≡◌ {A = Option (A × Db)} (elim o [ none ↦ none | some b ↦ some (b, d) ]) none
          → q d ≡ none
      go none e h = e
      go (some b) e h = cc

  -- In fair weather a query answers; otherwise it may find nothing.
  pub query-ok :
      (q : Db → Option A) (o : Option A) (w w' : World)
      → query q w ≡ (ok o, w')
      → (w.weather ≡ [] → o ≡ q w.db) × ((a : A) → o ≡ some a → q w.db ≡ some a)
  unfolding query
  query-ok q o w w' =
      execute-cases (reading q) w
        (λ r.
          r ≡ (ok o, w') → (w.weather ≡ [] → o ≡ q w.db) × ((a : A) → o ≡ some a → q w.db ≡ some a))
        (λ v c h e. cc)
        (λ v c h e. (λ k. ap result_of (sym e) ∙ sym (reading-none q w.db (h k)), λ a k. cc))
        (λ a v c h e. (
          λ k. ap result_of (sym e) ∙ sym (reading-some q w.db v.db a c),
          λ b k. reading-some q w.db v.db a c ∙ (ap result_of e ∙ k),
        ))

  pub pure-ok : (a b : A) (w w' : World) → pure a w ≡ (ok b, w') → a ≡ b
  pure-ok a b w w' h = cc

  pub ok_or-ok :
      (o : Option A) (e : LemmyError) (a : A) (w w' : World)
      → ok_or o e w ≡ (ok a, w')
      → (o ≡ some a) × (w ≡ w')
  ok_or-ok none e a w w' h = cc
  ok_or-ok (some b) e a w w' h = ground arith

  pub execute-ok :
      (q : Statement A) (o : Option A) (w w' : World)
      → execute q w ≡ (ok o, w')
      → (o ≡ none → w'.db ≡ w.db) × ((a : A) → o ≡ some a → q w.db ≡ some (a, w'.db))
  execute-ok q o w w' =
      execute-cases q w
        (λ r.
          r ≡ (ok o, w')
          → (o ≡ none → w'.db ≡ w.db) × ((a : A) → o ≡ some a → q w.db ≡ some (a, w'.db)))
        (λ v c h e. cc) (λ v c h e. (λ k. ap (λ x. x.1.db) (sym e) ∙ c.0, λ a k. cc))
        (λ a v c h e. (λ k. cc, λ b k. cc))

  pub execute-err :
      (q : Statement A) (e : LemmyError) (w w' : World) → execute q w ≡ (err e, w') → w'.db ≡ w.db
  execute-err q e w w' =
      execute-cases q w (λ r. r ≡ (err e, w') → w'.db ≡ w.db)
        (λ v c h k. ap (λ x. x.1.db) (sym k) ∙ c.0) (λ v c h k. cc) (λ a v c h k. cc)

ok_or-err :
    {A : Type 0} (o : Option A) (x e : LemmyError) (w w' : World)
    → ok_or o x w ≡ (err e, w')
    → (o ≡ none) × (w ≡ w')
ok_or-err none x e w w' h = ground arith
ok_or-err (some a) x e w w' h = cc

pub fail_if-ok :
    (b : Bool) (e : LemmyError) (u : Unit {0}) (w w' : World)
    → fail_if b e w ≡ (ok u, w')
    → (b ≡ false) × (w ≡ w')
fail_if-ok true e u w w' h = cc
fail_if-ok false e u w w' h = ground arith

-- A statement that must succeed: it changes nothing, or gives its result and its tables.
pub statement {ℓ} :
    {A B : Type 0} (q : Statement A) (x : LemmyError) (k : A → M B) (Q : Result B × World → Type ℓ)
    (w : World)
    → ((e : LemmyError) (w' : World) → w'.db ≡ w.db → Q (err e, w'))
    → ((a : A) (w' : World) → q w.db ≡ some (a, w'.db) → Q (k a w'))
    → Q ((execute q >>= λ o. ok_or o x >>= k) w)
statement q x k Q w failed went =
    seq Q _ _ w (λ e w1 h. failed e w1 (execute-err q e w w1 h))
      λ o w1 h.
        let (nothing, something) = execute-ok q o w w1 h in
        seq Q _ _ w1
          (λ e w2 h2.
            let (nil, same) = ok_or-err o x e w1 w2 h2 in
            failed e w2 (ap (λ v. v.db) (sym same) ∙ nothing nil))
          λ a w2 h2.
            let (full, same) = ok_or-ok o x a w1 w2 h2 in
            went a w2 (something a full ∙ ap (λ v. some (a, v.db)) same)

-- A part of the tables is as before.
abbrev pub Keeps {ℓ} : {X : Type ℓ} {A : Type 0} → (Db → X) → M A → Type ℓ
Keeps g m = (w : World) → g (m w).1.db ≡ g w.db

module _ {ℓ} {X : Type ℓ} (g : Db → X) where
  pub Keeps-Reads : {A : Type 0} (m : M A) → Reads m → Keeps g m
  Keeps-Reads m h w = ap g (h w).0

  pub Keeps-bind :
      {A B : Type 0} (m : M A) (f : A → M B)
      → Keeps g m
      → ((a : A) → Keeps g (f a))
      → Keeps g (m >>= f)
  Keeps-bind m f h k w =
      seq (λ r. g r.1.db ≡ g w.db) m f w (λ x v e. ap (λ r. g r.1.db) (sym e) ∙ h w)
        λ a v e. k a v ∙ (ap (λ r. g r.1.db) (sym e) ∙ h w)

  pub Keeps-execute :
      {A : Type 0} (q : Statement A)
      → ((a : A) (d d' : Db) → q d ≡ some (a, d') → g d' ≡ g d)
      → Keeps g (execute q)
  Keeps-execute q h w =
      execute-cases q w (λ r. g r.1.db ≡ g w.db) (λ v c n. ap g c.0) (λ v c n. ap g c.0)
        λ a v e c. h a w.db v.db e
