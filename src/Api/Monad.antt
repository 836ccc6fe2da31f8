-- ===== src/Api/Monad.antt =====
-- A handler's run: the tables, what the outside world answers next, and what was sent so far.
use lemmy.Prelude.{
  ℕ, String, Bool, true, false, List, [], ◌∷◌, ◌++◌, Option, none, some, Result, ok, err,
  LemmyError, internal,
}
use lemmy.Db.Tables.{Db}
use lemmy.Db.Comment.{Statement}
use lemmy.Chat.Handlers.{Message}

-- What the next call of `blocking` meets: a connection and a working database, no connection, or a
-- database that refuses the query.
pub data Weather : Type 0 where
  fine no_connection refused : Weather

pub data ActivityKind : Type 0 where
  create update delete undo_delete remove undo_remove : ActivityKind
  like dislike undo_like follow undo_follow : ActivityKind

-- What an activity is about.
pub data ActivityObject : Type 0 where
  about_comment about_post about_community : ℕ → ActivityObject

-- An activity, sent for a user (the traits of lemmy_apub/src/lib.rs). A community is the actor of
-- what is sent about itself.
pub record Activity : Type 0 where
  pub kind : ActivityKind
  pub object : ActivityObject
  pub actor_id : ℕ

pub record Email : Type 0 where
  pub recipient_id : ℕ
  pub subject : String

-- `weather` and `federation` are read from the front; when they are used up, all goes well.
pub record World : Type 0 where
  pub db : Db
  pub weather : List Weather
  pub federation : List Bool
  pub activities : List Activity
  pub emails : List Email
  pub chat : List Message

abbrev pub M : Type 0 → Type 0
M A = World → Result A × World

abbrev pub pure : {A : Type 0} → A → M A
pure a w = (ok a, w)

abbrev pub fail : {A : Type 0} → LemmyError → M A
fail e w = (err e, w)

infixl 5 ◌>>=◌ ◌>>◌
unfoldable pub ◌>>=◌ : {A B : Type 0} → M A → (A → M B) → M B
◌>>=◌ m f w = let (r, w') = m w in elim r [ ok a ↦ f a w' | err e ↦ (err e, w') ]

abbrev pub ◌>>◌ : {A B : Type 0} → M A → M B → M B
m >> k = m >>= λ _. k

-- `if test { return Err(e) }`
abbrev pub fail_if : Bool → LemmyError → M (Unit {0})
fail_if true e = fail e
fail_if false e = pure tt

abbrev pub ok_or : {A : Type 0} → Option A → LemmyError → M A
ok_or none e = fail e
ok_or (some a) e = pure a

unfoldable pub next_weather : List Weather → Weather
next_weather [] = fine
next_weather (x ∷ xs) = x

unfoldable pub later_weather : List Weather → List Weather
later_weather [] = []
later_weather (x ∷ xs) = xs

unfoldable pub next_outcome : List Bool → Bool
next_outcome [] = true
next_outcome (x ∷ xs) = x

unfoldable pub later_outcomes : List Bool → List Bool
later_outcomes [] = []
later_outcomes (x ∷ xs) = xs

-- The result of a statement on the tables.
abbrev pub applied : {A : Type 0} → Option (A × Db) → World → Result (Option A) × World
applied none w = (ok none, w)
applied (some (a, db)) w = (ok (some a), record w { db = db })

-- `blocking(pool, |conn| …).await?` around a query that may fail, so the query's error is a value.
unfoldable pub execute : {A : Type 0} → Statement A → M (Option A)
unfolding next_weather later_weather
execute q w =
    let w' = record w { weather = later_weather w.weather } in
    elim (next_weather w.weather) [
      | fine ↦ applied (q w.db) w'
      | no_connection ↦ (err internal, w')
      | refused ↦ (ok none, w')
    ]

abbrev pub reading : {A : Type 0} → (Db → Option A) → Statement A
reading q db = elim (q db) [ none ↦ none | some a ↦ some (a, db) ]

unfoldable pub query : {A : Type 0} → (Db → Option A) → M (Option A)
unfolding execute
query q = execute (reading q)

-- A call of the federation that takes one of the activities, and may fail.
unfoldable pub deliver : Activity → M (Unit {0})
unfolding next_outcome later_outcomes
deliver activity w =
    let w' = record w { federation = later_outcomes w.federation } in
    elim (next_outcome w.federation) [
      | true ↦ (ok tt, record w' { activities = w.activities ++ activity ∷ [] })
      | false ↦ (err internal, w')
    ]

-- `ApubObjectType` and `ApubLikeableType` of a comment and of a post.
abbrev pub send_activity : ActivityKind → ℕ → ℕ → M (Unit {0})
send_activity kind comment_id actor_id =
    deliver (record { kind = kind; object = about_comment comment_id; actor_id = actor_id })

abbrev pub send_post_activity : ActivityKind → ℕ → ℕ → M (Unit {0})
send_post_activity kind post_id actor_id =
    deliver (record { kind = kind; object = about_post post_id; actor_id = actor_id })

-- `context.chat_server().do_send(…)`
unfoldable pub do_send : Message → M (Unit {0})
do_send m w = (ok tt, record w { chat = w.chat ++ m ∷ [] })
