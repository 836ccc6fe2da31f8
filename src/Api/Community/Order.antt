-- ===== src/Api/Community/Order.antt =====
-- Moderators in a new order: who comes to the front, and the loop in which all join again
-- (`TransferCommunity` of lemmy_api/src/community.rs).
use lemmy.Prelude.{
  Bool, true, false, ◌||◌, List, [], ◌∷◌, ◌++◌, Option, none, some, Result, ok, ◌≡◌, refl, ap, ◌∙◌,
  sym, arith, any, if◌then◌else◌, ap₂, append-nil, append_assoc,
}
use lemmy.Structs.{CommunityUser}
use lemmy.Db.Tables.{Db}
use lemmy.Db.Members.{join}
use lemmy.Db.Moderators.{with_moderators, join-appends}
use lemmy.Api.Monad.{World}
use lemmy.Api.Community.Members.{to_front, take_first, join_all}
use lemmy.Api.Steps.{statement}

module _ {ℓ} {A : Type ℓ} where
  parts :
      (a b : A) (xs ys : List A)
      → ◌≡◌ {A = Option (A × List A)} (some (a, xs)) (some (b, ys))
      → (a ≡ b) × (xs ≡ ys)
  parts a b xs ys h = (cc, cc)

  take_first-any :
      (p q : A → Bool) (xs ys : List A) (y : A)
      → take_first p xs ≡ some (y, ys)
      → (p y ≡ true) × ((q y || any q ys) ≡ any q xs)
  take_first-any p q [] ys y = λ h. cc
  take_first-any p q (x ∷ xs) ys y =
      go (λ zs z. take_first-any p q xs zs z) (p x) (take_first p xs) refl refl
    where
      go :
          ((zs : List A) (z : A)
            → take_first p xs ≡ some (z, zs)
            → (p z ≡ true) × ((q z || any q zs) ≡ any q xs))
          → (b : Bool) (o : Option (A × List A)) → p x ≡ b
          → take_first p xs ≡ o
          → ◌≡◌ {A = Option (A × List A)}
              (if◌then◌else◌ {A = Option (A × List A)} b
                (some (x, xs))
                (elim o [ none ↦ none | some (z, zs) ↦ some (z, x ∷ zs) ]))
              (some (y, ys))
          → (p y ≡ true) × ((q y || any q ys) ≡ (q x || any q xs))
      go later true o e f h =
          let (first, rest) = parts x y xs ys h in
          (ap p (sym first) ∙ e, ap₂ (λ a l. q a || any q l) (sym first) (sym rest))
      go later false none e f h = cc
      go later false (some (z, zs)) e f h =
          let (passes, same) = later zs z f in
          let (first, rest) = parts z y (x ∷ zs) ys h in
          (
            ap p (sym first) ∙ passes,
            ap₂ (λ a l. q a || any q l) (sym first) (sym rest) ∙ (ground arith),
          )

  -- What comes to the front passes, and nothing is lost or made.
  pub to_front-any :
      (p q : A → Bool) (xs ys : List A)
      → to_front p xs ≡ some ys
      → ((y : A) × (zs : List A) × (ys ≡ y ∷ zs) × (p y ≡ true)) × (any q ys ≡ any q xs)
  unfolding to_front
  to_front-any p q xs ys = go (take_first p xs) refl
    where
      go :
          (o : Option (A × List A))
          → take_first p xs ≡ o
          → ◌≡◌ {A = Option (List A)}
              (elim o [ none ↦ none | some (y, zs) ↦ some (y ∷ zs) ])
              (some ys)
          → ((y : A) × (zs : List A) × (ys ≡ y ∷ zs) × (p y ≡ true)) × (any q ys ≡ any q xs)
      go none e h = cc
      go (some (y, zs)) e h =
          let (passes, same) = take_first-any p q xs zs y e in
          let all : y ∷ zs ≡ ys = cc in ((y, zs, sym all, passes), ap (any q) (sym all) ∙ same)

-- The loop over the moderators: what succeeds has appended them all.
pub join_all-appends :
    (ms : List CommunityUser) (u : Unit {0}) (w w' : World)
    → join_all ms w ≡ (ok u, w')
    → w'.db ≡ with_moderators (w.db.moderators ++ ms) w.db
unfolding join_all
join_all-appends [] u w w' = λ h.
    ap (λ (r : Result (Unit {0}) × World). r.1.db) (sym h)
    ∙ ap (λ l. with_moderators l w.db) (sym (append-nil w.db.moderators))
join_all-appends (m ∷ ms) u w w' =
    statement (join m) _ _
      (λ r. r ≡ (ok u, w') → w'.db ≡ with_moderators (w.db.moderators ++ m ∷ ms) w.db) w
      (λ x v d k. cc)
      λ row v d k.
        let joined = join-appends m row w.db v.db d in
        join_all-appends ms u v w' k
        ∙ (ap (λ (d : Db). with_moderators (d.moderators ++ ms) d) joined
            ∙ ap (λ l. with_moderators l w.db) (append_assoc w.db.moderators (m ∷ []) ms))
