-- ===== src/Db/Moderators.antt =====
-- The list of a community's moderators, put in a new order (`CommunityModerator` of
-- lemmy_db/src/community.rs).
use lemmy.Prelude.{
  ℕ, Bool, false, not, List, [], ◌∷◌, ◌++◌, some, ◌≡◌, refl, ap, ◌∙◌, arith, any, retain, ◌==◌,
}
use lemmy.Db.Tables.{Db, CommunityUser}
use lemmy.Db.Community.{moderators_of}
use lemmy.Db.Members.{join, delete_for_community}

module _ {ℓ} {A : Type ℓ} where
  pub retain-append :
      (p : A → Bool) (xs ys : List A) → retain p (xs ++ ys) ≡ retain p xs ++ retain p ys
  retain-append p [] ys = refl
  retain-append p (x ∷ xs) ys = let later = retain-append p xs ys in ground arith

  retain-others : (p : A → Bool) (xs : List A) → retain p (retain (λ x. not (p x)) xs) ≡ []
  retain-others p [] = refl
  retain-others p (x ∷ xs) = let later = retain-others p xs in ground arith

  retain-all : (p : A → Bool) (xs : List A) → any (λ x. not (p x)) xs ≡ false → retain p xs ≡ xs
  retain-all p [] h = refl
  retain-all p (x ∷ xs) h = let later = retain-all p xs in ground arith

  pub any-not-retain : (p : A → Bool) (xs : List A) → any (λ x. not (p x)) (retain p xs) ≡ false
  any-not-retain p [] = refl
  any-not-retain p (x ∷ xs) = let later = any-not-retain p xs in ground arith

-- The tables with another list of moderators.
abbrev pub with_moderators : List CommunityUser → Db → Db
with_moderators ms db = record db { moderators = ms }

pub join-appends :
    (form row : CommunityUser) (d d' : Db)
    → join form d ≡ some (row, d')
    → d' ≡ with_moderators (d.moderators ++ form ∷ []) d
unfolding join
join-appends form row d d' h = ground arith

pub delete_for_community-retains :
    (community_id n : ℕ) (d d' : Db)
    → delete_for_community community_id d ≡ some (n, d')
    → d' ≡ with_moderators (retain (λ r. not (r.community_id == community_id)) d.moderators) d
unfolding delete_for_community
delete_for_community-retains community_id n d d' h = cc

-- Where a community's moderators are replaced, the new ones are listed in their order.
pub moderators_of-replaced :
    (community_id : ℕ) (ms : List CommunityUser) (d : Db)
    → any (λ m. not (m.community_id == community_id)) ms ≡ false
    → moderators_of
        (with_moderators (retain (λ r. not (r.community_id == community_id)) d.moderators ++ ms) d)
        community_id
      ≡ ms
unfolding moderators_of
moderators_of-replaced community_id ms d h =
    let p : CommunityUser → Bool = λ r. r.community_id == community_id in
    retain-append p (retain (λ r. not (p r)) d.moderators) ms
    ∙ (ap (λ l. l ++ retain p ms) (retain-others p d.moderators) ∙ retain-all p ms h)
