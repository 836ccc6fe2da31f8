-- ===== src/Db/Community.antt =====
-- Communities and what a reader sees of them (lemmy_db/src/community.rs,
-- lemmy_db/src/community_view.rs).
use lemmy.Prelude.{
  ℕ, suc, String, Bool, true, false, ◌&&◌, not, List, [], ◌∷◌, ◌++◌, Option, none, some, find?, any,
  retain, update_where, map, ◌==◌, str_eq, if◌then◌else◌,
}
use lemmy.Prelude.Text.{fits, cut, same_lower}
use lemmy.Structs.{CommunityView, CommunityUser, UserView}
use lemmy.Db.Tables.{Db, Community, has_user}
use lemmy.Db.Comment.{Statement, has_reader}
use lemmy.Db.Post.{given, overwrite}

pub record CommunityForm : Type 0 where
  pub name : String
  pub title : String
  pub description : Option String
  pub category_id : ℕ
  pub creator_id : ℕ
  pub removed : Option Bool
  pub published : Option ℕ
  pub updated : Option ℕ
  pub deleted : Option Bool
  pub nsfw : Bool
  pub actor_id : Option String
  pub local : Bool
  pub private_key : Option String
  pub public_key : Option String
  pub last_refreshed_at : Option ℕ
  pub icon : Option (Option String)
  pub banner : Option (Option String)

-- `diesel_option_overwrite`: a field that is left out, erased by an empty text, or set.
unfoldable pub diesel_option_overwrite : Option String → Option (Option String)
diesel_option_overwrite none = none
diesel_option_overwrite (some unwrapped) =
    if not (str_eq unwrapped "") then some (some unwrapped) else some none

unfoldable pub read_community : Db → ℕ → Option Community
read_community db id = find? (λ c. c.id == id) db.communities

unfoldable pub read_from_actor_id : Db → String → Option Community
read_from_actor_id db actor_id = find? (λ c. str_eq c.actor_id actor_id) db.communities

-- Another community has the address, upper and lower case not told apart.
unfoldable pub is_actor_taken : Db → ℕ → String → Bool
is_actor_taken db id actor_id =
    any (λ c. same_lower c.actor_id actor_id && not (c.id == id)) db.communities

-- The row of a form: what it leaves out has the table's default. `changeme` is the address that the
-- database makes up.
unfoldable pub new_community : Db → ℕ → String → CommunityForm → Community
unfolding cut
new_community db now changeme form = record {
  id = db.next_community;
  name = cut 20 form.name;
  title = cut 100 form.title;
  description = form.description;
  category_id = form.category_id;
  creator_id = form.creator_id;
  removed = given form.removed false;
  published = given form.published now;
  updated = form.updated;
  deleted = given form.deleted false;
  nsfw = form.nsfw;
  actor_id = cut 255 (given form.actor_id changeme);
  local = form.local;
  private_key = form.private_key;
  public_key = form.public_key;
  last_refreshed_at = given form.last_refreshed_at now;
  icon = given form.icon none;
  banner = given form.banner none;
}

abbrev pub has_category : Db → ℕ → Bool
has_category db id = any (λ c. c == id) db.categories

unfoldable pub create_community : ℕ → String → CommunityForm → Statement Community
unfolding new_community has_user is_actor_taken fits
create_community now changeme form db =
    let row = new_community db now changeme form in
    if fits 20 form.name
      && (fits 100 form.title
          && (fits 255 (given form.actor_id changeme)
              && (has_category db form.category_id
                  && (has_user db form.creator_id && not (is_actor_taken db row.id row.actor_id)))))
    then some (
      row,
      record db {
        communities = db.communities ++ row ∷ [];
        next_community = suc db.next_community;
      },
    )
    else none

-- The row that a form makes of a row.
unfoldable pub changed_community : CommunityForm → Community → Community
unfolding cut
changed_community form c = record {
  id = c.id;
  name = cut 20 form.name;
  title = cut 100 form.title;
  description = overwrite form.description c.description;
  category_id = form.category_id;
  creator_id = form.creator_id;
  removed = given form.removed c.removed;
  published = given form.published c.published;
  updated = overwrite form.updated c.updated;
  deleted = given form.deleted c.deleted;
  nsfw = form.nsfw;
  actor_id = cut 255 (given form.actor_id c.actor_id);
  local = form.local;
  private_key = overwrite form.private_key c.private_key;
  public_key = overwrite form.public_key c.public_key;
  last_refreshed_at = given form.last_refreshed_at c.last_refreshed_at;
  icon = given form.icon c.icon;
  banner = given form.banner c.banner;
}

-- `diesel::update(community.find(id)).set(…).get_result()`
unfoldable pub set_community : ℕ → (Community → Community) → Statement Community
unfolding read_community
set_community id f db = elim (read_community db id) [
  | none ↦ none
  | some c ↦ some (f c, record db { communities = update_where (λ c. c.id == id) f db.communities })
]

unfoldable pub update_community : ℕ → CommunityForm → Statement Community
unfolding set_community changed_community has_user is_actor_taken fits read_community
update_community id form db = elim (read_community db id) [
  | none ↦ none
  | some c ↦
      if fits 20 form.name
        && (fits 100 form.title
            && (fits 255 (given form.actor_id c.actor_id)
                && (has_category db form.category_id
                    && (has_user db form.creator_id
                        && not (is_actor_taken db id (changed_community form c).actor_id)))))
      then set_community id (changed_community form) db
      else none
]

-- The fields that the updates of `impl Community` set.
abbrev pub set_community_deleted : ℕ → Bool → Community → Community
set_community_deleted now new_deleted c = record c { deleted = new_deleted; updated = some now }

abbrev pub set_community_removed : ℕ → Bool → Community → Community
set_community_removed now new_removed c = record c { removed = new_removed; updated = some now }

abbrev pub set_creator : ℕ → ℕ → Community → Community
set_creator now new_creator_id c = record c { creator_id = new_creator_id; updated = some now }

unfoldable pub update_community_deleted : ℕ → ℕ → Bool → Statement Community
update_community_deleted now id new_deleted =
    set_community id (set_community_deleted now new_deleted)

unfoldable pub update_community_removed : ℕ → ℕ → Bool → Statement Community
update_community_removed now id new_removed =
    set_community id (set_community_removed now new_removed)

-- The new creator must exist.
unfoldable pub update_creator : ℕ → ℕ → ℕ → Statement Community
unfolding set_community has_user
update_creator now id new_creator_id db =
    if has_user db new_creator_id
    then set_community id (set_creator now new_creator_id) db
    else none

-- `community_fast_view` has a row for each community and user, and one without a user. Whoever
-- follows is subscribed; who does not has no value there.
abbrev pub is_subscribed : Db → ℕ → ℕ → Option Bool
is_subscribed db id user_id =
    if any (λ f. f.community_id == id && f.user_id == user_id) db.followers then some true else none

unfoldable pub community_view_row : Db → Community → Option ℕ → CommunityView
community_view_row db c user_id = record {
  id = c.id;
  name = c.name;
  title = c.title;
  description = c.description;
  category_id = c.category_id;
  creator_id = c.creator_id;
  removed = c.removed;
  deleted = c.deleted;
  nsfw = c.nsfw;
  local = c.local;
  icon = c.icon;
  banner = c.banner;
  user_id = user_id;
  subscribed = elim user_id [ none ↦ none | some u ↦ is_subscribed db c.id u ];
}

-- `CommunityView::read`
unfoldable pub read_community_view : Db → ℕ → Option ℕ → Option CommunityView
unfolding community_view_row read_community has_reader
read_community_view db id my_user_id = elim (read_community db id) [
  | none ↦ none
  | some c ↦ if has_reader db my_user_id then some (community_view_row db c my_user_id) else none
]

-- `CommunityModeratorView::for_community`: the rows in the order in which they were made.
unfoldable pub moderators_of : Db → ℕ → List CommunityUser
moderators_of db community_id = retain (λ m. m.community_id == community_id) db.moderators

-- `UserView::admins`, of which only the identifiers are read, in the order of the rows, and
-- `UserView::get_user_secure`.
unfoldable pub admins : Db → List ℕ
admins db = map (λ u. u.id) (retain (λ u. u.admin) db.users)

unfoldable pub get_user_secure : Db → ℕ → Option UserView
get_user_secure db id = elim (find? (λ u. u.id == id) db.users) [
  | none ↦ none
  | some u ↦
      some
        (record { id = u.id; name = u.name; local = u.local; admin = u.admin; banned = u.banned })
]
