-- ===== src/Api/CommunityTests.antt =====
-- The handlers of communities on the small site.
use lemmy.Prelude.{true, false, [], ◌∷◌, none, some, err, internal, is_ok, any, ◌==◌, ◌≡◌, refl}
use lemmy.Db.Tables.{read_user, read_post, has_user, has_community}
use lemmy.Db.Access.{is_mod_or_admin_db, community_mods_and_admins}
use lemmy.Db.Community.{read_community, moderators_of, admins, get_user_secure}
use lemmy.Db.Members.{ban, log_ban}
use lemmy.Api.Monad.{World, ◌>>=◌, execute, query, next_weather, later_weather, do_send}
use lemmy.Api.Texts.{naive_from_unix}
use lemmy.Api.Auth.{get_user_from_jwt, is_mod_or_admin}
use lemmy.Api.Checks.{IsCaller}
use lemmy.Api.Post.Requests.{EditPost}
use lemmy.Api.Post.Write as Write
use lemmy.Api.Post.Votes.{create_like}
use lemmy.Api.Community.Requests.{
  Services, EditCommunity, DeleteCommunity, RemoveCommunity, BanFromCommunity, AddModToCommunity,
  TransferCommunity,
}
use lemmy.Api.Community.Write.{edit, delete, remove}
use lemmy.Api.Community.Members.{ban_from, add_mod, transfer, set_banned, remove_data_of}
use lemmy.Api.Community.Outcomes.{CommunityOutcome, ByCommunityMod, ByOwner, ByAdmin}
use lemmy.Api.Community.Changes.{change_community_lem}
use lemmy.Api.Community.Bans.{BanOutcome, ban_from_lem}
use lemmy.Api.Community.Appointing.{AddModOutcome, add_mod_lem}
use lemmy.Api.Community.Silence.{IsRefused, banned-IsRefused}
use lemmy.Api.Community.Transfers.{TransferOutcome, transfer_lem}
use lemmy.Api.Community.Stops.{with_creator, transfer_stops}
use lemmy.Api.Site.{user_with, small_site, start, user_of, first_community, first_post}
use lemmy.Api.PostTests as Posts

abbrev services : Services
services = record {
  decode = user_of;
  find_slurs = λ s. [];
  is_url = λ s. true;
  is_date = λ t. true;
  keypair = some (record { private_key = "private"; public_key = "public" });
  community_endpoint = λ name. name;
  changeme = "changeme";
}

abbrev editing : EditCommunity
editing = record {
  edit_id = 7;
  title = "Main again";
  description = none;
  icon = none;
  banner = some "";
  category_id = 1;
  nsfw = false;
  auth = "ann";
}

abbrev deleting : DeleteCommunity
deleting = record { edit_id = 7; deleted = true; auth = "ann" }

abbrev removing : RemoveCommunity
removing = record { edit_id = 7; removed = true; reason = none; expires = none; auth = "ann" }

change_community_lem_example :
    CommunityOutcome
      (ByCommunityMod services 200 editing start)
      services
      "ann"
      start
      (edit services 200 none editing start)
    × CommunityOutcome
        (ByOwner 200 deleting start)
        services
        "ann"
        start
        (delete services 200 none deleting start)
    × CommunityOutcome
        (ByAdmin 200 removing start)
        services
        "ann"
        start
        (remove services 200 none removing start)
change_community_lem_example =
    change_community_lem services 200 none start editing deleting removing

abbrev appointing : AddModToCommunity
appointing = record { community_id = 7; user_id = 2; added = true; auth = "ann" }

add_mod_lem_example :
    AddModOutcome services appointing start (add_mod services none appointing start)
add_mod_lem_example = add_mod_lem services appointing start none

abbrev banning : BanFromCommunity
banning = record {
  community_id = 7;
  user_id = 2;
  ban = true;
  remove_data = none;
  reason = none;
  expires = none;
  auth = "ann";
}

-- With the removal of what the user wrote.
abbrev purging : BanFromCommunity
purging = record banning { remove_data = some true }

ban_from_lem_example :
    BanOutcome services 200 purging start (ban_from services 200 none purging start)
ban_from_lem_example = ban_from_lem services 200 purging start none

ban_went : is_ok (ban_from services 200 none banning start).0 ≡ true
unfolding ban_from ◌>>=◌ get_user_from_jwt is_mod_or_admin execute query next_weather later_weather
    read_user is_mod_or_admin_db community_mods_and_admins set_banned remove_data_of naive_from_unix
    ban log_ban has_user has_community get_user_secure do_send
ban_went = refl

ban_fair : (ban_from services 200 none banning start).1.weather ≡ []
unfolding ban_from ◌>>=◌ get_user_from_jwt is_mod_or_admin execute query next_weather later_weather
    read_user is_mod_or_admin_db community_mods_and_admins set_banned remove_data_of naive_from_unix
    ban log_ban has_user has_community get_user_secure do_send
ban_fair = refl

post_stays : read_post (ban_from services 200 none banning start).1.db 5 ≡ some first_post
unfolding ban_from ◌>>=◌ get_user_from_jwt is_mod_or_admin execute query next_weather later_weather
    read_user is_mod_or_admin_db community_mods_and_admins set_banned remove_data_of naive_from_unix
    ban log_ban has_user has_community get_user_secure do_send read_post
post_stays = refl

abbrev bobs_edit : EditPost
bobs_edit = record {
  edit_id = 5;
  name = "mine";
  url = none;
  body = none;
  nsfw = false;
  auth = "bob";
}

banned-IsRefused_example :
    IsRefused services Posts.services 200 none banning start (
      Write.create Posts.services 200 none Posts.posting
        (ban_from services 200 none banning start).1)
    × IsRefused services Posts.services 200 none banning start
        (Write.edit Posts.services 200 none bobs_edit (ban_from services 200 none banning start).1)
    × IsRefused services Posts.services 200 none banning start
        (create_like Posts.services none Posts.voting (ban_from services 200 none banning start).1)
banned-IsRefused_example =
    banned-IsRefused services Posts.services 200 none banning start refl ban_went ban_fair
      Posts.posting bobs_edit Posts.voting first_post first_post refl refl refl refl post_stays refl
      post_stays refl

abbrev handing : TransferCommunity
handing = record { community_id = 7; user_id = 2; auth = "ann" }

transfer_lem_example :
    TransferOutcome services 200 handing start (transfer services 200 handing start)
transfer_lem_example = transfer_lem services 200 handing start

abbrev admin_site : World
admin_site = record start {
  db = record small_site {
    users = record (user_with 1 "ann") { admin = true } ∷ user_with 2 "bob" ∷ [];
  };
}

ann_calls : IsCaller user_of "ann" admin_site.db (record (user_with 1 "ann") { admin = true })
unfolding read_user
ann_calls = record { id = 1; named = refl; there = refl; welcome = refl }

community_there : read_community admin_site.db 7 ≡ some first_community
unfolding read_community
community_there = refl

ann_rules : any (λ id. id == 1) (admins admin_site.db) ≡ true
unfolding admins
ann_rules = refl

bob_there : has_user admin_site.db 2 ≡ true
unfolding has_user
bob_there = refl

bob_no_mod : any (λ m. m.user_id == 2) (moderators_of admin_site.db 7) ≡ false
unfolding moderators_of
bob_no_mod = refl

transfer_stops_example : transfer services 200 handing admin_site ≡ (
  err internal,
  record admin_site {
    db =
        with_creator services 200 handing admin_site
          (record (user_with 1 "ann") { admin = true })
          first_community
          1
          refl;
  },
)
transfer_stops_example =
    transfer_stops services 200 handing admin_site (record (user_with 1 "ann") { admin = true })
      first_community 1 refl ann_calls community_there refl refl ann_rules bob_there bob_no_mod
