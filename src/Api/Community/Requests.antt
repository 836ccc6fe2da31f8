-- ===== src/Api/Community/Requests.antt =====
-- The requests (lemmy_structs/src/community.rs), and what the operations use of code that is not
-- modelled.
use lemmy.Prelude.{ℕ, String, Bool, List, Option}
use lemmy.Prelude.Int.{ℤ}
use lemmy.Structs.{CommunityView, CommunityUser}

pub record Keypair : Type 0 where
  pub private_key : String
  pub public_key : String

-- `decode` is the decoding of a token by the JWT library, `find_slurs`, `is_url` and `is_date` are
-- those of Texts.antt, `keypair` is what the cryptography library generates, if it can, `community_endpoint`
-- prints the address of a community by its name, and `changeme` is the address that the database
-- makes up for a new row.
pub record Services : Type 0 where
  pub decode : String → Option ℕ
  pub find_slurs : String → List String
  pub is_url : String → Bool
  pub is_date : ℤ → Bool
  pub keypair : Option Keypair
  pub community_endpoint : String → String
  pub changeme : String

pub record CreateCommunity : Type 0 where
  pub name : String
  pub title : String
  pub description : Option String
  pub icon : Option String
  pub banner : Option String
  pub category_id : ℕ
  pub nsfw : Bool
  pub auth : String

pub record EditCommunity : Type 0 where
  pub edit_id : ℕ
  pub title : String
  pub description : Option String
  pub icon : Option String
  pub banner : Option String
  pub category_id : ℕ
  pub nsfw : Bool
  pub auth : String

pub record DeleteCommunity : Type 0 where
  pub edit_id : ℕ
  pub deleted : Bool
  pub auth : String

pub record RemoveCommunity : Type 0 where
  pub edit_id : ℕ
  pub removed : Bool
  pub reason : Option String
  pub expires : Option ℤ
  pub auth : String

pub record FollowCommunity : Type 0 where
  pub community_id : ℕ
  pub follow : Bool
  pub auth : String

pub record BanFromCommunity : Type 0 where
  pub community_id : ℕ
  pub user_id : ℕ
  pub ban : Bool
  pub remove_data : Option Bool
  pub reason : Option String
  pub expires : Option ℤ
  pub auth : String

pub record AddModToCommunity : Type 0 where
  pub community_id : ℕ
  pub user_id : ℕ
  pub added : Bool
  pub auth : String

pub record TransferCommunity : Type 0 where
  pub community_id : ℕ
  pub user_id : ℕ
  pub auth : String

pub record GetCommunityResponse : Type 0 where
  pub community : CommunityView
  pub moderators : List CommunityUser
  pub online : ℕ
