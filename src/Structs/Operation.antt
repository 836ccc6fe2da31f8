-- ===== src/Structs/Operation.antt =====
-- The operations of the client protocol (lemmy_websocket/src/lib.rs).

pub data UserOperation : Type 0 where
  login register get_captcha create_community create_post list_communities : UserOperation
  list_categories get_post get_community create_comment edit_comment : UserOperation
  delete_comment remove_comment mark_comment_as_read save_comment : UserOperation
  create_comment_like create_comment_report resolve_comment_report : UserOperation
  list_comment_reports get_posts create_post_like edit_post delete_post : UserOperation
  remove_post lock_post sticky_post save_post create_post_report : UserOperation
  resolve_post_report list_post_reports get_report_count edit_community : UserOperation
  delete_community remove_community follow_community : UserOperation
  get_followed_communities get_user_details get_replies get_user_mentions : UserOperation
  mark_user_mention_as_read get_modlog ban_from_community : UserOperation
  add_mod_to_community create_site edit_site get_site add_admin ban_user : UserOperation
  search_site mark_all_as_read save_user_settings transfer_community : UserOperation
  transfer_site delete_account password_reset password_change : UserOperation
  create_private_message edit_private_message delete_private_message : UserOperation
  mark_private_message_as_read get_private_messages user_join : UserOperation
  get_comments get_site_config save_site_config post_join community_join mod_join : UserOperation
