-- ===== src/Db/Reports.antt =====
-- Reports, removals and mentions (lemmy_db/src/comment_report.rs, lemmy_db/src/moderator.rs,
-- lemmy_db/src/user_mention.rs).
use lemmy.Prelude.{
  ℕ, suc, String, Bool, true, false, ◌&&◌, ◌||◌, not, [], ◌∷◌, ◌++◌, Option, none, some, any,
  is_some, find?, update_where, count_where, ◌==◌, if◌then◌else◌,
}
use lemmy.Db.Tables.{Db, CommentReport, ModRemoveComment, UserMention, has_user, read_post}
use lemmy.Db.Comment.{Statement, read_comment}

pub record CommentReportForm : Type 0 where
  pub creator_id : ℕ
  pub comment_id : ℕ
  pub original_comment_text : String
  pub reason : String

unfoldable pub new_report : Db → CommentReportForm → CommentReport
new_report db form = record {
  id = db.next_report;
  creator_id = form.creator_id;
  comment_id = form.comment_id;
  original_comment_text = form.original_comment_text;
  reason = form.reason;
  resolved = false;
  resolver_id = none;
  updated = none;
}

-- A user reports a comment once.
unfoldable pub report : CommentReportForm → Statement CommentReport
unfolding new_report has_user read_comment
report form db =
    if not
        (any (λ r. r.comment_id == form.comment_id && r.creator_id == form.creator_id) db.reports)
      && (has_user db form.creator_id && is_some (read_comment db form.comment_id))
    then some (
      new_report db form,
      record db {
        reports = db.reports ++ new_report db form ∷ [];
        next_report = suc db.next_report;
      },
    )
    else none

abbrev pub set_resolved : ℕ → Bool → ℕ → CommentReport → CommentReport
set_resolved now flag resolver r = record r {
  resolved = flag;
  resolver_id = some resolver;
  updated = some now;
}

-- The number of rows that were changed; the resolver must exist if there is one.
unfoldable pub set_report : ℕ → Bool → ℕ → ℕ → Statement ℕ
unfolding has_user
set_report now flag report_id resolver_id db =
    let n = count_where (λ (r : CommentReport). r.id == report_id) db.reports in
    if n == 0 || has_user db resolver_id
    then some (
      n,
      record db {
        reports =
            update_where (λ r. r.id == report_id) (set_resolved now flag resolver_id) db.reports;
      },
    )
    else none

unfoldable pub resolve : ℕ → ℕ → ℕ → Statement ℕ
unfolding set_report
resolve now = set_report now true

unfoldable pub unresolve : ℕ → ℕ → ℕ → Statement ℕ
unfolding set_report
unresolve now = set_report now false

pub record CommentReportView : Type 0 where
  pub report : CommentReport
  pub community_id : ℕ

-- `CommentReportView::read`: the report beside its comment's post.
unfoldable pub read_report_view : Db → ℕ → Option CommentReportView
unfolding read_comment read_post
read_report_view db report_id = elim (find? (λ r. r.id == report_id) db.reports) [
  | none ↦ none
  | some r ↦ elim (read_comment db r.comment_id) [
    | none ↦ none
    | some c ↦ elim (read_post db c.post_id) [
      | none ↦ none
      | some p ↦ some (record { report = r; community_id = p.community_id })
    ]
  ]
]

unfoldable pub create_removal : ModRemoveComment → Statement ModRemoveComment
unfolding has_user read_comment
create_removal form db =
    if has_user db form.mod_user_id && is_some (read_comment db form.comment_id)
    then some (form, record db { removals = db.removals ++ form ∷ [] })
    else none

-- A user is mentioned in a comment once.
unfoldable pub create_mention : UserMention → Statement UserMention
unfolding has_user read_comment
create_mention form db =
    if not (
        any (λ m. m.recipient_id == form.recipient_id && m.comment_id == form.comment_id)
          db.mentions)
      && (has_user db form.recipient_id && is_some (read_comment db form.comment_id))
    then some (form, record db { mentions = db.mentions ++ form ∷ [] })
    else none
