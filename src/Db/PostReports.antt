-- ===== src/Db/PostReports.antt =====
-- Reports of posts (lemmy_db/src/post_report.rs).
use lemmy.Prelude.{
  ℕ, suc, String, Bool, true, false, ◌&&◌, ◌||◌, not, [], ◌∷◌, ◌++◌, Option, none, some, any,
  is_some, find?, update_where, count_where, ◌==◌, if◌then◌else◌,
}
use lemmy.Prelude.Text.{fits, cut}
use lemmy.Db.Tables.{Db, PostReport, has_user, read_post}
use lemmy.Db.Comment.{Statement}

pub record PostReportForm : Type 0 where
  pub creator_id : ℕ
  pub post_id : ℕ
  pub original_post_name : String
  pub original_post_url : Option String
  pub original_post_body : Option String
  pub reason : String

unfoldable pub new_post_report : Db → PostReportForm → PostReport
unfolding cut
new_post_report db form = record {
  id = db.next_post_report;
  creator_id = form.creator_id;
  post_id = form.post_id;
  original_post_name = cut 100 form.original_post_name;
  original_post_url = form.original_post_url;
  original_post_body = form.original_post_body;
  reason = form.reason;
  resolved = false;
  resolver_id = none;
  updated = none;
}

-- A user reports a post once. The table's column for the name holds a hundred characters.
unfoldable pub report_post : PostReportForm → Statement PostReport
unfolding new_post_report has_user read_post fits
report_post form db =
    if fits 100 form.original_post_name
      && (not (
            any (λ r. r.post_id == form.post_id && r.creator_id == form.creator_id) db.post_reports)
          && (has_user db form.creator_id && is_some (read_post db form.post_id)))
    then some (
      new_post_report db form,
      record db {
        post_reports = db.post_reports ++ new_post_report db form ∷ [];
        next_post_report = suc db.next_post_report;
      },
    )
    else none

abbrev pub set_post_resolved : ℕ → Bool → ℕ → PostReport → PostReport
set_post_resolved now flag resolver r = record r {
  resolved = flag;
  resolver_id = some resolver;
  updated = some now;
}

-- The number of rows that were changed; the resolver must exist if there is one.
unfoldable pub set_post_report : ℕ → Bool → ℕ → ℕ → Statement ℕ
unfolding has_user
set_post_report now flag report_id resolver_id db =
    let n = count_where (λ (r : PostReport). r.id == report_id) db.post_reports in
    if n == 0 || has_user db resolver_id
    then some (
      n,
      record db {
        post_reports =
            update_where (λ r. r.id == report_id) (set_post_resolved now flag resolver_id)
              db.post_reports;
      },
    )
    else none

unfoldable pub resolve_post : ℕ → ℕ → ℕ → Statement ℕ
unfolding set_post_report
resolve_post now = set_post_report now true

unfoldable pub unresolve_post : ℕ → ℕ → ℕ → Statement ℕ
unfolding set_post_report
unresolve_post now = set_post_report now false

pub record PostReportView : Type 0 where
  pub report : PostReport
  pub community_id : ℕ

-- `PostReportView::read`: the report beside its post.
unfoldable pub read_post_report_view : Db → ℕ → Option PostReportView
unfolding read_post
read_post_report_view db report_id = elim (find? (λ r. r.id == report_id) db.post_reports) [
  | none ↦ none
  | some r ↦ elim (read_post db r.post_id) [
    | none ↦ none
    | some p ↦ some (record { report = r; community_id = p.community_id })
  ]
]
