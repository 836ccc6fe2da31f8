-- ===== src/Api/TextChecks.antt =====
-- The checks on texts and times leave the tables alone (lemmy_utils/src/utils.rs, lemmy_api/src/lib.rs).
use lemmy.Prelude.{String, Bool, List, [], Option, none, some, ok, ◌≡◌, arith}
use lemmy.Prelude.Int.{ℤ}
use lemmy.Api.Monad.{World}
use lemmy.Api.Texts.{
  check_slurs, check_slurs_opt, check_optional_url, sorted_unique, naive_from_unix,
}
use lemmy.Api.Effects.{Reads, Reads-pure, Reads-fail_if}

module _ (find_slurs : String → List String) where
  pub check_slurs-Reads : (text : String) → Reads (check_slurs find_slurs text)
  unfolding check_slurs
  check_slurs-Reads text w = ground arith

  pub check_slurs_opt-Reads : (text : Option String) → Reads (check_slurs_opt find_slurs text)
  unfolding check_slurs_opt
  check_slurs_opt-Reads none = Reads-pure tt
  check_slurs_opt-Reads (some text) = check_slurs-Reads text

  pub check_slurs-ok :
      (text : String) (u : Unit {0}) (w w' : World)
      → check_slurs find_slurs text w ≡ (ok u, w')
      → sorted_unique (find_slurs text) ≡ []
  unfolding check_slurs
  check_slurs-ok text u w w' h = ground arith

pub check_optional_url-Reads :
    (is_url : String → Bool) (item : Option (Option String))
    → Reads (check_optional_url is_url item)
unfolding check_optional_url
check_optional_url-Reads is_url none = Reads-pure tt
check_optional_url-Reads is_url (some none) = Reads-pure tt
check_optional_url-Reads is_url (some (some item)) = Reads-fail_if _ _

pub naive_from_unix-Reads :
    (is_date : ℤ → Bool) (time : Option ℤ) → Reads (naive_from_unix is_date time)
unfolding naive_from_unix
naive_from_unix-Reads is_date none = Reads-pure tt
naive_from_unix-Reads is_date (some time) = Reads-fail_if _ _
