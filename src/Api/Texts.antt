-- ===== src/Api/Texts.antt =====
-- The checks on texts and times that users send (lemmy_utils/src/utils.rs, lemmy_api/src/lib.rs). `find_slurs`
-- is what the regular expression of slurs finds in a text, in order; `is_url` is whether the URL
-- library can parse a text.
use Prim.Native.Nat.{Ordering}
use Prim.Native.String.{compare, ◌++◌}
use lemmy.Prelude.{String, Bool, not, List, [], ◌∷◌, Option, none, some, api, internal}
use lemmy.Prelude.Int.{ℤ}
use lemmy.Prelude.Text.{trim, is_empty}
use lemmy.Api.Monad.{M, pure, fail, fail_if}

-- `sort_unstable` and `dedup`, one text at a time.
unfoldable pub insert_unique : String → List String → List String
insert_unique s [] = s ∷ []
insert_unique s (t ∷ ts) =
    let rest = insert_unique s ts in
    elim (compare s t) [ Ordering.lt ↦ s ∷ t ∷ ts | Ordering.eq ↦ t ∷ ts | Ordering.gt ↦ t ∷ rest ]

unfoldable pub sorted_unique : List String → List String
unfolding insert_unique
sorted_unique [] = []
sorted_unique (s ∷ ss) = insert_unique s (sorted_unique ss)

unfoldable pub join_slurs : List String → String
join_slurs [] = ""
join_slurs (s ∷ []) = s
join_slurs (s ∷ t ∷ ts) = s ++ (", " ++ join_slurs (t ∷ ts))

-- `slurs_vec_to_str`
unfoldable pub slurs_vec_to_str : List String → String
unfolding join_slurs
slurs_vec_to_str slurs = "No slurs - " ++ join_slurs slurs

-- The character class `\S` that the pattern of titles asks for is what `trim` leaves.
unfoldable pub is_valid_post_title : String → Bool
is_valid_post_title title = not (is_empty (trim title))

module _ (find_slurs : String → List String) where
  unfoldable pub check_slurs : String → M (Unit {0})
  unfolding sorted_unique slurs_vec_to_str
  check_slurs text = elim (sorted_unique (find_slurs text)) [
    | [] ↦ pure tt
    | s ∷ ss ↦ fail (api (slurs_vec_to_str (s ∷ ss)))
  ]

  unfoldable pub check_slurs_opt : Option String → M (Unit {0})
  unfolding check_slurs
  check_slurs_opt none = pure tt
  check_slurs_opt (some text) = check_slurs text

-- The outer option is whether the request gives the field.
unfoldable pub check_optional_url : (String → Bool) → Option (Option String) → M (Unit {0})
check_optional_url is_url none = pure tt
check_optional_url is_url (some none) = pure tt
check_optional_url is_url (some (some item)) = fail_if (not (is_url item)) (api "invalid_url")

-- `naive_from_unix` of a time that may be left out, which the tables keep as its number of seconds.
-- `is_date` is whether the time library has a date for a number. If it has none it panics, which
-- ends the handler where it is, as an internal error does.
unfoldable pub naive_from_unix : (ℤ → Bool) → Option ℤ → M (Unit {0})
naive_from_unix is_date none = pure tt
naive_from_unix is_date (some time) = fail_if (not (is_date time)) internal
