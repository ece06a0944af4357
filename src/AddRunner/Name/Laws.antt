-- ===== src/AddRunner/Name/Laws.antt =====
-- The theorems on the name helpers of web/src/pages/AddRunner.tsx.
use Prim.Native.String.{[], ◌∷◌}
use text.Mathlib.TextLemmas.{nil-append, cons-append, append-eq-nil_iff, cons≢nil}
use github_action_runners_mu.Prelude.{
  Char, String, true, ◌≡◌, refl, ap, arith, ◌≢◌, ◌↔◌, ◌∙◌, sym, ◌<>◌, if_rule, truthy,
}
use github_action_runners_mu.Prelude.Text.{to_lower_case, lower_char}
use github_action_runners_mu.AddRunner.Name.{
  is_dash, is_allowed, replace_disallowed, collapse_dashes, all_allowed, sanitize_name,
  is_valid_name, generate_name,
}
use github_action_runners_mu.AddRunner.Name.Slug.{
  IsSlug, strip-IsSlug, all_allowed-replace_disallowed, all_allowed-collapse_dashes,
  collapse_dashes-NoDoubleDash, word_free, word_free-steps, eq-nil_of_word_free, all_allowed-append,
  replace_disallowed_of_allowed, collapse_dashes_of_NoDoubleDash, strip_first_of_no_first,
  strip_last_of_no_last,
}
use mathlib.Core.Bool.{false≢true}
use github_action_runners_mu.Api.Types.{AdminRepo}

-- An allowed character is ASCII and no capital, so it is its own lower case.
lower_char_of_allowed :
    (lower : Char → String) (c : Char) → is_allowed c ≡ true → lower_char lower c ≡ c ∷ []
unfolding lower_char is_allowed is_dash
lower_char_of_allowed lower c h = ground arith

to_lower_case_of_allowed :
    (lower : Char → String) (s : String) → all_allowed s ≡ true → to_lower_case lower s ≡ s
unfolding to_lower_case
to_lower_case_of_allowed lower [] h = refl
to_lower_case_of_allowed lower (c ∷ s) h =
    rw (lower_char_of_allowed lower c (ground arith), cons-append, nil-append)
      (ap (λ t. c ∷ t) (to_lower_case_of_allowed lower s (ground arith)))

sanitize_name-IsSlug : (lower : Char → String) (s : String) → IsSlug (sanitize_name lower s)
unfolding sanitize_name
sanitize_name-IsSlug lower s =
    let r = replace_disallowed (to_lower_case lower s) in
    strip-IsSlug (collapse_dashes r)
      (all_allowed-collapse_dashes r (all_allowed-replace_disallowed (to_lower_case lower s)))
      (collapse_dashes-NoDoubleDash r)

sanitize_name_of_IsSlug :
    (lower : Char → String) (s : String) → IsSlug s → sanitize_name lower s ≡ s
unfolding sanitize_name
sanitize_name_of_IsSlug lower s h = rw (
  to_lower_case_of_allowed lower s h.allowed,
  replace_disallowed_of_allowed s h.allowed,
  collapse_dashes_of_NoDoubleDash s h.no_double,
  strip_first_of_no_first s h.no_first,
  strip_last_of_no_last s h.no_last,
)

-- `sanitizeName` leaves a text as it is exactly if it has only lower-case ASCII letters, digits,
-- underscores and dashes, no dash at either end, and no two dashes in a row.
pub sanitize_name-fixed_iff :
    (lower : Char → String) (s : String) → (sanitize_name lower s ≡ s) ↔ IsSlug s
sanitize_name-fixed_iff lower s =
    (λ e. rw e at (sanitize_name-IsSlug lower s), sanitize_name_of_IsSlug lower s)

-- The sanitized text is empty exactly if the lower-cased text has no ASCII letter, digit or
-- underscore.
pub sanitize_name-eq-nil_iff :
    (lower : Char → String) (s : String)
    → (sanitize_name lower s ≡ "") ↔ (word_free (to_lower_case lower s) ≡ true)
unfolding sanitize_name
sanitize_name-eq-nil_iff lower s = (
  λ e. sym (word_free-steps (to_lower_case lower s)) ∙ ap word_free e,
  λ w.
      eq-nil_of_word_free _ (unfold sanitize_name in sanitize_name-IsSlug lower s)
        (word_free-steps (to_lower_case lower s) ∙ w),
)

is_valid_name_of_allowed : (s : String) → all_allowed s ≡ true → s ≢ "" → is_valid_name s ≡ true
unfolding is_valid_name
is_valid_name_of_allowed [] h n = absurd (n refl)
is_valid_name_of_allowed (c ∷ s) h n = h

-- A sanitized name passes the form's validation unless nothing is left of it.
is_valid_name-sanitize_name :
    (lower : Char → String) (s : String)
    → (is_valid_name (sanitize_name lower s) ≡ true) ↔ (sanitize_name lower s ≢ "")
unfolding is_valid_name
is_valid_name-sanitize_name lower s = (
  λ v e. false≢true (rw e at v),
  is_valid_name_of_allowed (sanitize_name lower s) (sanitize_name-IsSlug lower s).allowed,
)

all_allowed-dash : (s : String) → all_allowed ("-" <> s) ≡ all_allowed s
unfolding is_allowed is_dash
all_allowed-dash s = all_allowed-append "-" s

dash-append-ne-nil : (s t : String) → s <> ("-" <> t) ≢ ""
dash-append-ne-nil s t e = cons≢nil (append-eq-nil_iff.0 (append-eq-nil_iff.0 e).1).0

-- A generated name passes the validation, whatever the owner and the repository are called, if the
-- random identifier has allowed characters only.
pub is_valid_name-generate_name :
    (lower : Char → String) (random_id : String) (repo : AdminRepo)
    → all_allowed random_id ≡ true
    → is_valid_name (generate_name lower random_id repo) ≡ true
unfolding generate_name
is_valid_name-generate_name lower random_id repo h =
    let owner = (sanitize_name-IsSlug lower repo.owner).allowed in
    let name = (sanitize_name-IsSlug lower repo.repo).allowed in
    if_rule (λ t. is_valid_name t ≡ true) (truthy repo.repo)
      (λ _.
        is_valid_name_of_allowed _
          (rw
            (
              all_allowed-append, all_allowed-dash, all_allowed-append, all_allowed-dash, owner,
              name,
            )
            h)
          (dash-append-ne-nil _ _))
      (λ _.
        is_valid_name_of_allowed _ (rw (all_allowed-append, all_allowed-dash, owner) h)
          (dash-append-ne-nil _ _))
