-- ===== src/AddRunner/Name/Slug.antt =====
-- What `sanitizeName` produces: texts of allowed characters with no dash at either end and no two
-- dashes in a row.
use Prim.Native.String.{[], ◌∷◌}
use text.Mathlib.TextLemmas.{nil-append, cons-append}
use github_action_runners_mu.Prelude.{
  Char, String, ◌<>◌, Bool, true, false, ◌&&◌, ◌||◌, ◌≡◌, refl, ◌∙◌, inl, inr, arith, if◌then◌else◌,
  Bool-cases, if_rule, not,
}
use github_action_runners_mu.AddRunner.Name.{
  is_dash, is_allowed, dash, replace_disallowed, starts_dash, collapse_dashes, strip_first,
  strip_last, all_allowed,
}

is_allowed-dash : is_allowed dash ≡ true
unfolding is_allowed
is_allowed-dash = refl

is_allowed_or_dash : (c : Char) → is_allowed (if is_allowed c then c else dash) ≡ true
is_allowed_or_dash c = elim (Bool-cases (is_allowed c)) [
  | inl e ↦ rw e e
  | inr e ↦ rw e is_allowed-dash
]

-- No two dashes in a row.
abbrev pub NoDoubleDash : String → Type 0
NoDoubleDash [] = Unit
NoDoubleDash (c ∷ s) = ((is_dash c && starts_dash s) ≡ false) × NoDoubleDash s

abbrev pub ends_dash : String → Bool
ends_dash [] = false
ends_dash (c ∷ []) = is_dash c
ends_dash (c ∷ d ∷ s) = ends_dash (d ∷ s)

pub record IsSlug (s : String) : Type 0 where
  pub allowed : all_allowed s ≡ true
  pub no_first : starts_dash s ≡ false
  pub no_last : ends_dash s ≡ false
  pub no_double : NoDoubleDash s

pub all_allowed-replace_disallowed : (s : String) → all_allowed (replace_disallowed s) ≡ true
unfolding replace_disallowed
all_allowed-replace_disallowed [] = refl
all_allowed-replace_disallowed (c ∷ s) =
    rw (is_allowed_or_dash c) (all_allowed-replace_disallowed s)

pub all_allowed-collapse_dashes :
    (s : String) → all_allowed s ≡ true → all_allowed (collapse_dashes s) ≡ true
unfolding collapse_dashes
all_allowed-collapse_dashes [] h = refl
all_allowed-collapse_dashes (c ∷ s) h = ground (arith, all_allowed-collapse_dashes s)

starts_dash-collapse_dashes : (s : String) → starts_dash (collapse_dashes s) ≡ starts_dash s
unfolding collapse_dashes
starts_dash-collapse_dashes [] = refl
starts_dash-collapse_dashes (c ∷ s) = ground (arith, starts_dash-collapse_dashes s)

pub collapse_dashes-NoDoubleDash : (s : String) → NoDoubleDash (collapse_dashes s)
unfolding collapse_dashes
collapse_dashes-NoDoubleDash [] = tt
collapse_dashes-NoDoubleDash (c ∷ s) =
    ground (arith, collapse_dashes-NoDoubleDash s, starts_dash-collapse_dashes s)

all_allowed-strip_first : (s : String) → all_allowed s ≡ true → all_allowed (strip_first s) ≡ true
unfolding strip_first
all_allowed-strip_first [] h = refl
all_allowed-strip_first (c ∷ s) h = ground arith

strip_first-NoDoubleDash : (s : String) → NoDoubleDash s → NoDoubleDash (strip_first s)
unfolding strip_first
strip_first-NoDoubleDash [] h = tt
strip_first-NoDoubleDash (c ∷ s) h = ground arith

starts_dash-strip_first : (s : String) → NoDoubleDash s → starts_dash (strip_first s) ≡ false
unfolding strip_first
starts_dash-strip_first [] h = refl
starts_dash-strip_first (c ∷ s) h = ground arith

all_allowed-strip_last : (s : String) → all_allowed s ≡ true → all_allowed (strip_last s) ≡ true
unfolding strip_last
all_allowed-strip_last [] h = refl
all_allowed-strip_last (c ∷ []) h =
    if_rule (λ t. all_allowed t ≡ true) (is_dash c) (λ _. refl) (λ _. h)
all_allowed-strip_last (c ∷ d ∷ s) h = ground (arith, all_allowed-strip_last (d ∷ s))

starts_dash-strip_last : (s : String) → starts_dash s ≡ false → starts_dash (strip_last s) ≡ false
unfolding strip_last
starts_dash-strip_last [] h = refl
starts_dash-strip_last (c ∷ []) h = ground arith
starts_dash-strip_last (c ∷ d ∷ s) h = h

starts_dash-strip_last_le : (s : String) → starts_dash (strip_last s) ≡ true → starts_dash s ≡ true
unfolding strip_last
starts_dash-strip_last_le [] h = h
starts_dash-strip_last_le (c ∷ []) h = ground arith
starts_dash-strip_last_le (c ∷ d ∷ s) h = h

strip_last-NoDoubleDash : (s : String) → NoDoubleDash s → NoDoubleDash (strip_last s)
unfolding strip_last
strip_last-NoDoubleDash [] h = tt
strip_last-NoDoubleDash (c ∷ []) h = if_rule NoDoubleDash (is_dash c) (λ _. tt) (λ _. h)
strip_last-NoDoubleDash (c ∷ d ∷ s) (p, h) =
    (ground (arith, starts_dash-strip_last_le (d ∷ s)), strip_last-NoDoubleDash (d ∷ s) h)

ends_dash-strip_last : (s : String) → NoDoubleDash s → ends_dash (strip_last s) ≡ false
unfolding strip_last
ends_dash-strip_last [] h = refl
ends_dash-strip_last (c ∷ []) h =
    if_rule (λ t. ends_dash t ≡ false) (is_dash c) (λ _. refl) (λ e. e)
ends_dash-strip_last (c ∷ d ∷ []) h =
    if_rule (λ t. ends_dash (c ∷ t) ≡ false) (is_dash d) (λ e. ground arith) (λ e. e)
ends_dash-strip_last (c ∷ d ∷ e ∷ s) h = ends_dash-strip_last (d ∷ e ∷ s) h.1

-- Stripping a text with no double dash leaves a slug.
pub strip-IsSlug :
    (s : String) → all_allowed s ≡ true → NoDoubleDash s → IsSlug (strip_last (strip_first s))
strip-IsSlug s a d =
    let d' = strip_first-NoDoubleDash s d in
    record {
      allowed = all_allowed-strip_last (strip_first s) (all_allowed-strip_first s a);
      no_first = starts_dash-strip_last (strip_first s) (starts_dash-strip_first s d);
      no_last = ends_dash-strip_last (strip_first s) d';
      no_double = strip_last-NoDoubleDash (strip_first s) d';
    }

-- Each step leaves a slug alone.
pub replace_disallowed_of_allowed : (s : String) → all_allowed s ≡ true → replace_disallowed s ≡ s
unfolding replace_disallowed
replace_disallowed_of_allowed [] h = refl
replace_disallowed_of_allowed (c ∷ s) h = ground (arith, replace_disallowed_of_allowed s)

pub collapse_dashes_of_NoDoubleDash : (s : String) → NoDoubleDash s → collapse_dashes s ≡ s
unfolding collapse_dashes
collapse_dashes_of_NoDoubleDash [] h = refl
collapse_dashes_of_NoDoubleDash (c ∷ s) h = ground (arith, collapse_dashes_of_NoDoubleDash s h.1)

pub strip_first_of_no_first : (s : String) → starts_dash s ≡ false → strip_first s ≡ s
unfolding strip_first
strip_first_of_no_first [] h = refl
strip_first_of_no_first (c ∷ s) h = ground arith

pub strip_last_of_no_last : (s : String) → ends_dash s ≡ false → strip_last s ≡ s
unfolding strip_last
strip_last_of_no_last [] h = refl
strip_last_of_no_last (c ∷ []) h = ground arith
strip_last_of_no_last (c ∷ d ∷ s) h = rw (strip_last_of_no_last (d ∷ s) h)

-- A text with no letter, digit or underscore of the allowed ones.
abbrev pub word_free : String → Bool
word_free [] = true
word_free (c ∷ s) = (not (is_allowed c) || is_dash c) && word_free s

is_dash-dash : is_dash dash ≡ true
unfolding is_dash
is_dash-dash = refl

word_free-replace_disallowed : (s : String) → word_free (replace_disallowed s) ≡ word_free s
unfolding replace_disallowed
word_free-replace_disallowed [] = refl
word_free-replace_disallowed (c ∷ s) = elim (Bool-cases (is_allowed c)) [
  | inl e ↦ rw e (rw (word_free-replace_disallowed s, e))
  | inr e ↦ rw e (rw (word_free-replace_disallowed s, is_allowed-dash, is_dash-dash))
]

word_free-collapse_dashes : (s : String) → word_free (collapse_dashes s) ≡ word_free s
unfolding collapse_dashes
word_free-collapse_dashes [] = refl
word_free-collapse_dashes (c ∷ s) = ground (arith, word_free-collapse_dashes s)

word_free-strip_first : (s : String) → word_free (strip_first s) ≡ word_free s
unfolding strip_first
word_free-strip_first [] = refl
word_free-strip_first (c ∷ s) = ground arith

word_free-strip_last : (s : String) → word_free (strip_last s) ≡ word_free s
unfolding strip_last
word_free-strip_last [] = refl
word_free-strip_last (c ∷ []) =
    if_rule (λ t. word_free t ≡ word_free (c ∷ [])) (is_dash c) (λ e. ground arith) (λ _. refl)
word_free-strip_last (c ∷ d ∷ s) = rw (word_free-strip_last (d ∷ s))

-- No step adds or takes away a letter, digit or underscore.
pub word_free-steps :
    (s : String)
    → word_free (strip_last (strip_first (collapse_dashes (replace_disallowed s)))) ≡ word_free s
word_free-steps s =
    word_free-strip_last _
    ∙ word_free-strip_first _
    ∙ word_free-collapse_dashes _
    ∙ word_free-replace_disallowed s

pub eq-nil_of_word_free : (s : String) → IsSlug s → word_free s ≡ true → s ≡ ""
eq-nil_of_word_free [] h w = refl
eq-nil_of_word_free (c ∷ s) h w = let a = h.allowed in let d = h.no_first in ground arith

pub all_allowed-append : (s t : String) → all_allowed (s <> t) ≡ (all_allowed s && all_allowed t)
all_allowed-append [] t = rw nil-append
all_allowed-append (c ∷ s) t = rw (cons-append, all_allowed-append s t) (ground arith)
