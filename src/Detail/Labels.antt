-- ===== src/Detail/Labels.antt =====
-- The labels of a runner, from the form of web/src/pages/RunnerDetail.tsx to the backend, which
-- stores them joined by commas (pkg/dashboard/service.go, UpdateRunner), and back.
use Prim.Native.String.{[], ◌∷◌}
use mathlib.Core.Bool.{false≢true}
use mathlib.Core.Option.{none-ne-some, some-injective}
use text.Mathlib.TextLemmas.{cons-append, nil-append}
use github_action_runners_mu.Prelude.{
  Char, String, ◌<>◌, Bool, true, false, ◌&&◌, not, List, map, some, ◌≡◌, refl, sym, ap, ◌∙◌, arith,
  All, if_rule, Bool-cases, inl, inr, truthy, is_empty,
}
use github_action_runners_mu.Prelude.Text.{
  code_is, split, cons_head, trim, trim_start, trim_end, keep_end, is_space,
}
use github_action_runners_mu.AddRunner.Submit.{split_labels}

trim_start_idem : (s : String) → trim_start (trim_start s) ≡ trim_start s
unfolding trim_start
trim_start_idem [] = refl
trim_start_idem (c ∷ s) = elim (Bool-cases (is_space c)) [
  | inl e ↦ rw e (trim_start_idem s)
  | inr e ↦ rw (e, e) refl
]

keep_end-fixed :
    (b : Bool) (c : Char) (x : String)
    → trim_end x ≡ x
    → is_space c ≡ b
    → trim_end (keep_end b c x) ≡ keep_end b c x
unfolding trim_end
keep_end-fixed true c [] h e = refl
keep_end-fixed true c (d ∷ x) h e = ap (keep_end (is_space c) c) h ∙ rw e refl
keep_end-fixed false c x h e = ap (keep_end (is_space c) c) h ∙ rw e refl

trim_end_idem : (s : String) → trim_end (trim_end s) ≡ trim_end s
unfolding trim_end
trim_end_idem [] = refl
trim_end_idem (c ∷ s) = keep_end-fixed (is_space c) c (trim_end s) (trim_end_idem s) refl

abbrev is_nil : String → Bool
is_nil [] = true
is_nil (c ∷ s) = false

abbrev tail : String → String
tail [] = ""
tail (c ∷ s) = s

-- If a text that starts with a space has nothing to trim at its end, neither has its rest.
keep_end-tail : (c : Char) (x s : String) → keep_end true c x ≡ c ∷ s → x ≡ s
keep_end-tail c [] s h = absurd (false≢true (sym (ap is_nil h)))
keep_end-tail c (d ∷ x) s h = ap tail h

trim_end-trim_start : (t : String) → trim_end t ≡ t → trim_end (trim_start t) ≡ trim_start t
unfolding trim_end trim_start
trim_end-trim_start [] h = refl
trim_end-trim_start (c ∷ s) h = elim (Bool-cases (is_space c)) [
  | inl e ↦ rw e (trim_end-trim_start s (keep_end-tail c (trim_end s) s (rw e at h)))
  | inr e ↦ rw e h
]

trim_idem : (s : String) → trim (trim s) ≡ trim s
unfolding trim
trim_idem s = rw (trim_end-trim_start (trim_end s) (trim_end_idem s)) (trim_start_idem (trim_end s))

abbrev is_comma_free : String → Bool
is_comma_free [] = true
is_comma_free (c ∷ s) = not (code_is b',' c) && is_comma_free s

-- `strings.Join(labels, ",")`
unfoldable pub join_labels : List String → String
join_labels List.[] = ""
join_labels (List.◌∷◌ p List.[]) = p
join_labels (List.◌∷◌ p (List.◌∷◌ q ps)) = p <> ("," <> join_labels (List.◌∷◌ q ps))

cons_head-free :
    (c : Char) (ps : List String)
    → code_is b',' c ≡ false
    → All (λ p. is_comma_free p ≡ true) ps
    → All (λ p. is_comma_free p ≡ true) (cons_head c ps)
cons_head-free c List.[] e h = (ground arith, tt)
cons_head-free c (List.◌∷◌ p ps) e (h, hs) = (ground arith, hs)

split-free : (s : String) → All (λ p. is_comma_free p ≡ true) (split b',' s)
unfolding split
split-free [] = (refl, tt)
split-free (c ∷ s) =
    if_rule (All (λ p. is_comma_free p ≡ true)) (code_is b',' c) (λ _. (refl, split-free s))
      (λ e. cons_head-free c (split b',' s) e (split-free s))

keep_end-free :
    (b : Bool) (c : Char) (x : String)
    → code_is b',' c ≡ false
    → is_comma_free x ≡ true
    → is_comma_free (keep_end b c x) ≡ true
keep_end-free true c [] e h = refl
keep_end-free true c (d ∷ x) e h = ground arith
keep_end-free false c x e h = ground arith

trim_end-free : (s : String) → is_comma_free s ≡ true → is_comma_free (trim_end s) ≡ true
unfolding trim_end
trim_end-free [] h = refl
trim_end-free (c ∷ s) h =
    keep_end-free (is_space c) c (trim_end s) (ground arith) (trim_end-free s (ground arith))

trim_start-free : (s : String) → is_comma_free s ≡ true → is_comma_free (trim_start s) ≡ true
unfolding trim_start
trim_start-free [] h = refl
trim_start-free (c ∷ s) h =
    if_rule (λ (t : String). is_comma_free t ≡ true) (is_space c)
      (λ _. trim_start-free s (ground arith)) (λ _. h)

trim-free :
    (ps : List String)
    → All (λ p. is_comma_free p ≡ true) ps
    → All (λ p. is_comma_free p ≡ true) (map trim ps)
unfolding trim
trim-free List.[] h = tt
trim-free (List.◌∷◌ p ps) (h, hs) =
    (trim_start-free (trim_end p) (trim_end-free p h), trim-free ps hs)

split-before :
    (s t : String)
    → is_comma_free s ≡ true
    → split b',' (s <> ("," <> t)) ≡ List.◌∷◌ s (split b',' t)
unfolding split
split-before [] t h = rw (nil-append ("," <> t), cons-append "," "" t, nil-append t) refl
split-before (c ∷ s) t h =
    rw (cons-append c s ("," <> t), split-before s t (ground arith)) (ground arith)

split-whole : (s : String) → is_comma_free s ≡ true → split b',' s ≡ List.◌∷◌ s List.[]
unfolding split
split-whole [] h = refl
split-whole (c ∷ s) h = rw (split-whole s (ground arith)) (ground arith)

split-join :
    (p : String) (ps : List String)
    → All (λ q. is_comma_free q ≡ true) (List.◌∷◌ p ps)
    → split b',' (join_labels (List.◌∷◌ p ps)) ≡ List.◌∷◌ p ps
unfolding join_labels
split-join p List.[] (h, tt) = split-whole p h
split-join p (List.◌∷◌ q ps) (h, hs) =
    split-before p (join_labels (List.◌∷◌ q ps)) h ∙ ap (List.◌∷◌ p) (split-join q ps hs)

map-trim_idem : (ps : List String) → map trim (map trim ps) ≡ map trim ps
map-trim_idem List.[] = refl
map-trim_idem (List.◌∷◌ p ps) = rw (trim_idem p, map-trim_idem ps) refl

resplit :
    (ps : List String)
    → is_empty ps ≡ false
    → All (λ p. is_comma_free p ≡ true) ps
    → map trim (split b',' (join_labels (map trim ps))) ≡ map trim ps
resplit List.[] e h = absurd (false≢true (sym e))
resplit (List.◌∷◌ p ps) e h =
    rw (split-join (trim p) (map trim ps) (trim-free (List.◌∷◌ p ps) h))
      (map-trim_idem (List.◌∷◌ p ps))

cons_head-ne-nil : (c : Char) (ps : List String) → is_empty (cons_head c ps) ≡ false
cons_head-ne-nil c List.[] = refl
cons_head-ne-nil c (List.◌∷◌ p ps) = refl

split-ne-nil : (s : String) → is_empty (split b',' s) ≡ false
unfolding split
split-ne-nil [] = refl
split-ne-nil (c ∷ s) =
    if_rule (λ (ps : List String). is_empty ps ≡ false) (code_is b',' c) (λ _. refl)
      (λ _. cons_head-ne-nil c (split b',' s))

-- Labels that a form sends, joined by commas as the backend stores them, are sent again just as they
-- are by a form that is filled with them, unless the stored text is empty.
pub split_labels-join_labels :
    (labels : String) (sent : List String)
    → split_labels labels ≡ some sent
    → truthy (join_labels sent) ≡ true
    → split_labels (join_labels sent) ≡ some sent
unfolding split_labels
split_labels-join_labels labels sent h t = elim (Bool-cases (truthy labels)) [
  | inr e ↦ absurd (none-ne-some sent (rw e at h))
  | inl e ↦
      let same = some-injective _ _ (rw e at h) in
      rw t (
        ap some
          (rw (← same) (resplit (split b',' labels) (split-ne-nil labels) (split-free labels))))
]
