-- ===== src/AddRunner/Form/Laws.antt =====
-- The invariant of the form of web/src/pages/AddRunner.tsx that links the name to its flag.
use github_action_runners_mu.Prelude.{
  Char, String, true, false, List, [], ◌∷◌, ◌≡◌, refl, ◌⊎◌, inl, inr, ap, ◌∙◌,
}
use github_action_runners_mu.AddRunner.Name.{sanitize_name}
use github_action_runners_mu.AddRunner.Form.{Form, Input, initial, handle, handle_all}
use github_action_runners_mu.AddRunner.Name.Laws.{sanitize_name-fixed_iff}

-- A name that was not edited is empty.
abbrev pub IsNamed : Form → Type 0
IsNamed f = (f.name_manually_edited ≡ true) ⊎ (f.name ≡ "")

sanitize_name-nil : (lower : Char → String) → sanitize_name lower "" ≡ ""
sanitize_name-nil lower =
    (sanitize_name-fixed_iff lower "").1
      (record { allowed = refl; no_first = refl; no_last = refl; no_double = tt })

handle-IsNamed :
    (lower : Char → String) (f : Form) (i : Input) → IsNamed f → IsNamed (handle lower f i)
unfolding handle
handle-IsNamed lower f (Input.edit_name value) h = inl refl
handle-IsNamed lower f Input.reset_name h = inr refl
handle-IsNamed lower f Input.fix_format (inl e) = inl e
handle-IsNamed lower f Input.fix_format (inr e) =
    inr (ap (sanitize_name lower) e ∙ sanitize_name-nil lower)
handle-IsNamed lower f (Input.guide_open_change true) h = h
handle-IsNamed lower f (Input.guide_open_change false) h = h
handle-IsNamed lower f _ h = h

handle_all-IsNamed :
    (lower : Char → String) (f : Form) (is : List Input)
    → IsNamed f
    → IsNamed (handle_all lower f is)
unfolding handle_all
handle_all-IsNamed lower f [] h = h
handle_all-IsNamed lower f (i ∷ is) h =
    handle_all-IsNamed lower (handle lower f i) is (handle-IsNamed lower f i h)

-- Whatever the user does to the inputs, a name that is not marked as edited is empty.
pub initial-IsNamed :
    (lower : Char → String) (random_id : String) (is : List Input)
    → IsNamed (handle_all lower (initial random_id) is)
initial-IsNamed lower random_id is = handle_all-IsNamed lower (initial random_id) is (inr refl)
