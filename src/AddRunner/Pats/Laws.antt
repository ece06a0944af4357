-- ===== src/AddRunner/Pats/Laws.antt =====
-- The theorems on the token inputs of web/src/pages/AddRunner.tsx.
use github_action_runners_mu.Prelude.{
  String, Bool, ◌&&◌, not, List, [], ◌∷◌, map, contains, any, ◌==◌, ◌≡◌, refl, arith, if_rule,
}
use github_action_runners_mu.Api.Types.{AdminRepo}
use github_action_runners_mu.Browser.Sets.{add, Nodup, contains-add}
use github_action_runners_mu.AddRunner.Form.{PatType, classic, fine_grained}
use github_action_runners_mu.AddRunner.Pats.{
  PatInput, get_pat_key, pat_input, inputs_from, pat_inputs,
}

abbrev pub keys : List PatInput → List String
keys = map (λ input. input.key)

pat_input_key : (t : PatType) (r : AdminRepo) → (pat_input t r).key ≡ get_pat_key t r
unfolding pat_input
pat_input_key classic r = refl
pat_input_key fine_grained r = refl

-- Some listed repo has the key.
abbrev pub has_key : PatType → String → List AdminRepo → Bool
has_key t k = any (λ r. get_pat_key t r == k)

contains-inputs_from :
    (t : PatType) (seen : List String) (rs : List AdminRepo) (k : String)
    → contains (keys (inputs_from t seen rs)) k ≡ (has_key t k rs && not (contains seen k))
unfolding inputs_from
contains-inputs_from t seen [] k = refl
contains-inputs_from t seen (r ∷ rs) k =
    let key = get_pat_key t r in
    ground (
      arith,
      pat_input_key t r,
      contains-add key k seen,
      contains-inputs_from t seen rs k,
      contains-inputs_from t (add key seen) rs k,
    )

inputs_from-Nodup :
    (t : PatType) (seen : List String) (rs : List AdminRepo) → Nodup (keys (inputs_from t seen rs))
unfolding inputs_from
inputs_from-Nodup t seen [] = tt
inputs_from-Nodup t seen (r ∷ rs) =
    let key = get_pat_key t r in
    if_rule (λ inputs. Nodup (keys inputs)) (contains seen key) (λ _. inputs_from-Nodup t seen rs)
      (λ _. (
        ground (
          arith,
          pat_input_key t r,
          contains-add key key seen,
          contains-inputs_from t (add key seen) rs key,
        ),
        inputs_from-Nodup t (add key seen) rs,
      ))

-- There is one token input for each key of a selected repo: the keys of the inputs are those of the
-- selected repos, and no two inputs have one key.
pub pat_inputs-keys :
    (t : PatType) (selected_repos : List AdminRepo) (k : String)
    → Nodup (keys (pat_inputs t selected_repos))
      × (contains (keys (pat_inputs t selected_repos)) k ≡ has_key t k selected_repos)
unfolding pat_inputs
pat_inputs-keys t selected_repos k = (
  inputs_from-Nodup t [] selected_repos,
  ground (arith, contains-inputs_from t [] selected_repos k),
)
