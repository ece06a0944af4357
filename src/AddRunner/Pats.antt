-- ===== src/AddRunner/Pats.antt =====
-- The token inputs of web/src/pages/AddRunner.tsx: one for each key of the selected repos.
pub mod Laws
use github_action_runners_mu.Prelude.{
  String, ◌<>◌, Bool, true, false, ◌&&◌, List, [], ◌∷◌, ◌++◌, Option, none, some, contains, truthy,
  if◌then◌else◌, ◌==◌,
}
use github_action_runners_mu.Api.Types.{AdminRepo}
use github_action_runners_mu.Browser.Sets.{add}
use github_action_runners_mu.AddRunner.Form.{PatType, classic, fine_grained, GuideOwner, Form}

pub record PatInput : Type 0 where
  pub key : String
  pub host : String
  pub label : String
  pub scope_type : Option String

-- `getPatKey`, and the key in the loops of `patInputs`
unfoldable pub get_pat_key : PatType → AdminRepo → String
get_pat_key classic r = r.host <> ("/" <> r.type)
get_pat_key fine_grained r = r.host <> ("/" <> r.owner)

abbrev scope_label : AdminRepo → String
scope_label r = if r.type == "organization" then "Organization" else "Repository"

-- The entry that a repo adds.
unfoldable pub pat_input : PatType → AdminRepo → PatInput
unfolding get_pat_key
pat_input classic r = record {
  key = get_pat_key classic r;
  host = r.host;
  label = r.host <> (" (" <> (scope_label r <> " scopes)"));
  scope_type = some r.type;
}
pat_input fine_grained r = record {
  key = get_pat_key fine_grained r;
  host = r.host;
  label = r.owner <> (" (" <> (r.host <> ")"));
  scope_type = none;
}

-- The loop of `patInputs`, with the keys seen so far.
unfoldable pub inputs_from : PatType → List String → List AdminRepo → List PatInput
inputs_from t seen [] = []
inputs_from t seen (r ∷ rs) =
    let key = get_pat_key t r in
    let skip = inputs_from t seen rs in
    let more = pat_input t r ∷ inputs_from t (add key seen) rs in
    if contains seen key then skip else more

unfoldable pub pat_inputs : PatType → List AdminRepo → List PatInput
unfolding inputs_from
pat_inputs t selected_repos = inputs_from t [] selected_repos

-- The types of the selected repos of one owner, added to a set.
unfoldable pub owner_types : GuideOwner → List String → List AdminRepo → List String
owner_types o types [] = types
owner_types o types (r ∷ rs) =
    owner_types o (if r.host == o.host && r.owner == o.owner then add r.type types else types) rs

abbrev classic_types : Option String → List String
classic_types none = []
classic_types (some t) = if truthy t then t ∷ [] else []

-- `patGuideScopeTypes`
unfoldable pub pat_guide_scope_types : Form → List String
unfolding owner_types
pat_guide_scope_types f = elim f.pat_guide_owner [
  | none ↦ []
  | some o ↦ elim f.pat_type [
    | classic ↦ classic_types o.scope_type
    | fine_grained ↦ owner_types o [] f.selected_repos
  ]
]
