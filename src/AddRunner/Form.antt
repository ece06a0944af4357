-- ===== src/AddRunner/Form.antt =====
-- The state of AddRunner (web/src/pages/AddRunner.tsx) and the handlers of its inputs. The mode
-- toggle has two items, so the mode is a data type with the items' values as texts.
pub mod Laws
use github_action_runners_mu.Prelude.{
  Char, String, Bool, true, false, ◌&&◌, ◌||◌, not, List, [], ◌∷◌, Option, none, some, is_empty,
  if◌then◌else◌, ◌==◌,
}
use github_action_runners_mu.Prelude.Int.{ℤ, pos}
use github_action_runners_mu.Prelude.Text.{parse_int_or}
use github_action_runners_mu.Api.Types.{AdminRepo}
use github_action_runners_mu.Browser.Sets.{put}
use github_action_runners_mu.AddRunner.Name.{sanitize_name}

pub data Mode : Type 0 where
  standalone scaleset : Mode

abbrev pub mode_text : Mode → String
mode_text standalone = "standalone"
mode_text scaleset = "scaleset"

-- OTHER_MODE
abbrev pub other_mode : Mode → Mode
other_mode standalone = scaleset
other_mode scaleset = standalone

pub data PatType : Type 0 where
  classic fine_grained : PatType

pub record GuideOwner : Type 0 where
  pub host : String
  pub owner : String
  pub scope_type : Option String

pub record Form : Type 0 where
  pub mode : Mode
  pub selected_repos : List AdminRepo
  pub pats : List (String × String)
  pub name : String
  pub group : String
  pub labels : String
  pub max_runners : ℤ
  pub loading : Bool
  pub name_manually_edited : Bool
  pub dialog_open : Bool
  pub pat_type : PatType
  pub pat_guide_owner : Option GuideOwner
  pub random_id : String

-- The initial values of the page's state.
abbrev pub initial : String → Form
initial random_id = record {
  mode = standalone;
  selected_repos = [];
  pats = [];
  name = "";
  group = "";
  labels = "";
  max_runners = pos 0;
  loading = false;
  name_manually_edited = false;
  dialog_open = false;
  pat_type = classic;
  pat_guide_owner = none;
  random_id = random_id;
}

-- What the user does to an input.
pub data Input : Type 0 where
  open_dialog : Input
  close_dialog : Input
  confirm_selection : List AdminRepo → Input
  toggle_mode : List Mode → Input
  edit_name : String → Input
  reset_name : Input
  fix_format : Input
  edit_labels : String → Input
  edit_max_runners : String → Input
  toggle_pat_type : List PatType → Input
  edit_pat : (key value : String) → Input
  open_guide : GuideOwner → Input
  guide_open_change : Bool → Input
  edit_group : String → Input

-- A toggle group hands over its pressed items: an empty list changes nothing.
abbrev toggle_to {ℓ} : {A : Type ℓ} → A → List A → A
toggle_to old [] = old
toggle_to old (v ∷ vs) = v

-- The handlers of the inputs. `confirm_selection` is `onConfirm` of the selection dialog, which
-- closes it.
unfoldable pub handle : (Char → String) → Form → Input → Form
handle lower f open_dialog = record f { dialog_open = true }
handle lower f close_dialog = record f { dialog_open = false }
handle lower f (confirm_selection repos) = record f { selected_repos = repos; dialog_open = false }
handle lower f (toggle_mode val) = record f { mode = toggle_to f.mode val }
handle lower f (edit_name value) = record f { name = value; name_manually_edited = true }
handle lower f reset_name = record f { name = ""; name_manually_edited = false }
handle lower f fix_format = record f { name = sanitize_name lower f.name }
handle lower f (edit_labels value) = record f { labels = value }
handle lower f (edit_max_runners value) = record f { max_runners = parse_int_or value 0 }
handle lower f (toggle_pat_type val) = record f { pat_type = toggle_to f.pat_type val }
handle lower f (edit_pat key value) = record f { pats = put key value f.pats }
handle lower f (open_guide owner) = record f { pat_guide_owner = some owner }
handle lower f (guide_open_change true) = f
handle lower f (guide_open_change false) = record f { pat_guide_owner = none }
handle lower f (edit_group value) = record f { group = value }

-- The form after a list of inputs.
unfoldable pub handle_all : (Char → String) → Form → List Input → Form
handle_all lower f [] = f
handle_all lower f (i ∷ is) = handle_all lower (handle lower f i) is
