-- ===== src/Browser/Url.antt =====
-- `new URL(url)` is a parameter of the model, a function to `Option Url` with `none` where the
-- constructor throws. This is what the pages do with its result.
use github_action_runners_mu.Prelude.{String, List, filter, truthy}
use github_action_runners_mu.Prelude.Text.{split}

pub record Url : Type 0 where
  pub host : String
  pub pathname : String

-- `urlObj.pathname.split("/").filter(Boolean)`
abbrev pub path_parts : Url → List String
path_parts u = filter truthy (split b'/' u.pathname)
