-- ===== src/Pool/Recovery.antt =====
-- recoverState (orchestrator/events.go): the workers of the containers that run when the program
-- starts. Restart says what it recovers.
pub mod Restart
use github_action_runners_mu.Prelude.{
  not, [], ◌∷◌, if◌then◌else◌, ◌==◌, String, Option, none, some, List,
}
use github_action_runners_mu.Prelude.Text.{starts_with}
use github_action_runners_mu.Prelude.Dict.{store}
use github_action_runners_mu.Pool.{Orchestrator, increment}
use github_action_runners_mu.Pool.Names.{
  name_prefix_warm, name_prefix_active, trim_prefix, parse_runner_from_active_name,
}

-- What Docker lists of a container with the label, its names with a slash.
pub record Container : Type 0 where
  pub id : String
  pub state : String
  pub names : List String
  pub addresses : List String

-- firstIP, of the networks in the order in which the range meets them
unfoldable pub first_ip : Container → String
first_ip c = elim c.addresses [ [] ↦ "" | ip ∷ ips ↦ ip ]

unfoldable pub container_name : Container → String
unfolding trim_prefix
container_name c = elim c.names [ [] ↦ "" | name ∷ names ↦ trim_prefix name "/" ]

unfoldable pub recover_container : Container → Orchestrator → Orchestrator
unfolding increment first_ip container_name parse_runner_from_active_name
recover_container c o =
    let name = container_name c in
    let ip = first_ip c in
    if not (c.state == "running")
    then o
    else if starts_with name name_prefix_active
    then increment (parse_runner_from_active_name name) (record o {
      active_workers =
          store c.id
            (record {
              container_id = c.id;
              ip_address = ip;
              runner_name = parse_runner_from_active_name name;
            })
            o.active_workers;
    })
    else if starts_with name name_prefix_warm
    then record o {
      warm_pool = store c.id (record { container_id = c.id; ip_address = ip }) o.warm_pool;
    }
    else o

unfoldable pub recover_containers : List Container → Orchestrator → Orchestrator
recover_containers [] o = o
recover_containers (c ∷ cs) o = recover_containers cs (recover_container c o)

-- recoverState, where `none` is that the containers cannot be listed
unfoldable pub recover_state : Option (List Container) → Orchestrator → Orchestrator
unfolding recover_containers
recover_state none o = o
recover_state (some cs) o = recover_containers cs o
