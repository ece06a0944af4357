-- ===== src/Pool/Counts/Start.antt =====
-- The recovered state (orchestrator/events.go, recoverState) has true counters.
use github_action_runners_mu.Prelude.{
  String, ◌≡◌, refl, false, not, List, [], ◌∷◌, arith, ◌==◌, if_rule, contains,
}
use github_action_runners_mu.Prelude.Int.{ℤ}
use github_action_runners_mu.Prelude.Text.{starts_with}
use github_action_runners_mu.Prelude.Dict.{lookup, store, occurs, occurs-store_new, lookup-store}
use github_action_runners_mu.Pool.{
  WarmWorker, Orchestrator, new_orchestrator, count, broadcast, increment, total_assigned,
  register_worker,
}
use github_action_runners_mu.Pool.Names.{
  name_prefix_warm, name_prefix_active, parse_runner_from_active_name,
}
use github_action_runners_mu.Pool.Recovery.{
  Container, first_ip, container_name, recover_container, recover_containers, recover_state,
}
use github_action_runners_mu.Pool.System.{seen, start}
use github_action_runners_mu.Pool.Counts.{
  workers_of, IsCounted, register_worker-IsTallied, IsFresh, AreCounted,
}

abbrev IsRecovered : Orchestrator → List String → Type 0
IsRecovered o used =
    AreCounted o.warm_pool [] o.active_workers o.active_listeners used o.booting_count 0
      o.pending_allocations 0

warm_more :
    (id : String) (ww : WarmWorker) (o : Orchestrator) (used : List String)
    → contains used id ≡ false
    → ww.container_id ≡ id
    → IsRecovered o used
    → IsRecovered (record o { warm_pool = store id ww o.warm_pool }) (id ∷ used)
warm_more id ww o used new same h =
    let out : occurs id o.warm_pool ≡ 0 = ground (arith, h.owned id) in
    record {
      owned = λ j. ground (arith, h.owned j, h.owned id, occurs-store_new j id ww o.warm_pool out);
      keyed =
          ((λ j w e. ground (arith, h.keyed.0 j w, lookup-store j id ww o.warm_pool)), h.keyed.1);
      tallied = h.tallied;
      boots = h.boots;
      waits = h.waits;
    }

active_more :
    (ww : WarmWorker) (name : String) (o : Orchestrator) (used : List String)
    → contains used ww.container_id ≡ false
    → IsRecovered o used
    → IsRecovered (register_worker ww name o) (ww.container_id ∷ used)
unfolding register_worker increment broadcast
active_more ww name o used new h =
    let out : occurs ww.container_id o.active_workers ≡ 0 =
      ground (arith, h.owned ww.container_id) in
    record {
      owned = λ j. ground (
        arith,
        h.owned j,
        h.owned ww.container_id,
        occurs-store_new j ww.container_id
            (record {
              container_id = ww.container_id;
              ip_address = ww.ip_address;
              runner_name = name;
            })
            o.active_workers out,
      );
      keyed = h.keyed;
      tallied = register_worker-IsTallied ww name o out h.tallied;
      boots = h.boots;
      waits = h.waits;
    }

seen_more :
    (id : String) (o : Orchestrator) (used : List String)
    → IsRecovered o used
    → IsRecovered o (id ∷ used)
seen_more id o used h = record {
  owned = λ j. ground (arith, h.owned j);
  keyed = h.keyed;
  tallied = h.tallied;
  boots = h.boots;
  waits = h.waits;
}

recover_container-IsRecovered :
    (c : Container) (o : Orchestrator) (used : List String)
    → contains used c.id ≡ false
    → IsRecovered o used
    → IsRecovered (recover_container c o) (c.id ∷ used)
unfolding recover_container register_worker broadcast
recover_container-IsRecovered c o used new h =
    if_rule P (not (c.state == "running")) (λ _. seen_more c.id o used h)
      λ _.
        if_rule P (starts_with (container_name c) name_prefix_active)
          (λ _.
            active_more (record { container_id = c.id; ip_address = first_ip c })
              (parse_runner_from_active_name (container_name c)) o used new h)
          λ _.
            if_rule P (starts_with (container_name c) name_prefix_warm)
              (λ _.
                warm_more c.id (record { container_id = c.id; ip_address = first_ip c }) o used new
                  refl h)
              (λ _. seen_more c.id o used h)
  where
    P : Orchestrator → Type 0
    P x = IsRecovered x (c.id ∷ used)

recover_containers-IsRecovered :
    (cs : List Container) (o : Orchestrator) (used : List String)
    → IsFresh cs used
    → IsRecovered o used
    → IsRecovered (recover_containers cs o) (seen cs used)
unfolding recover_containers
recover_containers-IsRecovered [] o used f h = h
recover_containers-IsRecovered (c ∷ cs) o used (n, f) h =
    recover_containers-IsRecovered cs (recover_container c o) (c.id ∷ used) f
      (recover_container-IsRecovered c o used n h)

pub start-IsCounted :
    (cs : List Container) (max_workers warm_workers : ℤ)
    → IsFresh cs []
    → IsCounted (start cs max_workers warm_workers)
unfolding recover_state count lookup workers_of total_assigned occurs
start-IsCounted cs m w f = recover_containers-IsRecovered cs (new_orchestrator m w) [] f (record {
  owned = λ id. omega arith;
  keyed = ((λ id ww e. ground arith), (λ id h e. ground arith));
  tallied = ((λ name. refl), refl);
  boots = refl;
  waits = refl;
})
