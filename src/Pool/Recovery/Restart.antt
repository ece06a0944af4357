-- ===== src/Pool/Recovery/Restart.antt =====
-- A restart: recoverState (orchestrator/events.go) among the containers that the orchestrator named
-- before (orchestrator/pool.go, allocate.go).
use github_action_runners_mu.Prelude.{
  ap, ◌∙◌, some, sym, ◌≢◌, none, map, All, String, ◌<>◌, ◌≡◌, refl, List, [], ◌∷◌, ◌++◌, arith,
  ==_refl,
}
use github_action_runners_mu.Prelude.Int.{ℤ}
use github_action_runners_mu.Pool.{
  new_orchestrator, increment, WarmWorker, ActiveWorker, Orchestrator,
}
use github_action_runners_mu.Pool.Recovery.{
  recover_state, recover_containers, Container, first_ip, container_name, recover_container,
}
use github_action_runners_mu.Pool.Names.{
  last_index, parse_runner_from_active_name-active_name, starts_with-append, starts_with-differ,
  name_prefix_warm, name_prefix_active, trim_prefix, active_name, after_append,
}
use github_action_runners_mu.Prelude.Dict.{Dict, store, occurs}
use mathlib.Core.List.{append_assoc, append-nil}

-- The container of a warm worker, and of an active one, as Docker lists it; `short` gives the
-- identifier that shortID drew for it.
abbrev pub warm_container : (String → String) → WarmWorker → Container
warm_container short ww = record {
  id = ww.container_id;
  state = "running";
  names = ("/" <> (name_prefix_warm <> short ww.container_id)) ∷ [];
  addresses = ww.ip_address ∷ [];
}

abbrev pub active_container : (String → String) → ActiveWorker → Container
active_container short aw = record {
  id = aw.container_id;
  state = "running";
  names = ("/" <> active_name aw.runner_name (short aw.container_id)) ∷ [];
  addresses = aw.ip_address ∷ [];
}

module _ {ℓ} {A : Type ℓ} (key : A → String) where
  -- The map that a list of workers is stored in, and that all its keys are new to another.
  abbrev pub entries : List A → Dict A
  entries [] = []
  entries (a ∷ xs) = (key a, a) ∷ entries xs

  abbrev pub AreNew : Dict A → List A → Type 0
  AreNew m [] = Unit
  AreNew m (a ∷ xs) = (occurs (key a) m ≡ 0) × AreNew (m ++ ((key a, a) ∷ [])) xs

store_new :
    {A : Type 0} (k : String) (a : A) (m : Dict A)
    → occurs k m ≡ 0
    → store k a m ≡ m ++ ((k, a) ∷ [])
unfolding occurs store
store_new k a [] h = refl
store_new k a ((j, b) ∷ m) h = ground (arith, store_new k a m)

container_name_one :
    (c : Container) (name : String) → c.names ≡ (("/" <> name) ∷ []) → container_name c ≡ name
unfolding container_name trim_prefix
container_name_one c name h = rw (h, after_append "/" name) refl

recover_warm :
    (short : String → String) (ww : WarmWorker) (o : Orchestrator)
    → recover_container (warm_container short ww) o
      ≡ record o { warm_pool = store ww.container_id ww o.warm_pool }
unfolding recover_container first_ip
recover_warm short ww o =
    let name : String = name_prefix_warm <> short ww.container_id in
    rw
      (
        container_name_one (warm_container short ww) name refl,
        ==_refl "running",
        starts_with-differ name_prefix_warm (short ww.container_id) name_prefix_active refl,
        starts_with-append name_prefix_warm (short ww.container_id),
      )
      refl

recover_active :
    (short : String → String) (aw : ActiveWorker) (o : Orchestrator)
    → aw.runner_name ≢ ""
    → last_index b'-' (short aw.container_id) ≡ none
    → recover_container (active_container short aw) o
      ≡ increment aw.runner_name
          (record o { active_workers = store aw.container_id aw o.active_workers })
unfolding recover_container first_ip
recover_active short aw o ne h =
    let id : String = short aw.container_id in
    rw
      (
        container_name_one (active_container short aw) (active_name aw.runner_name id) refl,
        ==_refl "running",
        starts_with-append name_prefix_active (aw.runner_name <> "-" <> id),
        parse_runner_from_active_name-active_name aw.runner_name id ne h,
      )
      refl

abbrev warm_key : WarmWorker → String
warm_key ww = ww.container_id

abbrev active_key : ActiveWorker → String
active_key aw = aw.container_id

recover_append :
    (xs ys : List Container) (o : Orchestrator)
    → recover_containers (xs ++ ys) o ≡ recover_containers ys (recover_containers xs o)
unfolding recover_containers
recover_append [] ys o = refl
recover_append (x ∷ xs) ys o = recover_append xs ys (recover_container x o)

recover_warms :
    (short : String → String) (ws : List WarmWorker) (o : Orchestrator)
    → AreNew warm_key o.warm_pool ws
    → recover_containers (map (warm_container short) ws) o
      ≡ record o { warm_pool = o.warm_pool ++ entries warm_key ws }
unfolding recover_containers
recover_warms short [] o n = ap (λ m. record o { warm_pool = m }) (sym (append-nil o.warm_pool))
recover_warms short (w ∷ ws) o (n, ns) =
    let pool : Dict WarmWorker → Orchestrator = λ m. record o { warm_pool = m } in
    ap (recover_containers (map (warm_container short) ws))
      (recover_warm short w o ∙ ap pool (store_new w.container_id w o.warm_pool n))
    ∙ recover_warms short ws (pool (o.warm_pool ++ ((w.container_id, w) ∷ []))) ns
    ∙ ap pool (append_assoc o.warm_pool ((w.container_id, w) ∷ []) (entries warm_key ws))

recover_actives :
    (short : String → String) (ws : List ActiveWorker) (o : Orchestrator)
    → AreNew active_key o.active_workers ws
    → ((id : String) → last_index b'-' (short id) ≡ none)
    → All (λ (aw : ActiveWorker). aw.runner_name ≢ "") ws
    → ((recover_containers (map (active_container short) ws) o).active_workers
        ≡ o.active_workers ++ entries active_key ws)
      × ((recover_containers (map (active_container short) ws) o).warm_pool ≡ o.warm_pool)
unfolding recover_containers increment
recover_actives short [] o n h k = (sym (append-nil o.active_workers), refl)
recover_actives short (w ∷ ws) o (n, ns) h (k, ks) =
    let next : Dict ActiveWorker → Orchestrator =
      λ m. increment w.runner_name (record o { active_workers = m }) in
    let one : Dict ActiveWorker = o.active_workers ++ ((w.container_id, w) ∷ []) in
    let e : recover_container (active_container short w) o ≡ next one =
      recover_active short w o k (h w.container_id)
      ∙ ap next (store_new w.container_id w o.active_workers n) in
    let (a, p) = recover_actives short ws (next one) ns h ks in
    (
      ap (λ x. (recover_containers (map (active_container short) ws) x).active_workers) e
          ∙ a
          ∙ append_assoc o.active_workers ((w.container_id, w) ∷ []) (entries active_key ws),
      ap (λ x. (recover_containers (map (active_container short) ws) x).warm_pool) e ∙ p,
    )

-- A program that starts among the containers that an orchestrator named, of any warm and active
-- workers with different identifiers, whose runners have names and whose short identifiers have no
-- dash, has the same warm pool and the same active workers again, each with its address and its
-- runner.
pub recover_state_restart :
    (short : String → String) (warm : List WarmWorker) (active : List ActiveWorker)
    (max_workers warm_workers : ℤ)
    → AreNew warm_key [] warm
    → AreNew active_key [] active
    → ((id : String) → last_index b'-' (short id) ≡ none)
    → All (λ (aw : ActiveWorker). aw.runner_name ≢ "") active
    → let o =
        recover_state
          (some (map (warm_container short) warm ++ map (active_container short) active))
          (new_orchestrator max_workers warm_workers) in
      (o.warm_pool ≡ entries warm_key warm) × (o.active_workers ≡ entries active_key active)
unfolding recover_state
recover_state_restart short warm active m w nw na h k =
    let ws : List Container = map (warm_container short) warm in
    let cs : List Container = map (active_container short) active in
    let o : Orchestrator = new_orchestrator m w in
    let pooled : Orchestrator = record o { warm_pool = entries warm_key warm } in
    let e : recover_containers (ws ++ cs) o ≡ recover_containers cs pooled =
      recover_append ws cs o ∙ ap (recover_containers cs) (recover_warms short warm o nw) in
    let (a, p) = recover_actives short active pooled na h k in
    (ap (λ x. x.warm_pool) e ∙ p, ap (λ x. x.active_workers) e ∙ a)
