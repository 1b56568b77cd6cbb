-- ===== src/Gateway/Store/Race.antt =====
-- Requests that are not served one after another: the calls of a Get with those of an Update in
-- between.
use workflow_automation_go_z.Common.{
  ℕ, String, Option, none, some, List, [], ◌∷◌, ◌++◌, ℤ, pos, ==_iff, eq_iff, ◌≡◌, refl, ap, ◌∙◌,
  ◌≢◌,
}
use workflow_automation_go_z.Gateway.Auth.{AuthContext}
use workflow_automation_go_z.Gateway.Outside.{
  Workflow, WorkflowItem, Update, Call, Trace, World, row, redis_get, redis_set_ex, redis_del,
  first_workflow, update_workflow,
}
use workflow_automation_go_z.Gateway.Workflows.{
  UpdateWorkflowReq, to_workflow_item, cache_key, cache_ttl, cached_item, updates_of,
  check_ownership_model,
}
use workflow_automation_go_z.Gateway.Workflows.Access.{
  get-miss, get_from_db-stored, load_owned-done,
}
use workflow_automation_go_z.Gateway.Workflows.Writes.{apply_updates, update-done}
use workflow_automation_go_z.Gateway.Store.{
  Store, Codec, Around, apply, on_row, serve, replay, found_at, cached_text,
}
use workflow_automation_go_z.Gateway.Store.Coherent.{Coherent}
use workflow_automation_go_z.Gateway.Store.Requests.{RoundTrips, calls, get_request, update_request}
use workflow_automation_go_z.Gateway.Store.Reading.{after_get}

-- Calls of which none fails.
unfoldable pub run : Trace → Store → Store
unfolding apply
run [] s = s
run (c ∷ t) s = run t (apply c s)

-- Get misses and loads the row; Update loads, writes and drops the key; Get stores its item.
unfoldable pub interleaved : ℕ → List Update → String → Trace
interleaved n us text =
    redis_get (cache_key (pos n))
    ∷ first_workflow (pos n)
    ∷ first_workflow (pos n)
    ∷ update_workflow n us
    ∷ redis_del (cache_key (pos n))
    ∷ redis_set_ex (cache_key (pos n)) text cache_ttl
    ∷ []

module _ (decode : String → Option WorkflowItem) where
  interleaved-incoherent :
      (s : Store) (n : ℕ) (us : List Update) (wf : Workflow) (text : String)
      → s.rows n ≡ some wf
      → decode text ≡ some (to_workflow_item wf)
      → to_workflow_item wf ≢ to_workflow_item (apply_updates wf us)
      → ¬ Coherent decode (run (interleaved n us text) s)
  unfolding run interleaved apply
  interleaved-incoherent s n us wf text there decoded changes c =
      let k = cache_key (pos n) in
      let (held, now, same) =
        c.cached (pos n) text (to_workflow_item wf) (rw ((eq_iff k k).1 refl) refl) decoded in
      let written : (run (interleaved n us text) s).rows n ≡ some (apply_updates wf us) =
        rw ((==_iff n n).1 refl) (ap (on_row (λ old. some (apply_updates old us))) there) in
      let newer : held ≡ apply_updates wf us = cc in changes (same ∙ ap to_workflow_item newer)

-- No call fails.
pub record Calm (a : Around) : Type 0 where
  pub none_fails : (t : Trace) (c : Call) → a.fault t c ≡ none

module _ (codec : Codec) (a : Around) (calm : Calm a) (s : Store) (c : Coherent codec.decode s)
    (n : ℕ) (wf : Workflow) (there : s.rows n ≡ some wf) where
  abbrev w : World
  w = serve codec a s

  abbrev key : String
  key = cache_key (pos n)

  loaded_at : (t : Trace) (id : ℤ) → id ≡ pos n → found_at a s t (first_workflow id) id ≡ row wf
  loaded_at t id at = rw at (rw there (rw (calm.none_fails t (first_workflow (pos n))) refl))

  missed : s.cache key ≡ none → cached_text a s [] key ≡ none
  missed miss = rw (calm.none_fails [] (redis_get key), cached_text) miss

  -- The calls of a Get that misses, by a caller who may see the row.
  get-calls :
      (ctx : AuthContext) (text : String)
      → s.cache key ≡ none
      → codec.encode (to_workflow_item wf) ≡ some text
      → check_ownership_model ctx wf ≡ none
      → calls w (get_request ctx (pos n))
        ≡ redis_get key ∷ first_workflow (pos n) ∷ redis_set_ex key text cache_ttl ∷ []
  unfolding calls replay
  get-calls ctx text miss encoded may =
      let loaded =
        ap (λ u. found_at a u (redis_get key ∷ []) (first_workflow (pos n)) (pos n))
          (after_get codec a s c key)
        ∙ loaded_at (redis_get key ∷ []) (pos n) refl in
      ap (λ r. r.1) (get-miss w ctx (pos n) [] (ap (cached_item w) (missed miss)))
      ∙ get_from_db-stored w ctx (pos n) (redis_get key ∷ []) wf text
          (load_owned-done w ctx (pos n) (redis_get key ∷ []) wf loaded may) encoded

  -- The calls of an Update of the row, by a caller who may change it.
  update-calls :
      (ctx : AuthContext) (req : UpdateWorkflowReq)
      → req.id ≡ pos n
      → check_ownership_model ctx wf ≡ none
      → calls w (update_request ctx req)
        ≡ first_workflow (pos n) ∷ update_workflow n (updates_of req) ∷ redis_del key ∷ []
  unfolding calls replay
  update-calls ctx req at may =
      let us = updates_of req in
      ap (λ r. r.1) (update-done w ctx req [] wf (loaded_at [] req.id at) may (calm.none_fails _ _))
      ∙ ap
          (λ (id : ℤ). first_workflow id ∷ update_workflow wf.id us ∷ redis_del (cache_key id) ∷ [])
          at
      ∙ ap (λ (m : ℕ). first_workflow (pos n) ∷ update_workflow m us ∷ redis_del key ∷ [])
          (c.own_id n wf there)

  -- In a coherent state that holds a workflow and nothing under its key, where no call fails and the
  -- item has a text from which it decodes: a Get, by a caller who may see the workflow, ends with the
  -- call that stores the item. If the calls of an Update of the workflow, by a caller who may change
  -- it, come right before that one, and the update changes the item, then the state that follows is
  -- not coherent.
  pub run-interleaved :
      (getter updater : AuthContext) (req : UpdateWorkflowReq) (text : String)
      → RoundTrips codec
      → s.cache key ≡ none
      → codec.encode (to_workflow_item wf) ≡ some text
      → req.id ≡ pos n
      → check_ownership_model getter wf ≡ none
      → check_ownership_model updater wf ≡ none
      → to_workflow_item wf ≢ to_workflow_item (apply_updates wf (updates_of req))
      → (t : Trace) × (calls w (get_request getter (pos n))
          ≡ t ++ redis_set_ex key text cache_ttl ∷ [])
        × ¬ Coherent codec.decode (
            run
              (t ++ (calls w (update_request updater req) ++ redis_set_ex key text cache_ttl ∷ []))
              s)
  unfolding interleaved
  run-interleaved getter updater req text trips miss encoded at sees may changes = (
    redis_get key ∷ first_workflow (pos n) ∷ [],
    get-calls getter text miss encoded sees,
    rw (update-calls updater req at may) (
        interleaved-incoherent codec.decode s n (updates_of req) wf text there
          (trips.back (to_workflow_item wf) text encoded) changes),
  )
