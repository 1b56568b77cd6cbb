-- ===== src/Gateway/Workflows/Writes.antt =====
-- What Update and Delete write, and when they drop the cached item.
use workflow_automation_go_z.Common.{
  String, true, none, some, List, [], ◌∷◌, ◌++◌, ℤ, ◌≡◌, refl, ap, ◌∙◌, ◌⊎◌, inl, inr, arith,
  Result, ok, err, ◌>>=◌, str_eq, Option-cases, Result-cases, if◌then◌else◌,
}
use workflow_automation_go_z.Gateway.Auth.{AuthContext}
use workflow_automation_go_z.Gateway.Outside.{
  Workflow, Found, Found-cases, row, Update, Call, Trace, World, redis_del, first_workflow,
  update_workflow, delete_workflow,
}
use workflow_automation_go_z.Gateway.Outside
use workflow_automation_go_z.Gateway.Workflows.{
  UpdateWorkflowReq, cache_key, updates_of, check_ownership_model, load_owned, load, write_update,
  update, write_delete, delete,
}
use workflow_automation_go_z.Gateway.Workflows.Access.{
  Permitted, load_owned-ok, load_owned-done, load_owned-forbidden,
}

module _ (w : World) (ctx : AuthContext) where
  trace-load_owned : (id : ℤ) (t : Trace) → (load_owned w ctx id t).1 ≡ t ++ first_workflow id ∷ []
  unfolding load_owned load ◌>>=◌
  trace-load_owned id t = refl

  module _ (req : UpdateWorkflowReq) (t : Trace) where
    -- The trace once the row has been loaded, and once it has been written.
    abbrev pub update_loaded : Trace
    update_loaded = t ++ first_workflow req.id ∷ []

    abbrev pub updated : Workflow → Trace
    updated wf = update_loaded ++ update_workflow wf.id (updates_of req) ∷ []

    update-write :
        (r : Result Workflow)
        → (load_owned w ctx req.id t).0 ≡ r
        → update w ctx req t ≡ write_update w ctx req r update_loaded
    unfolding update ◌>>=◌
    update-write r e =
        ap (λ (x : Result Workflow). write_update w ctx req x (load_owned w ctx req.id t).1) e
        ∙ ap (λ (u : Trace). write_update w ctx req r u) (trace-load_owned req.id t)

    write_update-done :
        (wf : Workflow)
        → w.update_error update_loaded wf.id (updates_of req) ≡ none
        → write_update w ctx req (ok wf) update_loaded
          ≡ (ok true, updated wf ++ redis_del (cache_key req.id) ∷ [])
    unfolding write_update ◌>>=◌
    write_update-done wf e = rw e

    write_update-failed :
        (wf : Workflow) (m : String)
        → w.update_error update_loaded wf.id (updates_of req) ≡ some m
        → write_update w ctx req (ok wf) update_loaded ≡ (err m, updated wf)
    unfolding write_update ◌>>=◌
    write_update-failed wf m e = rw e

    pub update-done :
        (wf : Workflow)
        → w.load_workflow t req.id ≡ row wf
        → check_ownership_model ctx wf ≡ none
        → w.update_error update_loaded wf.id (updates_of req) ≡ none
        → update w ctx req t ≡ (ok true, updated wf ++ redis_del (cache_key req.id) ∷ [])
    update-done wf loaded may fine =
        update-write (ok wf) (load_owned-done w ctx req.id t wf loaded may)
        ∙ write_update-done wf fine

    -- Update answers in one of three ways. With success: then the row was loaded, the caller may
    -- change it, the one write of the columns that the request gives came to no error, and the last
    -- call drops the cached item of the request's id. With the error of that one write, and the
    -- cached item is left. Or with an error after the load alone: nothing is written and nothing is
    -- dropped.
    pub update-cases :
        ((wf : Workflow) × (w.load_workflow t req.id ≡ row wf)
          × Permitted ctx wf.user_id
          × (((w.update_error update_loaded wf.id (updates_of req) ≡ none)
                × (update w ctx req t ≡ (ok true, updated wf ++ redis_del (cache_key req.id) ∷ [])))
              ⊎ ((e : String) × (w.update_error update_loaded wf.id (updates_of req) ≡ some e)
                  × (update w ctx req t ≡ (err e, updated wf)))))
        ⊎ ((e : String) × (update w ctx req t ≡ (err e, update_loaded)))
    update-cases = elim (Result-cases (load_owned w ctx req.id t).0) [
      | inr (e, bad) ↦ inr (e, update-write (err e) bad ∙ (unfold write_update ◌>>=◌ in refl))
      | inl (wf, good) ↦
          let (loaded, permitted) = load_owned-ok w ctx req.id t wf good in
          elim (Option-cases (w.update_error update_loaded wf.id (updates_of req))) [
            | inl fine ↦ inl (
              wf,
              loaded,
              permitted,
              inl (fine, update-write (ok wf) good ∙ write_update-done wf fine),
            )
            | inr (m, failed) ↦ inl (
              wf,
              loaded,
              permitted,
              inr (m, failed, update-write (ok wf) good ∙ write_update-failed wf m failed),
            )
          ]
    ]

    -- A caller who may not change the row gets "forbidden", and nothing is written.
    pub update-forbidden :
        (wf : Workflow)
        → w.load_workflow t req.id ≡ row wf
        → ¬ Permitted ctx wf.user_id
        → update w ctx req t ≡ (err "forbidden", update_loaded)
    update-forbidden wf loaded denied =
        update-write (err "forbidden")
          (ap (λ r. r.0) (load_owned-forbidden w ctx req.id t wf loaded denied))
        ∙ (unfold write_update ◌>>=◌ in refl)

  module _ (id : ℤ) (t : Trace) where
    abbrev pub delete_loaded : Trace
    delete_loaded = t ++ first_workflow id ∷ []

    abbrev pub deleted : Workflow → Trace
    deleted wf = delete_loaded ++ delete_workflow wf.id ∷ []

    delete-write :
        (r : Result Workflow)
        → (load_owned w ctx id t).0 ≡ r
        → delete w ctx id t ≡ write_delete w ctx id r delete_loaded
    unfolding delete ◌>>=◌
    delete-write r e =
        ap (λ (x : Result Workflow). write_delete w ctx id x (load_owned w ctx id t).1) e
        ∙ ap (λ (u : Trace). write_delete w ctx id r u) (trace-load_owned id t)

    write_delete-done :
        (wf : Workflow)
        → w.delete_error delete_loaded wf.id ≡ none
        → write_delete w ctx id (ok wf) delete_loaded
          ≡ (ok true, deleted wf ++ redis_del (cache_key id) ∷ [])
    unfolding write_delete ◌>>=◌
    write_delete-done wf e = rw e

    write_delete-failed :
        (wf : Workflow) (m : String)
        → w.delete_error delete_loaded wf.id ≡ some m
        → write_delete w ctx id (ok wf) delete_loaded ≡ (err m, deleted wf)
    unfolding write_delete ◌>>=◌
    write_delete-failed wf m e = rw e

    -- Delete answers in the same three ways: with success, where the deletion of the loaded row, which
    -- the caller may delete, came to no error, and its cached item is then dropped; with the error of
    -- the deletion, and the cached item is left; or with an error after the load alone, and nothing is
    -- deleted or dropped.
    pub delete-cases :
        ((wf : Workflow) × (w.load_workflow t id ≡ row wf)
          × Permitted ctx wf.user_id
          × (((w.delete_error delete_loaded wf.id ≡ none)
                × (delete w ctx id t ≡ (ok true, deleted wf ++ redis_del (cache_key id) ∷ [])))
              ⊎ ((e : String) × (w.delete_error delete_loaded wf.id ≡ some e)
                  × (delete w ctx id t ≡ (err e, deleted wf)))))
        ⊎ ((e : String) × (delete w ctx id t ≡ (err e, delete_loaded)))
    delete-cases = elim (Result-cases (load_owned w ctx id t).0) [
      | inr (e, bad) ↦ inr (e, delete-write (err e) bad ∙ (unfold write_delete ◌>>=◌ in refl))
      | inl (wf, good) ↦
          let (loaded, permitted) = load_owned-ok w ctx id t wf good in
          elim (Option-cases (w.delete_error delete_loaded wf.id)) [
            | inl fine ↦ inl (
              wf,
              loaded,
              permitted,
              inl (fine, delete-write (ok wf) good ∙ write_delete-done wf fine),
            )
            | inr (m, failed) ↦ inl (
              wf,
              loaded,
              permitted,
              inr (m, failed, delete-write (ok wf) good ∙ write_delete-failed wf m failed),
            )
          ]
    ]

-- What the database does with a map of columns: each one given replaces the row's.
abbrev pub apply_update : Workflow → Update → Workflow
apply_update wf (Outside.is_active b) = record wf { is_active = b }
apply_update wf (Outside.name s) = record wf { name = s }
apply_update wf (Outside.trigger_type s) = record wf { trigger_type = s }
apply_update wf (Outside.trigger_config s) = record wf { trigger_config = s }
apply_update wf (Outside.steps s) = record wf { steps = s }

abbrev pub apply_updates : Workflow → List Update → Workflow
apply_updates wf [] = wf
apply_updates wf (u ∷ us) = apply_updates (apply_update wf u) us

-- `s`, or `old` where it is empty
abbrev pub keep_if_empty : String → String → String
keep_if_empty s old = if str_eq s "" then old else s

-- Applied column by column, the updates of a request set every text that it gives, keep the row's
-- where it gives none, leave the id and the owner alone, and always set `is_active`.
pub apply_updates-updates_of :
    (req : UpdateWorkflowReq) (wf : Workflow)
    → apply_updates wf (updates_of req) ≡ record wf {
      name = keep_if_empty req.name wf.name;
      trigger_type = keep_if_empty req.trigger_type wf.trigger_type;
      trigger_config = keep_if_empty req.trigger_config wf.trigger_config;
      steps = keep_if_empty req.steps wf.steps;
      is_active = req.is_active;
    }
unfolding updates_of
apply_updates-updates_of req wf = ground arith
