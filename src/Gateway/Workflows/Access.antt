-- ===== src/Gateway/Workflows/Access.antt =====
-- Who gets to see a workflow.
use workflow_automation_go_z.Common.{
  String, true, none, some, [], ◌∷◌, ◌++◌, ℤ, ◌≡◌, refl, sym, ap, ◌∙◌, ◌↔◌, ◌⊎◌, inl, inr, arith,
  Result, ok, err, ◌>>=◌, eq_iff, Bool-cases, Option-cases, Result-cases,
}
use workflow_automation_go_z.Gateway.Auth.{AuthContext, has_role, user_id_from_ctx}
use workflow_automation_go_z.Gateway.Outside.{
  Workflow, WorkflowItem, Found-cases, row, Trace, World, redis_get, redis_set_ex, first_workflow,
  select_user_id,
}
use workflow_automation_go_z.Gateway.Workflows.{
  to_workflow_item, owner_check, check_ownership_model, check_ownership, cache_key, cache_ttl,
  cached_item, load, load_owned, get_from_db, answer_loaded, answer_cached, get,
}

-- The caller is an admin, or the workflow has no owner or is the caller's.
abbrev pub Permitted : AuthContext → String → Type 0
Permitted ctx owner_id =
    (has_role ctx "admin" ≡ true) ⊎ ((owner_id ≡ "") ⊎ (user_id_from_ctx ctx ≡ owner_id))

pub owner_check_iff :
    (ctx : AuthContext) (owner_id : String)
    → (owner_check ctx owner_id ≡ none) ↔ ((owner_id ≡ "") ⊎ (user_id_from_ctx ctx ≡ owner_id))
unfolding owner_check
owner_check_iff ctx owner_id = (
  λ h. ground (arith, eq_iff owner_id "", eq_iff (user_id_from_ctx ctx) owner_id),
  λ h. ground (arith, eq_iff owner_id "", eq_iff (user_id_from_ctx ctx) owner_id),
)

pub check_ownership_model_iff :
    (ctx : AuthContext) (wf : Workflow)
    → (check_ownership_model ctx wf ≡ none) ↔ Permitted ctx wf.user_id
unfolding check_ownership_model
check_ownership_model_iff ctx wf = (
  λ h. ground (arith, eq_iff wf.user_id "", eq_iff (user_id_from_ctx ctx) wf.user_id),
  λ h. ground (arith, eq_iff wf.user_id "", eq_iff (user_id_from_ctx ctx) wf.user_id),
)

module _ (w : World) (ctx : AuthContext) where
  -- `load_owned` returns a row that was loaded, to a caller who may have it.
  pub load_owned-ok :
      (id : ℤ) (t : Trace) (wf : Workflow)
      → (load_owned w ctx id t).0 ≡ ok wf
      → (w.load_workflow t id ≡ row wf) × Permitted ctx wf.user_id
  unfolding load_owned load ◌>>=◌
  load_owned-ok id t wf h = ground (arith, check_ownership_model_iff ctx wf)

  pub load_owned-done :
      (id : ℤ) (t : Trace) (wf : Workflow)
      → w.load_workflow t id ≡ row wf
      → check_ownership_model ctx wf ≡ none
      → (load_owned w ctx id t).0 ≡ ok wf
  unfolding load_owned load ◌>>=◌
  load_owned-done id t wf h may = rw (h, may) refl

  pub load_owned-forbidden :
      (id : ℤ) (t : Trace) (wf : Workflow)
      → w.load_workflow t id ≡ row wf
      → ¬ Permitted ctx wf.user_id
      → load_owned w ctx id t ≡ (err "forbidden", t ++ first_workflow id ∷ [])
  unfolding load_owned load ◌>>=◌ check_ownership_model
  load_owned-forbidden id t wf h denied =
      rw h (ground (arith, eq_iff wf.user_id "", eq_iff (user_id_from_ctx ctx) wf.user_id))

  pub get-miss :
      (id : ℤ) (t : Trace)
      → cached_item w (w.cached t (cache_key id)) ≡ none
      → get w ctx id t ≡ get_from_db w ctx id (t ++ redis_get (cache_key id) ∷ [])
  unfolding get ◌>>=◌
  get-miss id t e = rw e

  pub get-hit :
      (id : ℤ) (t : Trace) (c : WorkflowItem)
      → cached_item w (w.cached t (cache_key id)) ≡ some c
      → get w ctx id t ≡ answer_cached w ctx c (t ++ redis_get (cache_key id) ∷ [])
  unfolding get ◌>>=◌
  get-hit id t c e = rw e

  answer_loaded-result :
      (id : ℤ) (found : Result Workflow) (t : Trace) (item : WorkflowItem)
      → (answer_loaded w ctx id found t).0 ≡ ok item
      → (wf : Workflow) × (found ≡ ok wf) × (item ≡ to_workflow_item wf)
  unfolding ◌>>=◌
  answer_loaded-result id (ok wf) t item h = (wf, refl, ground arith)
  answer_loaded-result id (err e) t item h = cc

  get_from_db-ok :
      (id : ℤ) (t : Trace) (item : WorkflowItem)
      → (get_from_db w ctx id t).0 ≡ ok item
      → (wf : Workflow) × (w.load_workflow t id ≡ row wf)
        × Permitted ctx wf.user_id
        × (item ≡ to_workflow_item wf)
  get_from_db-ok id t item h =
      let (wf, found, same) =
        answer_loaded-result id (load_owned w ctx id t).0 (load_owned w ctx id t).1 item
          (unfold get_from_db ◌>>=◌ in h) in
      let (loaded, permitted) = load_owned-ok id t wf found in (wf, loaded, permitted, same)

  answer_cached-ok :
      (c : WorkflowItem) (t : Trace) (item : WorkflowItem)
      → (answer_cached w ctx c t).0 ≡ ok item
      → (item ≡ c)
        × ((has_role ctx "admin" ≡ true)
            ⊎ ((owner_id : String) × (w.load_user_id t item.id ≡ row owner_id)
                × Permitted ctx owner_id))
  unfolding answer_cached check_ownership ◌>>=◌
  answer_cached-ok c t item h = elim (Bool-cases (has_role ctx "admin")) [
    | inl e ↦ (ground arith, inl e)
    | inr e ↦ elim (Found-cases (w.load_user_id t c.id)) [
      | inl (o, l) ↦ elim (Option-cases (owner_check ctx o)) [
        | inl fine ↦
            let same : item ≡ c = (ground arith) in
            (same, inr (o, rw same l, inr ((owner_check_iff ctx o).0 fine)))
        | inr (m, bad) ↦ ground arith
      ]
      | inr (inl l) ↦ ground arith
      | inr (inr (m, l)) ↦ ground arith
    ]
  ]

  pub get_from_db-stored :
      (id : ℤ) (t : Trace) (wf : Workflow) (text : String)
      → (load_owned w ctx id t).0 ≡ ok wf
      → w.encode_item (to_workflow_item wf) ≡ some text
      → (get_from_db w ctx id t).1
        ≡ (t ++ first_workflow id ∷ []) ++ redis_set_ex (cache_key id) text cache_ttl ∷ []
  unfolding get_from_db ◌>>=◌
  get_from_db-stored id t wf text good e = rw good (rw e (unfold load_owned load ◌>>=◌ in refl))

  -- The calls of Get behind the read of the cache.
  pub get_from_db-calls :
      (id : ℤ) (t : Trace)
      → let t' = t ++ first_workflow id ∷ [] in
        ((get_from_db w ctx id t).1 ≡ t')
        ⊎ ((wf : Workflow) × (text : String) × (w.load_workflow t id ≡ row wf)
            × (w.encode_item (to_workflow_item wf) ≡ some text)
            × ((get_from_db w ctx id t).1 ≡ t' ++ redis_set_ex (cache_key id) text cache_ttl ∷ []))
  unfolding get_from_db ◌>>=◌
  get_from_db-calls id t = elim (Result-cases (load_owned w ctx id t).0) [
    | inr (e, bad) ↦ inl (rw bad (unfold load_owned load ◌>>=◌ in refl))
    | inl (wf, good) ↦ elim (Option-cases (w.encode_item (to_workflow_item wf))) [
      | inl e ↦ inl (rw good (rw e (unfold load_owned load ◌>>=◌ in refl)))
      | inr (text, e) ↦
          let (loaded, _) = load_owned-ok id t wf good in
          inr (wf, text, loaded, e, get_from_db-stored id t wf text good e)
    ]
  ]

  pub answer_cached-calls :
      (c : WorkflowItem) (t : Trace)
      → ((answer_cached w ctx c t).1 ≡ t)
        ⊎ ((answer_cached w ctx c t).1 ≡ t ++ select_user_id c.id ∷ [])
  unfolding answer_cached check_ownership ◌>>=◌
  answer_cached-calls c t = elim (Bool-cases (has_role ctx "admin")) [
    | inl e ↦ inl (rw e refl)
    | inr e ↦ inr (rw e refl)
  ]

  -- Where Get answers with an item, either the cache held none and the item is that of the row that
  -- was loaded, which the caller may see; or the item is the cached one, and the caller is an admin or
  -- may see a workflow of the owner that the database has for the item's id at this moment.
  pub get-Permitted :
      (id : ℤ) (t : Trace) (item : WorkflowItem)
      → (get w ctx id t).0 ≡ ok item
      → let t' = t ++ redis_get (cache_key id) ∷ [] in
        ((cached_item w (w.cached t (cache_key id)) ≡ none)
          × ((wf : Workflow) × (w.load_workflow t' id ≡ row wf)
              × Permitted ctx wf.user_id
              × (item ≡ to_workflow_item wf)))
        ⊎ ((cached_item w (w.cached t (cache_key id)) ≡ some item)
            × ((has_role ctx "admin" ≡ true)
                ⊎ ((owner_id : String) × (w.load_user_id t' item.id ≡ row owner_id)
                    × Permitted ctx owner_id)))
  get-Permitted id t item h = elim (Option-cases (cached_item w (w.cached t (cache_key id)))) [
    | inl e ↦ inl (
      e,
      get_from_db-ok id (t ++ redis_get (cache_key id) ∷ []) item
          (sym (ap (λ r. r.0) (get-miss id t e)) ∙ h),
    )
    | inr (c, e) ↦
        let (same, may) =
          answer_cached-ok c (t ++ redis_get (cache_key id) ∷ []) item
            (sym (ap (λ r. r.0) (get-hit id t c e)) ∙ h) in
        inr (e ∙ ap some (sym same), may)
  ]
