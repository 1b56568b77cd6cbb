-- ===== src/Gateway/Store/Table.antt =====
-- What Get promises: the answer that the table alone gives.
use workflow_automation_go_z.Common.{
  ℕ, ◌<◌, ◌^◌, String, true, Option, none, some, [], ◌∷◌, ℤ, pos, to_int64, ◌≡◌, refl, sym, ap, ◌∙◌,
  false, inl, inr, arith, Bool-cases, Result, ok, err, Option-cases, ◌>>=◌,
}
use workflow_automation_go_z.Gateway.Auth.{AuthContext, has_role}
use workflow_automation_go_z.Gateway.Outside.{
  Workflow, WorkflowItem, row, Trace, World, redis_get, first_workflow, select_user_id,
}
use workflow_automation_go_z.Gateway.Workflows.{
  to_workflow_item, owner_check, check_ownership_model, check_ownership, cache_key, cached_item,
  load, load_owned, get_from_db, answer_cached, get,
}
use workflow_automation_go_z.Gateway.Workflows.Access.{get-miss, get-hit}
use workflow_automation_go_z.Gateway.Store.{
  Store, Codec, Around, found_row, row_at, found_at, found_owner, cached_text, replay, serve, after,
}
use workflow_automation_go_z.Gateway.Store.Coherent.{Coherent}
use workflow_automation_go_z.Gateway.Store.Requests.{row_at-some}
use workflow_automation_go_z.Gateway.Store.Reading.{after_get}

-- The cache does not occur in it.
unfoldable pub answer_of : AuthContext → Option Workflow → Result WorkflowItem
answer_of ctx none = err "workflow not found"
answer_of ctx (some wf) = elim (check_ownership_model ctx wf) [
  | some e ↦ err e
  | none ↦ ok (to_workflow_item wf)
]

-- The reads of the table work.
pub record ReadsWork (a : Around) : Type 0 where
  pub first : (t : Trace) (id : ℤ) → a.fault t (first_workflow id) ≡ none
  pub owner : (t : Trace) (id : ℤ) → a.fault t (select_user_id id) ≡ none

to_int64-small : (n : ℕ) → n < 2 ^ 63 → to_int64 n ≡ pos n
unfolding to_int64
to_int64-small n h = ground arith

module _ (ctx : AuthContext) (wf : Workflow) where
  check_ownership_model-admin : has_role ctx "admin" ≡ true → check_ownership_model ctx wf ≡ none
  unfolding check_ownership_model
  check_ownership_model-admin e = rw e refl

  check_ownership_model-other :
      has_role ctx "admin" ≡ false → check_ownership_model ctx wf ≡ owner_check ctx wf.user_id
  unfolding check_ownership_model
  check_ownership_model-other e = rw e refl

  answer_of-ok :
      check_ownership_model ctx wf ≡ none → answer_of ctx (some wf) ≡ ok (to_workflow_item wf)
  unfolding answer_of
  answer_of-ok e = rw (e, answer_of) refl

  answer_of-err :
      (m : String) → check_ownership_model ctx wf ≡ some m → answer_of ctx (some wf) ≡ err m
  unfolding answer_of
  answer_of-err m e = rw (e, answer_of) refl

module _ (w : World) (ctx : AuthContext) where
  get_from_db-answer :
      (id : ℤ) (t : Trace) (r : Option Workflow)
      → w.load_workflow t id ≡ found_row none r
      → (get_from_db w ctx id t).0 ≡ answer_of ctx r
  unfolding get_from_db load_owned load ◌>>=◌
  get_from_db-answer id t none e = rw e (unfold answer_of in refl)
  get_from_db-answer id t (some wf) e = elim (Option-cases (check_ownership_model ctx wf)) [
    | inl o ↦ rw e (rw o (sym (answer_of-ok ctx wf o)))
    | inr (m, o) ↦ rw e (rw o (sym (answer_of-err ctx wf m o)))
  ]

  answer_cached-answer :
      (item : WorkflowItem) (t : Trace) (wf : Workflow)
      → item ≡ to_workflow_item wf
      → w.load_user_id t item.id ≡ row wf.user_id
      → (answer_cached w ctx item t).0 ≡ answer_of ctx (some wf)
  unfolding answer_cached check_ownership ◌>>=◌
  answer_cached-answer item t wf same e = elim (Bool-cases (has_role ctx "admin")) [
    | inl admin ↦
        rw admin (ap ok same ∙ sym (answer_of-ok ctx wf (check_ownership_model-admin ctx wf admin)))
    | inr other ↦ elim (Option-cases (owner_check ctx wf.user_id)) [
      | inl o ↦ rw other (
          rw e (
            rw o (
              ap ok same
              ∙ sym (answer_of-ok ctx wf (check_ownership_model-other ctx wf other ∙ o)))))
      | inr (m, o) ↦ rw other (
          rw e (rw o (sym (answer_of-err ctx wf m (check_ownership_model-other ctx wf other ∙ o)))))
    ]
  ]

cached_text-held :
    (a : Around) (s : Store) (t : Trace) (k text : String)
    → cached_text a s t k ≡ some text
    → s.cache k ≡ some text
cached_text-held a s t k text h = ground arith

cached_item-held :
    (w : World) (held : Option String) (item : WorkflowItem)
    → cached_item w held ≡ some item
    → (text : String) × (held ≡ some text) × (w.decode_item text ≡ some item)
cached_item-held w (some text) item e = (text, refl, e)
cached_item-held w none item e = cc

module _ (codec : Codec) (a : Around) (s : Store) (ctx : AuthContext) (id : ℤ) where
  hit-row :
      (item : WorkflowItem)
      → Coherent codec.decode s
      → cached_item (serve codec a s) (cached_text a s [] (cache_key id)) ≡ some item
      → (wf : Workflow) × (row_at s id ≡ some wf) × (item ≡ to_workflow_item wf) × (item.id ≡ id)
  unfolding to_workflow_item
  hit-row item c e =
      let (text, held, decoded) = cached_item-held (serve codec a s) _ item e in
      let (wf, there, same) =
        c.cached id text item (cached_text-held a s [] (cache_key id) text held) decoded in
      let (n, at, found) = row_at-some s id wf there in
      let own = c.own_id n wf found in
      let small = c.below_next n wf found in
      let top = c.next_small in
      let own_int : to_int64 wf.id ≡ pos n = ap to_int64 own ∙ to_int64-small n (omega arith) in
      (wf, there, same, ap (λ i. i.id) same ∙ own_int ∙ sym at)

  load-row :
      (t : Trace)
      → ReadsWork a
      → found_at a s t (first_workflow id) id ≡ found_row none (row_at s id)
  load-row t reads = ap (λ f. found_row f (row_at s id)) (reads.first t id)

  owner-row :
      (t : Trace) (asked : ℤ) (wf : Workflow)
      → ReadsWork a
      → asked ≡ id
      → row_at s id ≡ some wf
      → found_owner (found_at a s t (select_user_id asked) asked) ≡ row wf.user_id
  owner-row t asked wf reads at there = rw at (rw there (rw (reads.owner t id) refl))

  -- Get refines the table: in a coherent state it answers a caller, out of the cache or not, what the
  -- row of the id, if there is one, and the check of its owner say, where the reads of the table
  -- work.
  pub get-answer_of :
      Coherent codec.decode s
      → ReadsWork a
      → (get (serve codec a s) ctx id []).0 ≡ answer_of ctx (row_at s id)
  unfolding replay
  get-answer_of c reads =
      let w = serve codec a s in
      let k = cache_key id in
      let quiet : after a s (redis_get k ∷ []) ≡ s = after_get codec a s c k in
      elim (Option-cases (cached_item w (w.cached [] k))) [
        | inl e ↦
            ap (λ r. r.0) (get-miss w ctx id [] e)
            ∙ get_from_db-answer w ctx id (redis_get k ∷ []) (row_at s id) (
                ap (λ u. found_at a u (redis_get k ∷ []) (first_workflow id) id) quiet
                ∙ load-row (redis_get k ∷ []) reads)
        | inr (item, e) ↦
            ap (λ r. r.0) (get-hit w ctx id [] item e)
            ∙ (let (wf, there, same, at) = hit-row item c e in
                answer_cached-answer w ctx item (redis_get k ∷ []) wf same (
                  ap
                    (λ u.
                      found_owner
                        (found_at a u (redis_get k ∷ []) (select_user_id item.id) item.id))
                    quiet
                  ∙ owner-row (redis_get k ∷ []) item.id wf reads at there)
                ∙ ap (answer_of ctx) (sym there))
      ]
