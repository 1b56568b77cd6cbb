-- ===== src/Gateway/Store/Reading.antt =====
-- Get keeps the table and the cache coherent, and answers out of the cache what the table holds.
use workflow_automation_go_z.Common.{
  ℕ, String, Option, some, [], ◌∷◌, ℤ, pos, ◌≡◌, refl, sym, ap, ◌∙◌, inl, inr, Option-cases,
}
use workflow_automation_go_z.Gateway.Auth.{AuthContext}
use workflow_automation_go_z.Gateway.Outside.{
  Workflow, WorkflowItem, row, Trace, redis_get, redis_set_ex, first_workflow, select_user_id,
}
use workflow_automation_go_z.Gateway.Workflows.{
  to_workflow_item, cache_key, cache_ttl, cached_item, get_from_db, answer_cached,
}
use workflow_automation_go_z.Gateway.Workflows.Access.{
  get-miss, get-hit, get_from_db-calls, answer_cached-calls,
}
use workflow_automation_go_z.Gateway.Store.{
  Store, Codec, Around, apply, replay, unless_fault, found_at, after, serve,
}
use workflow_automation_go_z.Gateway.Store.Coherent.{Coherent, fill-Coherent}
use workflow_automation_go_z.Gateway.Store.Requests.{
  get_request, calls, RoundTrips, unless_fault-quiet, handle, unless_fault-Coherent, loaded_row,
  along,
}

module _ (codec : Codec) where
  module _ (a : Around) where
    module _ (s : Store) (c : Coherent codec.decode s) where
      fill-keeps :
          (id : ℤ) (n : ℕ) (wf : Workflow) (text : String) (f : Option String)
          → id ≡ pos n
          → s.rows n ≡ some wf
          → codec.decode text ≡ some (to_workflow_item wf)
          → Coherent codec.decode
              (unless_fault f (apply (redis_set_ex (cache_key id) text cache_ttl)) s)
      fill-keeps id n wf text f at there back =
          unless_fault-Coherent codec f _ s c
            (rw at (fill-Coherent codec.decode s n cache_ttl wf text there back c))

      pub after_get : (k : String) → after a s (redis_get k ∷ []) ≡ s
      unfolding replay apply
      after_get k = unless_fault-quiet (a.fault [] (redis_get k)) (apply (redis_get k)) s refl

      pub after_load : (k : String) (id : ℤ) → after a s (redis_get k ∷ first_workflow id ∷ []) ≡ s
      unfolding replay apply
      after_load k id = unless_fault-quiet _ (apply (first_workflow id)) _ refl ∙ after_get k

      pub after_owner : (k : String) (id : ℤ) → after a s (redis_get k ∷ select_user_id id ∷ []) ≡ s
      unfolding replay apply
      after_owner k id = unless_fault-quiet _ (apply (select_user_id id)) _ refl ∙ after_get k

      stays : (t : Trace) → after a s t ≡ s → Coherent codec.decode (after a s t)
      stays t e = rw e c

      module _ (trips : RoundTrips codec) where
        filled-keeps :
            (id : ℤ) (wf : Workflow) (text : String)
            → found_at a
                (after a s (redis_get (cache_key id) ∷ []))
                (redis_get (cache_key id) ∷ [])
                (first_workflow id)
                id
              ≡ row wf
            → codec.encode (to_workflow_item wf) ≡ some text
            → Coherent codec.decode (
                after a s (
                  redis_get (cache_key id)
                  ∷ first_workflow id
                  ∷ redis_set_ex (cache_key id) text cache_ttl
                  ∷ []))
        unfolding replay
        filled-keeps id wf text loaded encoded =
            let k = cache_key id in
            let found =
              ap (λ u. found_at a u (redis_get k ∷ []) (first_workflow id) id) (sym (after_get k))
              ∙ loaded in
            let (n, at, there, own) =
              loaded_row codec s c id (a.fault (redis_get k ∷ []) (first_workflow id)) wf found in
            let e : after a s (redis_get k ∷ first_workflow id ∷ []) ≡ s = after_load k id in
            rw e
              (fill-keeps id n wf text _ at there (trips.back (to_workflow_item wf) text encoded))

        miss-keeps :
            (ctx : AuthContext) (id : ℤ)
            → Coherent codec.decode
                (after a s (get_from_db (serve codec a s) ctx id (redis_get (cache_key id) ∷ [])).1)
        miss-keeps ctx id =
            elim (get_from_db-calls (serve codec a s) ctx id (redis_get (cache_key id) ∷ [])) [
              | inl same ↦ along codec s c a _ _ same (stays _ (after_load (cache_key id) id))
              | inr (wf, text, loaded, encoded, same) ↦
                  along codec s c a _ _ same (filled-keeps id wf text loaded encoded)
            ]

        hit-keeps :
            (ctx : AuthContext) (id : ℤ) (item : WorkflowItem)
            → Coherent codec.decode (
                after a s
                  (answer_cached (serve codec a s) ctx item (redis_get (cache_key id) ∷ [])).1)
        hit-keeps ctx id item =
            elim (answer_cached-calls (serve codec a s) ctx item (redis_get (cache_key id) ∷ [])) [
              | inl same ↦ along codec s c a _ _ same (stays _ (after_get (cache_key id)))
              | inr same ↦ along codec s c a _ _ same (stays _ (after_owner (cache_key id) item.id))
            ]

        pub get-keeps :
            (ctx : AuthContext) (id : ℤ)
            → Coherent codec.decode (handle codec a s (get_request ctx id))
        unfolding calls
        get-keeps ctx id =
            let w = serve codec a s in
            elim (Option-cases (cached_item w (w.cached [] (cache_key id)))) [
              | inl e ↦
                  along codec s c a _ _ (ap (λ r. r.1) (get-miss w ctx id [] e)) (miss-keeps ctx id)
              | inr (item, e) ↦
                  along codec s c a _ _ (ap (λ r. r.1) (get-hit w ctx id [] item e))
                    (hit-keeps ctx id item)
            ]
