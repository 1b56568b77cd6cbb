-- ===== src/Gateway/Store/Writing.antt =====
-- Create, list, update and delete keep the table and the cache coherent, whichever of their calls fail
-- but the DEL of a key.
use workflow_automation_go_z.Common.{
  ℕ, ◌^◌, String, Option, none, some, List, [], ltb, ℤ, pos, ◌≡◌, refl, ap, inl, inr, arith,
  Bool-cases, ◌>>=◌,
}
use workflow_automation_go_z.Gateway.Auth.{AuthContext}
use workflow_automation_go_z.Gateway.Outside.{
  Workflow, Update, Call, redis_del, first_workflow, find_workflows, create_workflow,
  update_workflow, delete_workflow,
}
use workflow_automation_go_z.Gateway.Workflows.{
  CreateWorkflowReq, UpdateWorkflowReq, cache_key, new_workflow, create, list, updates_of,
  list_filter,
}
use workflow_automation_go_z.Gateway.Workflows.Writes.{update-cases, delete-cases}
use workflow_automation_go_z.Gateway.Store.{
  Store, Codec, Around, apply, replay, unless_fault, serve, insert_fault,
}
use workflow_automation_go_z.Gateway.Store.Coherent.{
  Coherent, drop-Coherent, update-Coherent, delete-Coherent, create-Coherent,
}
use workflow_automation_go_z.Gateway.Store.Requests.{
  create_request, list_request, update_request, delete_request, calls, DelWorks, unless_fault-quiet,
  handle, unless_fault-Coherent, loaded_row, along,
}

module _ (codec : Codec) where
  module _ (a : Around) where
    module _ (s : Store) (c : Coherent codec.decode s) where
      create_row-keeps :
          (wf : Workflow) (f : Option String)
          → Coherent codec.decode (unless_fault (insert_fault s f) (apply (create_workflow wf)) s)
      create_row-keeps wf (some m) = c
      create_row-keeps wf none = elim (Bool-cases (ltb s.next_id (2 ^ 63))) [
        | inl e ↦ rw e (create-Coherent codec.decode s wf (ground arith) c)
        | inr e ↦ rw e c
      ]

      pub create-keeps :
          (ctx : AuthContext) (req : CreateWorkflowReq)
          → Coherent codec.decode (handle codec a s (create_request ctx req))
      unfolding calls create ◌>>=◌ replay
      create-keeps ctx req =
          create_row-keeps (new_workflow ctx req)
            (a.fault [] (create_workflow (new_workflow ctx req)))

      pub list-keeps :
          (ctx : AuthContext) → Coherent codec.decode (handle codec a s (list_request ctx))
      unfolding calls list ◌>>=◌ replay apply
      list-keeps ctx =
          unless_fault-Coherent codec
            (a.fault [] (find_workflows (list_filter (serve codec a s) ctx))) _ s c c

      load-keeps :
          (id : ℤ) (f : Option String)
          → Coherent codec.decode (unless_fault f (apply (first_workflow id)) s)
      unfolding apply
      load-keeps id f = unless_fault-Coherent codec f _ s c c

      -- A load, a write that may fail and the drop of the key.
      write_drop-keeps :
          (id : ℤ) (write : Call) (f g h : Option String)
          → h ≡ none
          → Coherent codec.decode (apply (redis_del (cache_key id)) (apply write s))
          → Coherent codec.decode (
              unless_fault h
                (apply (redis_del (cache_key id)))
                (unless_fault g (apply write) (unless_fault f (apply (first_workflow id)) s)))
      unfolding apply
      write_drop-keeps id write f none h e written =
          rw e (rw (unless_fault-quiet f (apply (first_workflow id)) s refl) written)
      write_drop-keeps id write f (some m) h e written = rw e (
          rw (unless_fault-quiet f (apply (first_workflow id)) s refl)
            (drop-Coherent codec.decode s _ c))

      updated_at :
          (id : ℤ) (n m : ℕ) (us : List Update) (wf : Workflow)
          → id ≡ pos n
          → m ≡ n
          → s.rows n ≡ some wf
          → Coherent codec.decode
              (apply (redis_del (cache_key id)) (apply (update_workflow m us) s))
      updated_at id n m us wf at own there =
          rw at (rw own (update-Coherent codec.decode s n us wf there c))

      deleted_at :
          (id : ℤ) (n m : ℕ)
          → id ≡ pos n
          → m ≡ n
          → Coherent codec.decode (apply (redis_del (cache_key id)) (apply (delete_workflow m) s))
      deleted_at id n m at own = rw at (rw own (delete-Coherent codec.decode s n c))

      module _ (works : DelWorks a) where
        pub update-keeps :
            (ctx : AuthContext) (req : UpdateWorkflowReq)
            → Coherent codec.decode (handle codec a s (update_request ctx req))
        unfolding calls replay
        update-keeps ctx req = elim (update-cases (serve codec a s) ctx req []) [
          | inl (wf, loaded, _, inl (fine, same)) ↦
              let (n, at, there, own) = loaded_row codec s c req.id _ wf loaded in
              along codec s c a _ _ (ap (λ r. r.1) same) (
                write_drop-keeps req.id (update_workflow wf.id (updates_of req)) _ _ _
                  (works.del _ _) (updated_at req.id n wf.id (updates_of req) wf at own there))
          | inl (wf, loaded, _, inr (e, failed, same)) ↦
              along codec s c a _ _ (ap (λ r. r.1) same) (rw failed (load-keeps req.id _))
          | inr (e, same) ↦ along codec s c a _ _ (ap (λ r. r.1) same) (load-keeps req.id _)
        ]

        pub delete-keeps :
            (ctx : AuthContext) (id : ℤ)
            → Coherent codec.decode (handle codec a s (delete_request ctx id))
        unfolding calls replay
        delete-keeps ctx id = elim (delete-cases (serve codec a s) ctx id []) [
          | inl (wf, loaded, _, inl (fine, same)) ↦
              let (n, at, there, own) = loaded_row codec s c id _ wf loaded in
              along codec s c a _ _ (ap (λ r. r.1) same) (
                write_drop-keeps id (delete_workflow wf.id) _ _ _ (works.del _ _)
                  (deleted_at id n wf.id at own))
          | inl (wf, loaded, _, inr (e, failed, same)) ↦
              along codec s c a _ _ (ap (λ r. r.1) same) (rw failed (load-keeps id _))
          | inr (e, same) ↦ along codec s c a _ _ (ap (λ r. r.1) same) (load-keeps id _)
        ]
