-- ===== src/Gateway/Store/Requests.antt =====
-- The requests of workflowlogic.go on the table and the cache, and what their lemmas share.
use workflow_automation_go_z.Common.{
  ℕ, String, Option, none, some, [], ℤ, pos, negsuc, ◌≡◌, refl, arith,
}
use workflow_automation_go_z.Gateway.Auth.{AuthContext}
use workflow_automation_go_z.Gateway.Outside.{Workflow, WorkflowItem, row, Trace, World, redis_del}
use workflow_automation_go_z.Gateway.Workflows.{
  CreateWorkflowReq, UpdateWorkflowReq, create, list, get, update, delete,
}
use workflow_automation_go_z.Gateway.Store.{
  Store, Codec, Around, unless_fault, found_row, row_at, after, serve,
}
use workflow_automation_go_z.Gateway.Store.Coherent.{Coherent}

-- A request, with the caller where the handler looks at one.
pub data Request : Type 0 where
  create_request : AuthContext → CreateWorkflowReq → Request
  list_request : AuthContext → Request
  get_request : AuthContext → ℤ → Request
  update_request : AuthContext → UpdateWorkflowReq → Request
  delete_request : AuthContext → ℤ → Request

unfoldable pub calls : World → Request → Trace
calls w (create_request ctx req) = (create w ctx req []).1
calls w (list_request ctx) = (list w ctx []).1
calls w (get_request ctx id) = (get w ctx id []).1
calls w (update_request ctx req) = (update w ctx req []).1
calls w (delete_request ctx id) = (delete w ctx id []).1

pub record RoundTrips (codec : Codec) : Type 0 where
  pub back :
      (item : WorkflowItem) (text : String)
      → codec.encode item ≡ some text
      → codec.decode text ≡ some item

pub record DelWorks (a : Around) : Type 0 where
  pub del : (t : Trace) (k : String) → a.fault t (redis_del k) ≡ none

pub unless_fault-quiet :
    (f : Option String) (g : Store → Store) (s : Store) → g s ≡ s → unless_fault f g s ≡ s
unless_fault-quiet none g s e = e
unless_fault-quiet (some m) g s e = refl

found_row-row :
    (f : Option String) (r : Option Workflow) (wf : Workflow) → found_row f r ≡ row wf → r ≡ some wf
found_row-row none (some v) wf e = ground arith
found_row-row none none wf e = cc
found_row-row (some m) r wf e = cc

pub row_at-some :
    (s : Store) (id : ℤ) (wf : Workflow)
    → row_at s id ≡ some wf
    → (n : ℕ) × (id ≡ pos n) × (s.rows n ≡ some wf)
row_at-some s (pos n) wf e = (n, refl, e)
row_at-some s (negsuc n) wf e = cc

-- The state once a request has been served.
abbrev pub handle : Codec → Around → Store → Request → Store
handle codec a s r = after a s (calls (serve codec a s) r)

module _ (codec : Codec) where
  pub unless_fault-Coherent :
      (f : Option String) (g : Store → Store) (s : Store)
      → Coherent codec.decode s
      → Coherent codec.decode (g s)
      → Coherent codec.decode (unless_fault f g s)
  unless_fault-Coherent none g s c d = d
  unless_fault-Coherent (some e) g s c d = c

  module _ (s : Store) (c : Coherent codec.decode s) where
    -- The row that a load by id finds in `s`.
    pub loaded_row :
        (id : ℤ) (f : Option String) (wf : Workflow)
        → found_row f (row_at s id) ≡ row wf
        → (n : ℕ) × (id ≡ pos n) × (s.rows n ≡ some wf) × (wf.id ≡ n)
    loaded_row id f wf e =
        let (n, at, there) = row_at-some s id wf (found_row-row f (row_at s id) wf e) in
        (n, at, there, c.own_id n wf there)

    module _ (a : Around) where
      -- The calls that a request comes to.
      pub along :
          (t u : Trace)
          → t ≡ u
          → Coherent codec.decode (after a s u)
          → Coherent codec.decode (after a s t)
      along t u e h = rw e h
