-- ===== src/Gateway/Store.antt =====
-- The database table of workflows and the cache of their items in Redis as one state, which the
-- calls of workflowlogic.go change. PostgreSQL and Redis are not code of the repository: what is
-- taken of them is that a row that is inserted gets the next free id, that an update sets the columns
-- it names, and that SETEX and DEL set and drop a key. Any call but DEL may fail, and a key may
-- expire.

pub mod Coherent
pub mod Requests
pub mod Writing
pub mod Reading
pub mod Reach
pub mod Race
pub mod Table
use workflow_automation_go_z.Common.{
  ℕ, suc, ◌≤◌, ◌<◌, ◌^◌, String, Bool, true, false, Option, none, some, List, [], ◌∷◌, ◌++◌, ◌==◌,
  ltb, str_eq, if◌then◌else◌, ℤ, pos, negsuc, Result, ok, err, ◌≡◌,
}
use workflow_automation_go_z.Gateway.Outside.{
  Workflow, WorkflowItem, Found, row, record_not_found, db_error, Update, Filter, Execution, Call,
  Trace, World, redis_get, redis_set_ex, redis_del, first_workflow, select_user_id, find_workflows,
  create_workflow, update_workflow, delete_workflow,
}
use workflow_automation_go_z.Gateway.Workflows.Writes.{apply_updates}
use workflow_automation_go_z.Queue.{ExecutionMessage}

pub record Store : Type 0 where
  -- the row with an id
  pub rows : ℕ → Option Workflow
  pub next_id : ℕ
  -- the text under a key
  pub cache : String → Option String

-- The text of an item.
pub record Codec : Type 0 where
  pub encode : WorkflowItem → Option String
  pub decode : String → Option WorkflowItem

-- What is outside of the two while a request is served: which calls fail, which rows match a filter,
-- and the rest of the world.
pub record Around : Type 0 where
  pub fault : Trace → Call → Option String
  pub matching : (ℕ → Option Workflow) → Filter → List Workflow
  pub rest : World

abbrev set_row : (ℕ → Option Workflow) → ℕ → Option Workflow → ℕ → Option Workflow
set_row rows n r j = if j == n then r else rows j

abbrev set_key : (String → Option String) → String → Option String → String → Option String
set_key cache k v j = if str_eq j k then v else cache j

abbrev on_row : (Workflow → Option Workflow) → Option Workflow → Option Workflow
on_row f none = none
on_row f (some wf) = f wf

-- The change that a call makes where it does not fail.
unfoldable pub apply : Call → Store → Store
apply (create_workflow wf) s = record s {
  rows = set_row s.rows s.next_id (some (record wf { id = s.next_id }));
  next_id = suc s.next_id;
}
apply (update_workflow id us) s = record s {
  rows = set_row s.rows id (on_row (λ wf. some (apply_updates wf us)) (s.rows id));
}
apply (delete_workflow id) s = record s { rows = set_row s.rows id none }
apply (redis_set_ex k text ttl) s = record s { cache = set_key s.cache k (some text) }
apply (redis_del k) s = record s { cache = set_key s.cache k none }
apply _ s = s

abbrev pub unless_fault : Option String → (Store → Store) → Store → Store
unless_fault none f s = f s
unless_fault (some e) f s = s

-- The ids end where those of an int64 do.
abbrev pub insert_fault : Store → Option String → Option String
insert_fault s (some e) = some e
insert_fault s none = if ltb s.next_id (2 ^ 63) then none else some "ids exhausted"

abbrev pub found_row : Option String → Option Workflow → Found Workflow
found_row (some e) r = db_error e
found_row none none = record_not_found
found_row none (some wf) = row wf

abbrev pub found_owner : Found Workflow → Found String
found_owner (row wf) = row wf.user_id
found_owner record_not_found = record_not_found
found_owner (db_error e) = db_error e

abbrev pub row_at : Store → ℤ → Option Workflow
row_at s (pos n) = s.rows n
row_at s (negsuc n) = none

module _ (a : Around) where
  abbrev pub fault_of : Store → Trace → Call → Option String
  fault_of s pre (create_workflow wf) = insert_fault s (a.fault pre (create_workflow wf))
  fault_of s pre c = a.fault pre c

  -- The state after the calls `t`, which come after the calls `pre`.
  unfoldable pub replay : Trace → Trace → Store → Store
  unfolding apply
  replay pre [] s = s
  replay pre (c ∷ t) s = replay (pre ++ c ∷ []) t (unless_fault (fault_of s pre c) (apply c) s)

  abbrev pub after : Store → Trace → Store
  after s t = replay [] t s

  abbrev pub found_at : Store → Trace → Call → ℤ → Found Workflow
  found_at s t c id = found_row (a.fault t c) (row_at s id)

  abbrev pub listed : Store → Trace → Filter → Result (List Workflow)
  listed s t f = elim (a.fault t (find_workflows f)) [
    | some e ↦ err e
    | none ↦ ok (a.matching s.rows f)
  ]

  abbrev pub inserted : Store → Trace → Workflow → Result ℕ
  inserted s t wf = elim (fault_of s t (create_workflow wf)) [
    | some e ↦ err e
    | none ↦ ok s.next_id
  ]

  abbrev pub cached_text : Store → Trace → String → Option String
  cached_text s t k = elim (a.fault t (redis_get k)) [ some _ ↦ none | none ↦ s.cache k ]

-- The world that a request meets: this state, changed by the calls of the request itself.
abbrev pub serve : Codec → Around → Store → World
serve codec a s = record a.rest {
  cached = λ t k. cached_text a (after a s t) t k;
  decode_item = codec.decode;
  encode_item = codec.encode;
  load_workflow = λ t id. found_at a (after a s t) t (first_workflow id) id;
  load_user_id = λ t id. found_owner (found_at a (after a s t) t (select_user_id id) id);
  list_workflows = λ t f. listed a (after a s t) t f;
  insert_workflow = λ t wf. inserted a (after a s t) t wf;
  update_error = λ t id us. a.fault t (update_workflow id us);
  delete_error = λ t id. a.fault t (delete_workflow id);
}
