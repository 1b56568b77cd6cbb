-- ===== src/Gateway/Store/Coherent.antt =====
-- The invariant of table and cache: what is cached for a workflow is the item of its row.
use text.Mathlib.TextLemmas.{append_cancel_left}
use workflow_automation_go_z.Common.{
  ℕ, suc, ℤ, negsuc, ◌≤◌, ◌<◌, ◌^◌, String, Option, none, some, List, [], ◌∷◌, ◌==◌, str_eq, pos,
  ◌≡◌, refl, sym, ap, ◌∙◌, arith, eq_iff, inl, inr, Bool-cases, decimal_int, decimal_inj,
  decimal-minus, ==_iff,
}
use workflow_automation_go_z.Gateway.Outside
use workflow_automation_go_z.Gateway.Outside.{
  Workflow, WorkflowItem, Update, Call, redis_set_ex, redis_del, create_workflow, update_workflow,
  delete_workflow,
}
use workflow_automation_go_z.Gateway.Workflows.{to_workflow_item, cache_key}
use workflow_automation_go_z.Gateway.Workflows.Writes.{apply_updates, apply_update}
use workflow_automation_go_z.Gateway.Store.{Store, apply, set_row, set_key, on_row, row_at}

decimal_int_inj : (i j : ℤ) → decimal_int i ≡ decimal_int j → i ≡ j
unfolding decimal_int
decimal_int_inj (pos m) (pos n) e = ap pos (decimal_inj m n e)
decimal_int_inj (pos m) (negsuc n) e = absurd (decimal-minus m (suc n) e)
decimal_int_inj (negsuc m) (pos n) e = absurd (decimal-minus n (suc m) (sym e))
decimal_int_inj (negsuc m) (negsuc n) e =
    let same = decimal_inj (suc m) (suc n) (append_cancel_left "-" _ _ e) in ap negsuc (omega arith)

-- Two ids, of whatever sign, never share a key of the cache.
pub cache_key_inj : (i j : ℤ) → cache_key i ≡ cache_key j → i ≡ j
cache_key_inj i j e = decimal_int_inj i j (append_cancel_left "workflow:" _ _ e)

apply_update-id : (u : Update) (wf : Workflow) → (apply_update wf u).id ≡ wf.id
apply_update-id (Outside.is_active b) wf = refl
apply_update-id (Outside.name v) wf = refl
apply_update-id (Outside.trigger_type v) wf = refl
apply_update-id (Outside.trigger_config v) wf = refl
apply_update-id (Outside.steps v) wf = refl

pub apply_updates-id : (us : List Update) (wf : Workflow) → (apply_updates wf us).id ≡ wf.id
apply_updates-id [] wf = refl
apply_updates-id (u ∷ us) wf = apply_updates-id us (apply_update wf u) ∙ apply_update-id u wf

-- By the decoder of items.
module _ (decode : String → Option WorkflowItem) where
  pub record Coherent (s : Store) : Type 0 where
    -- a row stands under its own id, which is an int64, and below the next one
    pub own_id : (n : ℕ) (wf : Workflow) → s.rows n ≡ some wf → wf.id ≡ n
    pub below_next : (n : ℕ) (wf : Workflow) → s.rows n ≡ some wf → n < s.next_id
    pub next_small : s.next_id ≤ 2 ^ 63
    -- a text that is cached for an id, if it decodes, is the item of the row with that id
    pub cached :
        (id : ℤ) (text : String) (item : WorkflowItem)
        → s.cache (cache_key id) ≡ some text
        → decode text ≡ some item
        → (wf : Workflow) × (row_at s id ≡ some wf) × (item ≡ to_workflow_item wf)

  -- The row behind an item, in a state with the same rows.
  kept_row :
      (s u : Store) (id : ℤ) (item : WorkflowItem)
      → u.rows ≡ s.rows
      → (wf : Workflow) × (row_at s id ≡ some wf) × (item ≡ to_workflow_item wf)
      → (wf : Workflow) × (row_at u id ≡ some wf) × (item ≡ to_workflow_item wf)
  kept_row s u (pos n) item same (wf, there, is) = (wf, ap (λ rows. rows n) same ∙ there, is)
  kept_row s u (negsuc n) item same (wf, there, is) = cc

  pub drop-Coherent : (s : Store) (k : String) → Coherent s → Coherent (apply (redis_del k) s)
  unfolding apply
  drop-Coherent s k c = record {
    own_id = c.own_id;
    below_next = c.below_next;
    next_small = c.next_small;
    cached = λ id text item held decoded. elim (Bool-cases (str_eq (cache_key id) k)) [
      | inl e ↦ ground arith
      | inr e ↦
          kept_row s (record s { cache = set_key s.cache k none }) id item refl
            (c.cached id text item (ground arith) decoded)
    ];
  }

  pub fill-Coherent :
      (s : Store) (n ttl : ℕ) (wf : Workflow) (text : String)
      → s.rows n ≡ some wf
      → decode text ≡ some (to_workflow_item wf)
      → Coherent s
      → Coherent (apply (redis_set_ex (cache_key (pos n)) text ttl) s)
  unfolding apply
  fill-Coherent s n ttl wf text there back c = record {
    own_id = c.own_id;
    below_next = c.below_next;
    next_small = c.next_small;
    cached = λ id text' item held decoded.
        elim (Bool-cases (str_eq (cache_key id) (cache_key (pos n)))) [
          | inl e ↦
              let same : id ≡ pos n = cache_key_inj id (pos n) ((eq_iff _ _).0 e) in
              (wf, rw same there, ground arith)
          | inr e ↦
              kept_row s (record s { cache = set_key s.cache (cache_key (pos n)) (some text) }) id
                item refl (c.cached id text' item (ground arith) decoded)
        ];
  }

  -- A write of one row, by a store whose cache holds nothing for that row and nothing new.
  write-Coherent :
      (s : Store) (n next : ℕ) (r : Option Workflow) (cache : String → Option String)
      → Coherent s
      → ((wf : Workflow) → r ≡ some wf → (wf.id ≡ n) × (n < next))
      → s.next_id ≤ next
      → next ≤ 2 ^ 63
      → ((id : ℤ) (text : String)
          → cache (cache_key id) ≡ some text
          → s.cache (cache_key id) ≡ some text)
      → ((text : String) (item : WorkflowItem)
          → cache (cache_key (pos n)) ≡ some text
          → decode text ≡ some item
          → ⊥)
      → Coherent (record { rows = set_row s.rows n r; next_id = next; cache = cache })
  write-Coherent s n next r cache c fits grows small old dropped = record {
    own_id = λ m wf held. elim (Bool-cases (m == n)) [
      | inl e ↦ let f = fits wf (ground arith) in ground arith
      | inr e ↦ c.own_id m wf (ground arith)
    ];
    below_next = λ m wf held. elim (Bool-cases (m == n)) [
      | inl e ↦ let f = fits wf (ground arith) in ground arith
      | inr e ↦ let f = c.below_next m wf (ground arith) in omega arith
    ];
    next_small = small;
    cached = λ id text item held decoded.
        written_row id text item held decoded (c.cached id text item (old id text held) decoded);
  }
    where
      written_row :
          (id : ℤ) (text : String) (item : WorkflowItem)
          → cache (cache_key id) ≡ some text
          → decode text ≡ some item
          → (wf : Workflow) × (row_at s id ≡ some wf) × (item ≡ to_workflow_item wf)
          → (wf : Workflow) × (row_at
                (record { rows = set_row s.rows n r; next_id = next; cache = cache })
                id
              ≡ some wf)
            × (item ≡ to_workflow_item wf)
      written_row (pos m) text item held decoded before = elim (Bool-cases (m == n)) [
        | inl e ↦
            let same : m ≡ n = (==_iff m n).0 e in
            absurd (dropped text item (rw same at held) decoded)
        | inr e ↦ rw e before
      ]
      written_row (negsuc m) text item held decoded (wf, there, is) = cc

  -- An update or a deletion, with the key dropped behind it.
  pub update-Coherent :
      (s : Store) (n : ℕ) (us : List Update) (wf : Workflow)
      → s.rows n ≡ some wf
      → Coherent s
      → Coherent (apply (redis_del (cache_key (pos n))) (apply (update_workflow n us) s))
  unfolding apply
  update-Coherent s n us wf there c =
      write-Coherent s n s.next_id (on_row (λ row. some (apply_updates row us)) (s.rows n)) _ c
        (λ row e.
          let held : some (apply_updates wf us) ≡ some row =
            sym (ap (on_row (λ old. some (apply_updates old us))) there) ∙ e in
          let same : apply_updates wf us ≡ row = cc in
          (
            ap (λ old. old.id) (sym same) ∙ apply_updates-id us wf ∙ c.own_id n wf there,
            c.below_next n wf there,
          ))
        (omega arith) c.next_small (λ m text held. ground arith)
        (λ text item held decoded. ground (arith, eq_iff (cache_key (pos n)) (cache_key (pos n))))

  pub delete-Coherent :
      (s : Store) (n : ℕ)
      → Coherent s
      → Coherent (apply (redis_del (cache_key (pos n))) (apply (delete_workflow n) s))
  unfolding apply
  delete-Coherent s n c =
      write-Coherent s n s.next_id none _ c (λ row e. cc) (omega arith) c.next_small
        (λ m text held. ground arith)
        (λ text item held decoded. ground (arith, eq_iff (cache_key (pos n)) (cache_key (pos n))))

  pub create-Coherent :
      (s : Store) (wf : Workflow)
      → s.next_id < 2 ^ 63
      → Coherent s
      → Coherent (apply (create_workflow wf) s)
  unfolding apply
  create-Coherent s wf room c =
      write-Coherent s s.next_id (suc s.next_id) (some (record wf { id = s.next_id })) s.cache c
        (λ row e. ground arith) (omega arith) (omega arith) (λ m text held. held)
        (λ text item held decoded.
          let (row, there, same) = c.cached (pos s.next_id) text item held decoded in
          let less = c.below_next s.next_id row there in omega arith)
