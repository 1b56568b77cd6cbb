-- ===== src/Tests/StoreRuns.antt =====
-- A table of one workflow with its item in the cache, and requests to it.
use workflow_automation_go_z.Common.{
  String, Bool, true, false, Option, none, some, [], ◌∷◌, ◌++◌, ℤ, pos, negsuc, ◌==◌, ==_iff,
  str_eq, eq_iff, ◌&&◌, if◌then◌else◌, ◌≡◌, refl, sym, ap, ◌≢◌, arith, to_int64, Bool-cases, inl,
  inr,
}
use workflow_automation_go_z.Gateway.Outside.{WorkflowItem, Trace, redis_del, redis_set_ex}
use workflow_automation_go_z.Gateway.Auth.{has_role, user_id_from_ctx}
use workflow_automation_go_z.Gateway.Workflows.{
  CreateWorkflowReq, to_workflow_item, get, cache_key, cache_ttl, updates_of, check_ownership_model,
  owner_check,
}
use workflow_automation_go_z.Gateway.Workflows.Writes.{apply_updates}
use workflow_automation_go_z.Gateway.Store.{Store, Codec, Around, serve, apply}
use workflow_automation_go_z.Gateway.Store.Coherent.{Coherent, cache_key_inj}
use workflow_automation_go_z.Gateway.Store.Requests.{
  RoundTrips, DelWorks, handle, calls, get_request, update_request, create_request,
}
use workflow_automation_go_z.Gateway.Store.Reach.{request, expire, start, onward, Reach-Coherent}
use workflow_automation_go_z.Gateway.Store.Race.{run, run-interleaved}
use workflow_automation_go_z.Gateway.Store.Table.{answer_of, get-answer_of}
use workflow_automation_go_z.Tests.GatewayRuns.{ann, bob, report, one_workflow, rename}

abbrev report_item : WorkflowItem
report_item = record {
  id = pos 7;
  name = "report";
  trigger_type = "manual";
  trigger_config = "{}";
  steps = "[]";
  is_active = true;
}

abbrev same_id : ℤ → Bool
same_id (pos n) = n == 7
same_id (negsuc n) = false

-- Only the item of the report has a text.
abbrev one_item : Codec
one_item = record { encode = encode_item; decode = decode_item }
  where
    encode_item : WorkflowItem → Option String
    encode_item item =
        if same_id item.id
          && (str_eq item.name "report"
              && (str_eq item.trigger_type "manual"
                  && (str_eq item.trigger_config "{}"
                      && (str_eq item.steps "[]" && item.is_active))))
        then some "{report}"
        else none

    decode_item : String → Option WorkflowItem
    decode_item text = if str_eq text "{report}" then some report_item else none

same_id-pos : (i : ℤ) → same_id i ≡ true → pos 7 ≡ i
same_id-pos (pos n) e = ap pos (sym ((==_iff n 7).0 e))
same_id-pos (negsuc n) e = cc

report_item-fields :
    (id : ℤ) (name type config steps : String) (active : Bool)
    → pos 7 ≡ id
    → name ≡ "report"
    → type ≡ "manual"
    → config ≡ "{}"
    → steps ≡ "[]"
    → active ≡ true
    → report_item ≡ record {
      id = id;
      name = name;
      trigger_type = type;
      trigger_config = config;
      steps = steps;
      is_active = active;
    }
report_item-fields id name type config steps active a b c d e f = rw (sym a, b, c, d, e, f) refl

encoded-fields :
    (item : WorkflowItem) (text : String)
    → one_item.encode item ≡ some text
    → (same_id item.id ≡ true)
      × (item.name ≡ "report")
      × (item.trigger_type ≡ "manual")
      × (item.trigger_config ≡ "{}")
      × (item.steps ≡ "[]")
      × (item.is_active ≡ true)
      × (text ≡ "{report}")
encoded-fields item text e = ground (
  arith,
  eq_iff item.name "report",
  eq_iff item.trigger_type "manual",
  eq_iff item.trigger_config "{}",
  eq_iff item.steps "[]",
)

one_item-RoundTrips : RoundTrips one_item
one_item-RoundTrips = record {
  back = λ item text e.
      let (id, name, type, config, steps, active, held) = encoded-fields item text e in
      rw held (
        ap some (
          report_item-fields item.id item.name item.trigger_type item.trigger_config item.steps
            item.is_active (same_id-pos item.id id) name type config steps active));
}

-- No call fails.
abbrev calm : Around
calm = record { fault = λ t c. none; matching = λ rows f. []; rest = one_workflow }

abbrev calm-DelWorks : DelWorks calm
calm-DelWorks = record { del = λ t k. refl }

abbrev small_store : Store
small_store = record {
  rows = λ n. if n == 7 then some report else none;
  next_id = 8;
  cache = λ k. if str_eq k (cache_key (pos 7)) then some "{report}" else none;
}

cached_report :
    (id : ℤ) (text : String) (item : WorkflowItem)
    → small_store.cache (cache_key id) ≡ some text
    → one_item.decode text ≡ some item
    → (id ≡ pos 7) × (item ≡ report_item)
cached_report id text item held decoded =
    elim (Bool-cases (str_eq (cache_key id) (cache_key (pos 7)))) [
      | inl e ↦ (
        cache_key_inj id (pos 7) ((eq_iff (cache_key id) (cache_key (pos 7))).0 e),
        ground (arith, eq_iff text "{report}"),
      )
      | inr e ↦ ground arith
    ]

small_store-Coherent : Coherent one_item.decode small_store
unfolding to_workflow_item to_int64
small_store-Coherent = record {
  own_id = λ n wf e. ground arith;
  below_next = λ n wf e. ground arith;
  next_small = omega arith;
  cached = λ id text item held decoded.
      let (at, same) = cached_report id text item held decoded in (report, rw at refl, same);
}

abbrev send_report : CreateWorkflowReq
send_report = record { name = "mail"; trigger_type = "manual"; trigger_config = ""; steps = "" }

-- The report is renamed, another workflow is created, and the item of the report expires.
abbrev renamed : Store
renamed = handle one_item calm small_store (update_request ann rename)

abbrev created : Store
created = handle one_item calm renamed (create_request bob send_report)

abbrev expired : Store
expired = apply (redis_del (cache_key (pos 7))) created

Reach-Coherent_example : Coherent one_item.decode expired
Reach-Coherent_example =
    Reach-Coherent one_item one_item-RoundTrips small_store expired
      (onward created expired
        (onward renamed created
          (onward small_store renamed start
            (request small_store calm (update_request ann rename) calm-DelWorks))
          (request renamed calm (create_request bob send_report) calm-DelWorks))
        (expire created (cache_key (pos 7))))
      small_store-Coherent

get-answer_of_example :
    (get (serve one_item calm small_store) bob (pos 7) []).0 ≡ answer_of bob (some report)
get-answer_of_example =
    get-answer_of one_item calm small_store bob (pos 7) small_store-Coherent
      (record { first = λ t id. refl; owner = λ t id. refl })

report-renamed :
    to_workflow_item report ≢ to_workflow_item (apply_updates report (updates_of rename))
unfolding to_workflow_item updates_of
report-renamed e =
    let same : "report" ≡ "weekly report" = ap (λ i. i.name) e in
    ground (arith, eq_iff "report" "weekly report")

abbrev cold_store : Store
cold_store = record small_store { cache = λ k. none }

cold_store-Coherent : Coherent one_item.decode cold_store
cold_store-Coherent =
    let warm = small_store-Coherent in
    record {
      own_id = warm.own_id;
      below_next = warm.below_next;
      next_small = warm.next_small;
      cached = λ id text item held decoded. cc;
    }

run-interleaved_example :
    let w = serve one_item calm cold_store in
    let store_report = redis_set_ex (cache_key (pos 7)) "{report}" cache_ttl in
    (t : Trace) × (calls w (get_request ann (pos 7)) ≡ t ++ store_report ∷ [])
    × ¬ Coherent one_item.decode
        (run (t ++ (calls w (update_request ann rename) ++ store_report ∷ [])) cold_store)
run-interleaved_example =
    run-interleaved one_item calm (record { none_fails = λ t c. refl }) cold_store
      cold_store-Coherent 7 report refl ann ann rename "{report}" one_item-RoundTrips refl
      (unfold to_workflow_item to_int64 in refl) refl
      (unfold check_ownership_model has_role owner_check user_id_from_ctx in refl)
      (unfold check_ownership_model has_role owner_check user_id_from_ctx in refl) report-renamed
