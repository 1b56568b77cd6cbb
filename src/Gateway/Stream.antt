-- ===== src/Gateway/Stream.antt =====
-- api-gateway/internal/handler/executionstreamhandler.go: the events of an execution as server-sent
-- events, up to one that says "finished".
pub mod Skip
pub mod Finished
use workflow_automation_go_z.Common.{
  ℕ, String, Bool, true, false, List, [], ◌∷◌, ◌||◌, ◌&&◌, ◌==◌, str_eq, if◌then◌else◌, ◌<>◌, codes,
  decimal, ℤ, pure, ask, tell, ◌>>=◌, ◌>>◌,
}
use workflow_automation_go_z.Gateway.Outside.{
  Execution, Found, row, record_not_found, db_error, M, World, first_execution, subscribe,
  unsubscribe,
}

-- `strings.HasPrefix` and `strings.Contains`, on code points.
unfoldable pub has_prefix : List ℕ → List ℕ → Bool
has_prefix s [] = true
has_prefix [] (c ∷ p) = false
has_prefix (d ∷ s) (c ∷ p) = d == c && has_prefix s p

unfoldable pub contains : List ℕ → List ℕ → Bool
unfolding has_prefix
contains [] p = has_prefix [] p
contains (c ∷ s) p = has_prefix (c ∷ s) p || contains s p

abbrev pub finished_mark : List ℕ
finished_mark = codes "\"type\":\"finished\""

abbrev pub finished_mark_spaced : List ℕ
finished_mark_spaced = codes "\"type\": \"finished\""

unfoldable pub is_finished : String → Bool
unfolding contains
is_finished payload =
    contains (codes payload) finished_mark || contains (codes payload) finished_mark_spaced

-- What the environment brings next while the handler waits: a message of the channel, the channel
-- closed, or the client gone.
pub data Arrival : Type 0 where
  message : String → Arrival
  closed : Arrival
  disconnected : Arrival

-- How the request is answered, with what is written to the client.
pub data Answer : Type 0 where
  not_found : Answer
  not_supported : Answer
  events : List String → Answer

-- `data: …` and an empty line.
abbrev pub frame : String → String
frame payload = "data: " <> payload <> "\n\n"

-- The loop: the frames that it writes for what arrives.
unfoldable pub forward : List Arrival → List String
unfolding is_finished
forward [] = []
forward (closed ∷ rest) = []
forward (disconnected ∷ rest) = []
forward (message payload ∷ rest) =
    let more = forward rest in frame payload ∷ (if is_finished payload then [] else more)

-- The frame for an execution that is already over.
abbrev pub final_frame : Execution → String
final_frame ex = frame (
    "{\"type\":\"finished\",\"executionId\":"
    <> decimal ex.id
    <> ",\"status\":\""
    <> ex.status
    <> "\"}")

-- The channel of an execution's workflow.
abbrev pub channel_of : Execution → String
channel_of ex = "executions:" <> decimal ex.workflow_id

-- The answer once the execution is loaded; `flushes` says whether the writer can flush.
unfoldable pub answer : Bool → List Arrival → Found Execution → M Answer
unfolding forward decimal
answer flushes arrivals record_not_found = pure not_found
answer flushes arrivals (db_error _) = pure not_found
answer flushes arrivals (row ex) =
    if str_eq ex.status "success" || str_eq ex.status "failed"
    then pure (events (final_frame ex ∷ []))
    else do
      tell (subscribe (channel_of ex))
      tell unsubscribe
      pure (if flushes then events (forward arrivals) else not_supported)

module _ (w : World) where
  -- `arrivals` is what the channel and the client bring while the subscription lasts.
  unfoldable pub stream_handler : Bool → List Arrival → ℤ → M Answer
  unfolding answer
  stream_handler flushes arrivals id = do
    found ← ask (first_execution id) (λ t. w.load_execution t id)
    answer flushes arrivals found
