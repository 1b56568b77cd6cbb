-- ===== src/Gateway/Stream/Finished.antt =====
-- Which events of the engine end an event stream, and what the client has got by then.
use workflow_automation_go_z.Common.{
  not, ◌&&◌, map, arith, ℕ, String, Bool, true, false, ◌||◌, ◌==◌, str_eq, if◌then◌else◌, List, [],
  ◌∷◌, ◌++◌, ◌≡◌, refl, ap, ◌∙◌, codes, codes-append, append_assoc, decimal, decimal-plain, inl,
  inr, Bool-cases,
}
use workflow_automation_go_z.Json.{escape, quote, string_member, number_member, boolean_member}
use workflow_automation_go_z.Json.Escaped.{escape-escaped}
use workflow_automation_go_z.Engine.Server.{encode_redis_event}
use workflow_automation_go_z.Engine.Runner.Ai.{encode_token_event}
use workflow_automation_go_z.Gateway.Stream.{
  Arrival, message, frame, forward, has_prefix, contains, is_finished, finished_mark_spaced,
}
use workflow_automation_go_z.Gateway.Stream.Skip.{key, contains-miss, skip_quoted, skip_number}

abbrev pub token_payload : String → String → Bool → String
token_payload step token finished =
    encode_token_event
      (record { type = "ai_token"; step_id = step; token = token; finished = finished })

abbrev token_tail : Bool → List ℕ
token_tail true = codes "\"finished\":true}"
token_tail false = codes "\"finished\":false}"

codes-token_payload :
    (step token : String) (finished : Bool)
    → codes (token_payload step token finished)
      ≡ codes "{\"type\":\"ai_token\",\"stepId\":"
        ++ (34 ∷ codes (escape step)
            ++ (34 ∷ 44 ∷ codes "\"token\":"
                ++ (34 ∷ codes (escape token) ++ (34 ∷ 44 ∷ token_tail finished))))
unfolding encode_token_event string_member boolean_member quote
codes-token_payload step token true = simp (codes-append, append_assoc)
codes-token_payload step token false = simp (codes-append, append_assoc)

token_key :
    (q : List ℕ) (step token : String) (finished : Bool)
    → ((s : List ℕ) → has_prefix (34 ∷ 97 ∷ s) q ≡ false)
    → contains (codes (token_payload step token finished)) (key q) ≡ false
unfolding contains has_prefix
token_key q step token finished other =
    let after_token = token_tail finished in
    let after_step = codes "\"token\":" ++ (34 ∷ codes (escape token) ++ (34 ∷ 44 ∷ after_token)) in
    let after_type =
      codes "i_token\",\"stepId\":" ++ (34 ∷ codes (escape step) ++ (34 ∷ 44 ∷ after_step)) in
    ap (λ l. contains l (key q)) (codes-token_payload step token finished)
    ∙ contains-miss 34 (codes "type\":\"a" ++ after_type) (key q) (other after_type)
    ∙ skip_quoted q after_step 44 (codes (escape step)) (escape-escaped step) refl refl refl
    ∙ skip_quoted q after_token 44 (codes (escape token)) (escape-escaped token) refl refl refl
    ∙ elim (Bool-cases finished) [ inl e ↦ rw e refl | inr e ↦ rw e refl ]

abbrev pub event_payload : String → ℕ → String → String → ℕ → String
event_payload type id step status ms =
    encode_redis_event
      (record { type = type; execution_id = id; step_id = step; status = status; duration_ms = ms })

-- The member with the status and what follows it, and the step and the duration where they are there.
abbrev status_list : String → List ℕ → List ℕ
status_list status tail = codes "\"status\":" ++ (34 ∷ codes (escape status) ++ 34 ∷ tail)

abbrev step_list : String → List ℕ → List ℕ
step_list step tail =
    if str_eq step ""
    then tail
    else codes "\"stepId\":" ++ (34 ∷ codes (escape step) ++ 34 ∷ 44 ∷ tail)

abbrev duration_list : ℕ → List ℕ
duration_list ms =
    if ms == 0 then codes "}" else codes ",\"durationMs\":" ++ (codes (decimal ms) ++ codes "}")

codes-event_payload :
    (id : ℕ) (step status : String) (ms : ℕ)
    → codes (event_payload "step_done" id step status ms)
      ≡ codes "{\"type\":\"step_done\",\"executionId\":"
        ++ (codes (decimal id) ++ (44 ∷ step_list step (status_list status (duration_list ms))))
unfolding encode_redis_event string_member number_member quote
codes-event_payload id step status ms = elim (Bool-cases (str_eq step "")) [
  | inl e ↦ elim (Bool-cases (ms == 0)) [
    | inl z ↦ rw (e, z) (simp (codes-append, append_assoc))
    | inr z ↦ rw (e, z) (simp (codes-append, append_assoc))
  ]
  | inr e ↦ elim (Bool-cases (ms == 0)) [
    | inl z ↦ rw (e, z) (simp (codes-append, append_assoc))
    | inr z ↦ rw (e, z) (simp (codes-append, append_assoc))
  ]
]

module _ (q : List ℕ) where
  status_key :
      (status : String) (ms : ℕ) → contains (status_list status (duration_list ms)) (key q) ≡ false
  unfolding contains has_prefix
  status_key status ms = elim (Bool-cases (ms == 0)) [
    | inl z ↦
        rw z (skip_quoted q [] 125 (codes (escape status)) (escape-escaped status) refl refl refl)
    | inr z ↦ rw z (
        skip_quoted q (codes "\"durationMs\":" ++ (codes (decimal ms) ++ codes "}")) 44
          (codes (escape status)) (escape-escaped status) refl refl refl
        ∙ skip_number q (codes (decimal ms)) (codes "}") (decimal-plain ms))
  ]

  step_key :
      (step : String) (tail : List ℕ)
      → contains (step_list step tail) (key q) ≡ contains tail (key q)
  unfolding contains has_prefix
  step_key step tail = elim (Bool-cases (str_eq step "")) [
    | inl e ↦ rw e refl
    | inr e ↦
        rw e (skip_quoted q tail 44 (codes (escape step)) (escape-escaped step) refl refl refl)
  ]

  event_key :
      (id : ℕ) (step status : String) (ms : ℕ)
      → ((s : List ℕ) → has_prefix (34 ∷ 115 ∷ s) q ≡ false)
      → contains (codes (event_payload "step_done" id step status ms)) (key q) ≡ false
  unfolding contains has_prefix
  event_key id step status ms other =
      let after_id = step_list step (status_list status (duration_list ms)) in
      let after_type =
        codes "tep_done\",\"executionId\":" ++ (codes (decimal id) ++ (44 ∷ after_id)) in
      ap (λ l. contains l (key q)) (codes-event_payload id step status ms)
      ∙ contains-miss 34 (codes "type\":\"s" ++ after_type) (key q) (other after_type)
      ∙ skip_number q (codes (decimal id)) (44 ∷ after_id) (decimal-plain id)
      ∙ step_key step (status_list status (duration_list ms))
      ∙ status_key status ms

-- What follows the key in the two marks.
abbrev after_key : List ℕ
after_key = codes "\"finished\""

abbrev after_key_spaced : List ℕ
after_key_spaced = codes " \"finished\""

pub is_finished-finished :
    (id : ℕ) (step status : String) (ms : ℕ)
    → is_finished (event_payload "finished" id step status ms) ≡ true
unfolding is_finished contains has_prefix encode_redis_event string_member number_member quote
is_finished-finished id step status ms = simp codes-append

pub is_finished-step_done :
    (id : ℕ) (step status : String) (ms : ℕ)
    → is_finished (event_payload "step_done" id step status ms) ≡ false
unfolding is_finished has_prefix
is_finished-step_done id step status ms =
    ap
      (λ (b : Bool).
        b || contains (codes (event_payload "step_done" id step status ms)) finished_mark_spaced)
      (event_key after_key id step status ms (λ s. refl))
    ∙ event_key after_key_spaced id step status ms (λ s. refl)

pub is_finished-token :
    (step token : String) (finished : Bool)
    → is_finished (token_payload step token finished) ≡ false
unfolding is_finished has_prefix
is_finished-token step token finished =
    ap
      (λ (b : Bool). b || contains (codes (token_payload step token finished)) finished_mark_spaced)
      (token_key after_key step token finished (λ s. refl))
    ∙ token_key after_key_spaced step token finished (λ s. refl)

-- The stream ends at an event "finished" of the engine, whatever its other members are, and goes on
-- at every event "step_done" and at every token of an AI step, whatever texts they carry.
pub is_finished-events :
    (id ms : ℕ) (step status token : String) (finished : Bool)
    → (is_finished (event_payload "finished" id step status ms) ≡ true)
      × (is_finished (event_payload "step_done" id step status ms) ≡ false)
      × (is_finished (token_payload step token finished) ≡ false)
is_finished-events id ms step status token finished = (
  is_finished-finished id step status ms,
  is_finished-step_done id step status ms,
  is_finished-token step token finished,
)

abbrev pub unfinished : List String → Bool
unfinished [] = true
unfinished (p ∷ ps) = not (is_finished p) && unfinished ps

-- The client gets the messages in front of the first finished one and that one itself, in order, and
-- nothing of what comes after it.
pub forward-unfinished :
    (ps : List String) (last : String) (rest : List Arrival)
    → unfinished ps ≡ true
    → is_finished last ≡ true
    → forward (map message ps ++ message last ∷ rest) ≡ map frame (ps ++ last ∷ [])
unfolding forward
forward-unfinished [] last rest h e = rw e refl
forward-unfinished (p ∷ ps) last rest h e =
    let on : is_finished p ≡ false = ground arith in
    rw on (ap (λ fs. frame p ∷ fs) (forward-unfinished ps last rest (ground arith) e))
