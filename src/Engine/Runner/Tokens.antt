-- ===== src/Engine/Runner/Tokens.antt =====
-- What an AI step streams and what it returns.
use mathlib.Core.List.{map-append}
use text.Mathlib.TextLemmas.{
  append-nil as text_append-nil, nil-append as text_nil-append, append_assoc as text_append_assoc,
}
use workflow_automation_go_z.Common.{
  String, Bool, true, false, not, ◌||◌, Option, none, some, List, [], ◌∷◌, ◌++◌, map, ◌≡◌, refl,
  sym, ap, ◌∙◌, inl, inr, str_eq, if◌then◌else◌, ◌<>◌, Bool-cases, collect, collect-append,
  append-nil, append_assoc, ◌>>=◌, ◌>>◌, pure, Result, ok, err,
}
use workflow_automation_go_z.Value.{GoMap, string, single}
use workflow_automation_go_z.Engine.Outside.{
  Context, Call, Trace, M, World, ModelRequest, Delta, publish, openai_stream, anthropic_stream,
}
use workflow_automation_go_z.Engine.Runner.Simple.{render}
use workflow_automation_go_z.Engine.Runner.Ai.{
  AiTaskRunner, encode_token_event, publish_token, read_delta, read_deltas, read_chunk, read_chunks,
  finish_stream, run_anthropic, run_openai, run_ai_task,
}

-- The channel and the payload of what is published.
abbrev pub publish_view : Call → List (String × String)
publish_view (publish channel payload) = (channel, payload) ∷ []
publish_view _ = []

-- The texts that are not empty, in order.
abbrev pub nonempty : List String → List String
nonempty [] = []
nonempty (s ∷ ss) = if str_eq s "" then nonempty ss else s ∷ nonempty ss

-- The texts of the deltas that are texts, and the first contents of the chunks that have one.
abbrev pub delta_texts : List Delta → List String
delta_texts [] = []
delta_texts (d ∷ ds) =
    if str_eq d.type "text_delta" then d.text ∷ delta_texts ds else delta_texts ds

abbrev pub chunk_texts : List (List String) → List String
chunk_texts [] = []
chunk_texts ([] ∷ cs) = chunk_texts cs
chunk_texts ((token ∷ _) ∷ cs) = token ∷ chunk_texts cs

abbrev pub concat : List String → String
concat [] = ""
concat (s ∷ ss) = s <> concat ss

-- The event of a token, or of the end.
abbrev pub token_event : AiTaskRunner → String × Bool → String × String
token_event r e = (
  r.stream_chan,
  encode_token_event
      (record { type = "ai_token"; step_id = r.step_id; token = e.0; finished = e.1 }),
)

-- No event is published where there is no Redis client or no channel.
abbrev pub announced : AiTaskRunner → List (String × Bool) → List (String × String)
announced r es = if not r.rdb || str_eq r.stream_chan "" then [] else map (token_event r) es

abbrev pub partial : String → String × Bool
partial token = (token, false)

module _ (r : AiTaskRunner) where
  publish_token-announced :
      (token : String) (finished : Bool) (t : Trace)
      → collect publish_view (publish_token r token finished t).1
        ≡ collect publish_view t ++ announced r ((token, finished) ∷ [])
  unfolding publish_token ◌>>=◌
  publish_token-announced token finished t =
      elim (Bool-cases (not r.rdb || str_eq r.stream_chan "")) [
        | inl e ↦ rw e (sym (append-nil _))
        | inr e ↦ rw e (simp (collect-append, append-nil))
      ]

  announced-append :
      (xs ys : List (String × Bool)) → announced r (xs ++ ys) ≡ announced r xs ++ announced r ys
  announced-append xs ys = elim (Bool-cases (not r.rdb || str_eq r.stream_chan "")) [
    | inl e ↦ rw e
    | inr e ↦ rw e (map-append (token_event r) xs ys)
  ]

  announced-nil : announced r [] ≡ []
  announced-nil = elim (Bool-cases (not r.rdb || str_eq r.stream_chan "")) [
    | inl e ↦ rw e
    | inr e ↦ rw e
  ]

  -- The action reads these tokens behind `out`: it returns the text with them and publishes them.
  abbrev Reads : M String → String → List String → Trace → Type 0
  Reads m out tokens t =
      ((m t).0 ≡ out <> concat tokens)
      × (collect publish_view (m t).1 ≡ collect publish_view t ++ announced r (map partial tokens))

  pure-Reads : (out : String) (t : Trace) → Reads (pure out) out [] t
  unfolding ◌>>=◌
  pure-Reads out t = (
    sym (text_append-nil out),
    sym (append-nil _) ∙ ap (λ l. collect publish_view t ++ l) (sym announced-nil),
  )

  publish_token-Reads :
      (token out : String) (tokens : List String) (k : String → M String) (t : Trace)
      → Reads (k (out <> token)) (out <> token) tokens (publish_token r token false t).1
      → Reads (do publish_token r token false; k (out <> token)) out (token ∷ tokens) t
  unfolding ◌>>=◌
  publish_token-Reads token out tokens k t (same, shown) = (
    same ∙ text_append_assoc out token (concat tokens),
    shown
        ∙ ap (λ l. l ++ announced r (map partial tokens)) (publish_token-announced token false t)
        ∙ append_assoc (collect publish_view t) (announced r ((token, false) ∷ []))
            (announced r (map partial tokens))
        ∙ ap (λ l. collect publish_view t ++ l)
            (sym (announced-append ((token, false) ∷ []) (map partial tokens))),
  )

  read_deltas-texts :
      (ds : List Delta) (out : String) (t : Trace)
      → Reads (read_deltas r ds out) out (nonempty (delta_texts ds)) t
  unfolding read_deltas read_delta ◌>>=◌
  read_deltas-texts [] out t = pure-Reads out t
  read_deltas-texts (d ∷ ds) out t = elim (Bool-cases (str_eq d.type "text_delta")) [
    | inl e ↦ elim (Bool-cases (str_eq d.text "")) [
      | inl none_left ↦ rw (e, none_left) (read_deltas-texts ds out t)
      | inr some_left ↦
          rw (e, some_left)
            (publish_token-Reads d.text out (nonempty (delta_texts ds)) (read_deltas r ds) t
              (read_deltas-texts ds (out <> d.text) (publish_token r d.text false t).1))
    ]
    | inr e ↦ rw e (read_deltas-texts ds out t)
  ]

  read_chunks-texts :
      (cs : List (List String)) (out : String) (t : Trace)
      → Reads (read_chunks r cs out) out (nonempty (chunk_texts cs)) t
  unfolding read_chunks read_chunk ◌>>=◌
  read_chunks-texts [] out t = pure-Reads out t
  read_chunks-texts ([] ∷ cs) out t = read_chunks-texts cs out t
  read_chunks-texts ((token ∷ more) ∷ cs) out t = elim (Bool-cases (str_eq token "")) [
    | inl none_left ↦ rw none_left (read_chunks-texts cs out t)
    | inr some_left ↦ rw some_left (
        publish_token-Reads token out (nonempty (chunk_texts cs)) (read_chunks r cs) t
          (read_chunks-texts cs (out <> token) (publish_token r token false t).1))
  ]

-- What a service streams for a prompt: its tokens, and the error that the stream ends with.
module _ {F : Type 0} (w : World F) (r : AiTaskRunner) where
  abbrev pub request_of : String → String → ModelRequest
  request_of key prompt = record {
    api_key = key;
    model = r.model;
    max_tokens = r.max_tokens;
    prompt = prompt;
  }

  abbrev pub reply : String → Trace → List String × Option String
  reply prompt t =
      if str_eq r.provider "openai"
      then (
        nonempty (chunk_texts (w.stream_openai t (request_of r.openai_key prompt)).items),
        (w.stream_openai t (request_of r.openai_key prompt)).error,
      )
      else (
        nonempty (delta_texts (w.stream_anthropic t (request_of r.anthropic_key prompt)).items),
        (w.stream_anthropic t (request_of r.anthropic_key prompt)).error,
      )

  -- The result and the last event, by the error that the stream ended with.
  abbrev pub result_of : List String → Option String → Result (GoMap F)
  result_of tokens none = ok (single "output" (string (concat tokens)))
  result_of tokens (some e) =
      err ((if str_eq r.provider "openai" then "openai" else "anthropic") <> " stream: " <> e)

  abbrev pub last_event : Option String → List (String × Bool)
  last_event none = ("", true) ∷ []
  last_event (some e) = []

  finish_stream-announced :
      (service : String) (tokens : List String) (error : Option String) (out : String) (t : Trace)
      → (if str_eq r.provider "openai" then "openai" else "anthropic") ≡ service
      → out ≡ concat tokens
      → ((finish_stream {F = F} r service error out t).0 ≡ result_of tokens error)
        × (collect publish_view (finish_stream {F = F} r service error out t).1
            ≡ collect publish_view t ++ announced r (last_event error))
  unfolding finish_stream ◌>>=◌
  finish_stream-announced service tokens none out t same text =
      (ap (λ s. ok (single "output" (string s))) text, publish_token-announced r "" true t)
  finish_stream-announced service tokens (some e) out t same text = (
    ap (λ s. err (s <> " stream: " <> e)) (sym same),
    sym (append-nil _) ∙ ap (λ l. collect publish_view t ++ l) (sym (announced-nil r)),
  )

  -- What the end of a stream makes of the tokens that were read before it.
  finish_stream-Reads :
      (m : M String) (service : String) (tokens : List String) (error : Option String) (t u : Trace)
      → (if str_eq r.provider "openai" then "openai" else "anthropic") ≡ service
      → collect publish_view u ≡ collect publish_view t
      → Reads r m "" tokens u
      → let x = finish_stream {F = F} r service error (m u).0 (m u).1 in
        (x.0 ≡ result_of tokens error)
        × (collect publish_view x.1
            ≡ collect publish_view t ++ announced r (map partial tokens ++ last_event error))
  finish_stream-Reads m service tokens error t u same quiet (text, shown) =
      let (result, last) =
        finish_stream-announced service tokens error (m u).0 (m u).1 same
          (text ∙ text_nil-append (concat tokens)) in
      (
        result,
        last
            ∙ ap (λ l. l ++ announced r (last_event error)) shown
            ∙ append_assoc (collect publish_view u) (announced r (map partial tokens))
                (announced r (last_event error))
            ∙ ap (λ l. l ++ (announced r (map partial tokens) ++ announced r (last_event error)))
                quiet
            ∙ ap (λ l. collect publish_view t ++ l)
                (sym (announced-append r (map partial tokens) (last_event error))),
      )

  -- Where the prompt renders, the step returns the concatenation of the tokens that are not empty,
  -- or the error that the stream ended with. If there is a Redis client and a channel, it publishes
  -- each of these tokens in order on that channel, and where the stream ended without an error one
  -- last event that says so; otherwise it publishes nothing.
  pub run_ai_task-streams :
      (ctx : Context) (input : GoMap F) (t : Trace) (prompt : String)
      → render w r.prompt_tmpl input ≡ ok prompt
      → let (tokens, error) = reply prompt t in
        ((run_ai_task w r ctx input t).0 ≡ result_of tokens error)
        × (collect publish_view (run_ai_task w r ctx input t).1
            ≡ collect publish_view t ++ announced r (map partial tokens ++ last_event error))
  unfolding run_ai_task run_openai run_anthropic ◌>>=◌
  run_ai_task-streams ctx input t prompt e = elim (Bool-cases (str_eq r.provider "openai")) [
    | inl o ↦
        let stream = w.stream_openai t (request_of r.openai_key prompt) in
        rw (e, o, run_ai_task)
          (finish_stream-Reads (read_chunks r stream.items "") "openai"
            (nonempty (chunk_texts stream.items)) stream.error t
            (t ++ openai_stream (request_of r.openai_key prompt) ∷ []) (rw o refl)
            (simp (collect-append, append-nil)) (read_chunks-texts r stream.items "" _))
    | inr o ↦
        let stream = w.stream_anthropic t (request_of r.anthropic_key prompt) in
        rw (e, o, run_ai_task)
          (finish_stream-Reads (read_deltas r stream.items "") "anthropic"
            (nonempty (delta_texts stream.items)) stream.error t
            (t ++ anthropic_stream (request_of r.anthropic_key prompt) ∷ []) (rw o refl)
            (simp (collect-append, append-nil)) (read_deltas-texts r stream.items "" _))
  ]
