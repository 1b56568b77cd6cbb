-- ===== src/Worker/Start.antt =====
-- `New` and `Start` of executionworker.go: one connection, and a consumer for each worker on a channel
-- of its own.
use workflow_automation_go_z.Common.{
  ℕ, zero, suc, String, Option, none, some, List, [], ◌∷◌, ◌++◌, ℤ, pos, negsuc, ◌<>◌, decimal,
  Action, pure, ask, tell, ◌>>=◌, ◌>>◌, ◌≡◌, refl, sym, ◌∙◌, ◌⊎◌, inl, inr, collect, collect-append,
  append_assoc, append-nil, Option-cases,
}

-- The calls on the connection and the channels, of which the numbers are the workers', and the
-- goroutines that are started: a consumer, and the one that closes the connection at the end.
pub data Call : Type 0 where
  dial : String → Call
  open_channel : ℕ → Call
  -- a prefetch count
  qos : ℕ → ℕ → Call
  close_channel : ℕ → Call
  close_connection : Call
  go_consume : ℕ → Call
  go_close : Call

pub record Worker : Type 0 where
  pub amqp_url : String
  pub count : ℤ

-- How often `range` goes round.
abbrev pub rounds : ℤ → ℕ
rounds (pos n) = n
rounds (negsuc n) = 0

module _ (broker : List Call → Call → Option String) where
  -- The loop of `Start` from worker `i` on, with so many to go; `none` where all are started.
  unfoldable pub start_consumers : ℕ → ℕ → Action Call (Option String)
  unfolding decimal
  start_consumers i zero = pure none
  start_consumers i (suc left) = do
    no_channel ← ask (open_channel i) (λ t. broker t (open_channel i))
    elim no_channel [
      | some e ↦ do tell close_connection; pure (some ("worker channel " <> decimal i <> ": " <> e))
      | none ↦ do
        no_qos ← ask (qos i 1) (λ t. broker t (qos i 1))
        elim no_qos [
          | some e ↦ do
            tell (close_channel i)
            tell close_connection
            pure (some ("worker qos " <> decimal i <> ": " <> e))
          | none ↦ do tell (go_consume i); start_consumers (suc i) left
        ]
    ]

  abbrev pub finish_start : Option String → Action Call (Option String)
  finish_start (some e) = pure (some e)
  finish_start none = do tell go_close; pure none

  unfoldable pub start : Worker → Action Call (Option String)
  unfolding start_consumers
  start w = do
    failed ← ask (dial w.amqp_url) (λ t. broker t (dial w.amqp_url))
    elim failed [
      | some e ↦ pure (some ("worker amqp dial: " <> e))
      | none ↦ do stopped ← start_consumers 0 (rounds w.count); finish_start stopped
    ]

-- The consumers that are started, and how often the connection is closed.
abbrev pub consumer_view : Call → List ℕ
consumer_view (go_consume i) = i ∷ []
consumer_view _ = []

abbrev pub closing_view : Call → List (Unit {0})
closing_view close_connection = tt ∷ []
closing_view _ = []

abbrev pub from : ℕ → ℕ → List ℕ
from i zero = []
from i (suc n) = i ∷ from (suc i) n

module _ (broker : List Call → Call → Option String) where
  -- One of these calls came to an error.
  abbrev pub Refusal : List Call → Type 0
  Refusal t =
      (v : List Call) × (c : Call) × (m : String) × (s : List Call) × (broker v c ≡ some m)
      × (t ≡ (v ++ c ∷ []) ++ s)

  -- All the consumers to go are started and nothing is closed, or a call came to an error and the last
  -- one closes the connection.
  abbrev pub Started : ℕ → ℕ → List Call → Option String × List Call → Type 0
  Started i left t r =
      ((r.0 ≡ none)
        × (collect consumer_view r.1 ≡ collect consumer_view t ++ from i left)
        × (collect closing_view r.1 ≡ collect closing_view t))
      ⊎ ((e : String) × (u : List Call) × (r.0 ≡ some e)
          × (r.1 ≡ u ++ close_connection ∷ [])
          × Refusal r.1)

  -- The calls that start one consumer.
  abbrev one_more : ℕ → List Call → List Call
  one_more i t = ((t ++ open_channel i ∷ []) ++ qos i 1 ∷ []) ++ go_consume i ∷ []

  onward :
      (i left : ℕ) (t : List Call) {r : Option String × List Call}
      → Started (suc i) left (one_more i t) r
      → Started i (suc left) t r
  onward i left t (inr failed) = inr failed
  onward i left t (inl (fine, consumers, closings)) = inl (
    fine,
    consumers ∙ simp (collect-append, append-nil, append_assoc),
    closings ∙ simp (collect-append, append-nil),
  )

  start_consumers-Started :
      (i left : ℕ) (t : List Call) → Started i left t (start_consumers broker i left t)
  unfolding start_consumers ◌>>=◌
  start_consumers-Started i zero t = inl (refl, sym (append-nil _), refl)
  start_consumers-Started i (suc left) t = elim (Option-cases (broker t (open_channel i))) [
    | inr (e, bad) ↦ rw bad (
        inr (
          _,
          t ++ open_channel i ∷ [],
          refl,
          refl,
          (t, open_channel i, e, close_connection ∷ [], bad, refl),
        ))
    | inl fine ↦
        let t' = t ++ open_channel i ∷ [] in
        elim (Option-cases (broker t' (qos i 1))) [
          | inr (e, bad) ↦ rw fine (
              rw bad (
                inr (
                  _,
                  (t' ++ qos i 1 ∷ []) ++ close_channel i ∷ [],
                  refl,
                  refl,
                  (
                    t',
                    qos i 1,
                    e,
                    close_channel i ∷ close_connection ∷ [],
                    bad,
                    append_assoc (t' ++ qos i 1 ∷ []) (close_channel i ∷ [])
                        (close_connection ∷ []),
                  ),
                )))
          | inl good ↦ rw fine (rw good (onward i left t (start_consumers-Started (suc i) left _)))
        ]
  ]

  finish-Started :
      (left : ℕ) (t : List Call) (r : Option String × List Call)
      → Started 0 left t r
      → let f = finish_start broker r.0 r.1 in
        ((f.0 ≡ none)
          × (collect consumer_view f.1 ≡ collect consumer_view t ++ from 0 left)
          × (collect closing_view f.1 ≡ collect closing_view t))
        ⊎ ((e : String) × (u : List Call) × (f.0 ≡ some e)
            × (f.1 ≡ u ++ close_connection ∷ [])
            × Refusal f.1)
  unfolding ◌>>=◌
  finish-Started left t (none, u) (inl (fine, consumers, closings)) = inl (
    refl,
    (simp (collect-append, append-nil)) ∙ consumers,
    (simp (collect-append, append-nil)) ∙ closings,
  )
  finish-Started left t (none, u) (inr (e, v, bad, last, why)) = cc
  finish-Started left t (some e, u) (inl (fine, consumers, closings)) = cc
  finish-Started left t (some e, u) (inr failed) = inr failed

  module _ (w : Worker) where
    -- Start returns without an error only if one consumer is started for each worker, in order, and the
    -- connection is still open. Otherwise a call came to an error, it returns an error, and the
    -- connection was not made or its last call closes it.
    pub start-cases :
        let r = start broker w [] in
        ((r.0 ≡ none)
          × (collect consumer_view r.1 ≡ from 0 (rounds w.count))
          × (collect closing_view r.1 ≡ []))
        ⊎ ((e : String) × (r.0 ≡ some e)
            × Refusal r.1
            × ((r.1 ≡ dial w.amqp_url ∷ [])
                ⊎ ((u : List Call) × (r.1 ≡ u ++ close_connection ∷ []))))
    unfolding start ◌>>=◌
    start-cases = elim (Option-cases (broker [] (dial w.amqp_url))) [
      | inr (e, bad) ↦ rw bad (inr (_, refl, ([], dial w.amqp_url, e, [], bad, refl), inl refl))
      | inl fine ↦
          rw fine
            (elim (finish-Started (rounds w.count) (dial w.amqp_url ∷ []) _
              (start_consumers-Started 0 (rounds w.count) (dial w.amqp_url ∷ []))) [
                | inl all ↦ inl all
                | inr (e, u, bad, last, why) ↦ inr (e, bad, why, inr (u, last))
              ])
    ]
