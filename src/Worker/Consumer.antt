-- ===== src/Worker/Consumer.antt =====
-- A consumer of the run queue settles each delivery that it takes.
use mathlib.Core.Path.{subst}
use workflow_automation_go_z.Common.{
  Bool, false, List, [], ◌∷◌, ◌++◌, ◌≡◌, refl, ◌↔◌, ◌⊎◌, inl, inr, collect, ◌>>=◌,
}
use workflow_automation_go_z.Worker.{
  Delivery, Arrival, delivery, closed, cancelled, Call, World, handle, consume_loop, consume,
  close_channel,
}
use workflow_automation_go_z.Worker.Settle.{
  settle_view, settle, Requeued, Requests, handle-settles, handle-dispatches,
}

-- The deliveries in front of the first arrival that ends the consumer.
abbrev pub taken : List Arrival → List Delivery
taken [] = []
taken (closed ∷ rest) = []
taken (cancelled ∷ rest) = []
taken (delivery d ∷ rest) = d ∷ taken rest

module _ (w : World) where
  -- The trace `v` comes of `t` by the calls for these deliveries, one delivery after another. The last
  -- call for a delivery settles it, and no other one settles anything: by a Nack exactly where this
  -- delivery is to be handed back, by an Ack otherwise. The engine gets the request of this delivery,
  -- or none where it has none to make.
  pub data Consumed : List Delivery → List Call → List Call → Type 0 where
    all_settled : {t : List Call} → Consumed [] t t
    settles :
        {d : Delivery} {ds : List Delivery} {t v : List Call} (acked : Bool) (u : List Call)
        → collect settle_view u ≡ collect settle_view t
        → ((acked ≡ false) ↔ Requeued w d t)
        → Requests w d t (u ++ settle d acked ∷ [])
        → Consumed ds (u ++ settle d acked ∷ []) v
        → Consumed (d ∷ ds) t v

  -- The calls for one delivery in front of those for others.
  Consumed-handle :
      {d : Delivery} {ds : List Delivery} {t v : List Call}
      → Consumed ds (handle w d t).1 v
      → Consumed (d ∷ ds) t v
  Consumed-handle {d} {ds} {t} {v} rest =
      let (acked, u, last, quiet, why) = handle-settles w d t in
      settles acked u quiet why (subst (Requests w d t) last (handle-dispatches w d t))
        (subst (λ r. Consumed ds r v) last rest)

  -- A consumer that is not refused settles each delivery that it takes, in their order: the calls for
  -- a delivery end in its one Ack or Nack, and come before those for the next delivery. After them it
  -- makes no call, or closes its channel.
  pub consume-settles :
      (arrivals : List Arrival) (t : List Call)
      → (v : List Call) × Consumed (taken arrivals) t v
        × (((consume w false arrivals t).1 ≡ v)
            ⊎ ((consume w false arrivals t).1 ≡ v ++ close_channel ∷ []))
  unfolding consume consume_loop ◌>>=◌
  consume-settles [] t = (t, all_settled, inl refl)
  consume-settles (closed ∷ rest) t = (t, all_settled, inl refl)
  consume-settles (cancelled ∷ rest) t = (t, all_settled, inr refl)
  consume-settles (delivery d ∷ rest) t =
      let (v, each, ends) = consume-settles rest (handle w d t).1 in (v, Consumed-handle each, ends)
