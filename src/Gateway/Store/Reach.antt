-- ===== src/Gateway/Store/Reach.antt =====
-- The states that requests and the expiry of keys lead to.
use workflow_automation_go_z.Common.{String}
use workflow_automation_go_z.Gateway.Outside.{redis_del}
use workflow_automation_go_z.Gateway.Store.{Store, Codec, Around, apply}
use workflow_automation_go_z.Gateway.Store.Coherent.{Coherent, drop-Coherent}
use workflow_automation_go_z.Gateway.Store.Requests.{
  Request, create_request, list_request, get_request, update_request, delete_request, RoundTrips,
  DelWorks, handle,
}
use workflow_automation_go_z.Gateway.Store.Writing.{
  create-keeps, list-keeps, update-keeps, delete-keeps,
}
use workflow_automation_go_z.Gateway.Store.Reading.{get-keeps}

module _ (codec : Codec) where
  -- A request is served, whatever fails meanwhile but a DEL; or a key expires.
  pub data Step : Store → Store → Type 0 where
    request : (s : Store) (a : Around) (r : Request) → DelWorks a → Step s (handle codec a s r)
    expire : (s : Store) (k : String) → Step s (apply (redis_del k) s)

  pub data Reach (s : Store) : Store → Type 0 where
    start : Reach s s
    onward : (m u : Store) → Reach s m → Step m u → Reach s u

  module _ (trips : RoundTrips codec) where
    request-Coherent :
        (s : Store) (a : Around) (r : Request)
        → DelWorks a
        → Coherent codec.decode s
        → Coherent codec.decode (handle codec a s r)
    request-Coherent s a (create_request ctx req) works c = create-keeps codec a s c ctx req
    request-Coherent s a (list_request ctx) works c = list-keeps codec a s c ctx
    request-Coherent s a (get_request ctx id) works c = get-keeps codec a s c trips ctx id
    request-Coherent s a (update_request ctx req) works c = update-keeps codec a s c works ctx req
    request-Coherent s a (delete_request ctx id) works c = delete-keeps codec a s c works ctx id

    step-Coherent : (s u : Store) → Step s u → Coherent codec.decode s → Coherent codec.decode u
    step-Coherent s _ (request _ a r works) c = request-Coherent s a r works c
    step-Coherent s _ (expire _ k) c = drop-Coherent codec.decode s k c

    -- Requests served one after another keep table and cache coherent: from a coherent state, every
    -- state that creations, lists, reads, updates and deletions of any callers and expiries of keys
    -- lead to is coherent, whichever of their calls fail but a DEL, if an item's text decodes to it.
    pub Reach-Coherent :
        (s u : Store) → Reach s u → Coherent codec.decode s → Coherent codec.decode u
    Reach-Coherent s _ start c = c
    Reach-Coherent s u (onward m _ before step) c =
        step-Coherent m u step (Reach-Coherent s m before c)
