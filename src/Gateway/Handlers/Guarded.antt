-- ===== src/Gateway/Handlers/Guarded.antt =====
-- Which routes a request without a good token reaches, and what one that is answered must hold.
use mathlib.Core.Path.{subst}
use mathlib.Core.List.{Memᴰ}
use mathlib.Core.List.Memᴰ
use workflow_automation_go_z.Common.{
  String, Bool, true, false, not, some, List, [], ◌∷◌, ◌&&◌, ◌≡◌, refl, ap, ◌∙◌, arith, Result, ok,
  err, ◌>>=◌, inl, inr,
}
use workflow_automation_go_z.Gateway.Auth.{AuthContext}
use workflow_automation_go_z.Gateway.Middleware.{
  JwtMiddleware, Token, map_claims, Verdict, unauthorized, next, handle, bearer_token, caller,
  handle-next,
}
use workflow_automation_go_z.Value.{GoMap}
use workflow_automation_go_z.Gateway.Outside.{Workflow, row, Trace, M, World}
use workflow_automation_go_z.Gateway.Workflows.{UpdateWorkflowReq, update}
use workflow_automation_go_z.Gateway.Workflows.Access.{Permitted}
use workflow_automation_go_z.Gateway.Workflows.Writes.{update-cases}
use workflow_automation_go_z.Gateway.Handlers.{
  Endpoint, health_endpoint, login_endpoint, trigger_workflow_endpoint, execution_stream_endpoint,
  update_workflow_endpoint, Http, Route, not_authorized, answered, run_handler, register_handlers,
  public_routes, protected_routes, serve_route, parsed, Reply, route, admitted, Body, after_logic,
  respond_with, UpdateWorkflowResp, reply,
}

-- What anyone may ask for.
abbrev pub open_to_all : Endpoint → Bool
open_to_all health_endpoint = true
open_to_all login_endpoint = true
open_to_all trigger_workflow_endpoint = true
open_to_all execution_stream_endpoint = true
open_to_all _ = false

abbrev agrees : Bool → Bool → Bool
agrees true b = b
agrees false b = not b

module _ {A : Type 0} (test : A → Bool) where
  abbrev every : List A → Bool
  every [] = true
  every (a ∷ l) = test a && every l

  every-Memᴰ : (a : A) (l : List A) → every l ≡ true → Memᴰ a l → test a ≡ true
  every-Memᴰ a (b ∷ l) e (Memᴰ.head same) = ap test same ∙ (ground arith)
  every-Memᴰ a (b ∷ l) e (Memᴰ.tail there) = every-Memᴰ a l (ground arith) there
  every-Memᴰ a [] e there = absurd (Memᴰ.not-nil there)

register_handlers-with_jwt :
    (route : Route)
    → Memᴰ route register_handlers
    → agrees route.with_jwt (not (open_to_all route.handler)) ≡ true
unfolding register_handlers public_routes protected_routes
register_handlers-with_jwt route there =
    every-Memᴰ (λ r. agrees r.with_jwt (not (open_to_all r.handler))) route register_handlers refl
      there

agrees-true : (b c : Bool) → agrees b (not c) ≡ true → c ≡ false → b ≡ true
agrees-true b c e f = ground arith

module _ {A : Type 0} (t : Trace) (a : A) where
  parsed-answered :
      {Q : Type 0} (q : Result Q) (go : Q → M (Reply A))
      → (parsed q go t).0 ≡ answered a
      → (req : Q) × (q ≡ ok req) × ((go req t).0 ≡ answered a)
  unfolding parsed ◌>>=◌
  parsed-answered (ok req) go e = (req, refl, e)
  parsed-answered (err message) go e = cc

  reply-answered : (r : Result A) → reply r ≡ answered a → r ≡ ok a
  reply-answered (ok b) e = ground arith
  reply-answered (err message) e = cc

  after_logic-answered :
      (logic : M (Result A)) → (after_logic logic t).0 ≡ answered a → (logic t).0 ≡ ok a
  unfolding after_logic ◌>>=◌
  after_logic-answered logic e = reply-answered (logic t).0 e

module _ (t : Trace) (b : UpdateWorkflowResp) where
  wrapped-ok :
      (r : Result Bool)
      → elim r as (λ _. Result UpdateWorkflowResp) [
        | err e ↦ err e
        | ok done ↦ ok (record { done = done })
      ]
        ≡ ok b
      → r ≡ ok b.done
  wrapped-ok (ok done) e =
      let resp : UpdateWorkflowResp = record { done = done } in
      let same : resp ≡ b = cc in ap (λ (r : UpdateWorkflowResp). ok r.done) same
  wrapped-ok (err message) e = cc

  respond_with-ok :
      (logic : M (Result Bool))
      → (respond_with (λ done. record { done = done }) logic t).0 ≡ ok b
      → (logic t).0 ≡ ok b.done
  unfolding respond_with ◌>>=◌
  respond_with-ok logic e = wrapped-ok (logic t).0 e

module _ {F R : Type 0} (m : JwtMiddleware F) (http : Http R) (w : World) (ctx : AuthContext) where
  admitted-answered :
      (e : Endpoint) (r : R) (t : Trace) (b : Body e) (v : Verdict)
      → (admitted m http w ctx e r v t).0 ≡ answered b
      → (ctx' : AuthContext) × (v ≡ next ctx') × ((run_handler http w e ctx' r t).0 ≡ answered b)
  unfolding ◌>>=◌
  admitted-answered e r t b (next ctx') h = (ctx', refl, h)
  admitted-answered e r t b (unauthorized message) h = cc

  module _ (route : Route) (r : R) (t : Trace) where
    serve_route-refused :
        (message : String)
        → route.with_jwt ≡ true
        → handle m (http.authorization r) ctx ≡ unauthorized message
        → serve_route m http w ctx route r t ≡ (not_authorized message, t)
    unfolding serve_route ◌>>=◌
    serve_route-refused message e refused = rw (e, refused) refl

    -- A registered route that is not open to all (the health check, the login, the webhook and the
    -- event stream are) makes no call for a request that the middleware refuses, and answers with
    -- the message of the refusal.
    pub serve_route-unauthorized :
        (message : String)
        → Memᴰ route register_handlers
        → open_to_all route.handler ≡ false
        → handle m (http.authorization r) ctx ≡ unauthorized message
        → serve_route m http w ctx route r t ≡ (not_authorized message, t)
    serve_route-unauthorized message there closed refused =
        serve_route-refused message
          (agrees-true route.with_jwt (open_to_all route.handler)
            (register_handlers-with_jwt route there) closed)
          refused

  module _ (r : R) (t : Trace) where
    abbrev pub update_route : Route
    update_route = route true "PUT" "/workflows/:id" update_workflow_endpoint

    serve_route-next :
        (b : UpdateWorkflowResp)
        → (serve_route m http w ctx update_route r t).0 ≡ answered b
        → (ctx' : AuthContext) × (handle m (http.authorization r) ctx ≡ next ctx')
          × ((run_handler http w update_workflow_endpoint ctx' r t).0 ≡ answered b)
    unfolding serve_route
    serve_route-next b e =
        admitted-answered update_workflow_endpoint r t b (handle m (http.authorization r) ctx) e

    update_handler-answered :
        (ctx' : AuthContext) (b : UpdateWorkflowResp)
        → (run_handler http w update_workflow_endpoint ctx' r t).0 ≡ answered b
        → (req : UpdateWorkflowReq) × (http.parse_update r ≡ ok req)
          × ((update w ctx' req t).0 ≡ ok b.done)
    unfolding run_handler
    update_handler-answered ctx' b e =
        let (req, reads, done) = parsed-answered t b (http.parse_update r) _ e in
        (req, reads, respond_with-ok t b (update w ctx' req) (after_logic-answered t b _ done))

    update-Permitted :
        (ctx' : AuthContext) (req : UpdateWorkflowReq) (b : Bool)
        → (update w ctx' req t).0 ≡ ok b
        → (wf : Workflow) × (w.load_workflow t req.id ≡ row wf) × Permitted ctx' wf.user_id
    update-Permitted ctx' req b e = elim (update-cases w ctx' req t) [
      | inl (wf, loaded, may, _) ↦ (wf, loaded, may)
      | inr (message, bad) ↦
          let refused : (update w ctx' req t).0 ≡ err message = ap (λ x. x.0) bad in cc
    ]

    -- An update that is answered with success came with a token behind "Bearer " that parses, is
    -- valid and has map claims, and with a request that parses; its workflow was loaded, and it has
    -- no owner, or the owner is the claim `sub`, or the realm roles of the claims hold "admin".
    pub update_route-authorized :
        (b : UpdateWorkflowResp)
        → (serve_route m http w ctx update_route r t).0 ≡ answered b
        → (token : Token F) × (claims : GoMap F) × (req : UpdateWorkflowReq) × (wf : Workflow)
          × (m.parse (bearer_token (http.authorization r)) ≡ some token)
          × (token.valid ≡ true)
          × (token.claims ≡ map_claims claims)
          × (http.parse_update r ≡ ok req)
          × (w.load_workflow t req.id ≡ row wf)
          × Permitted (caller claims ctx) wf.user_id
    update_route-authorized b e =
        let (ctx', passed, done) = serve_route-next b e in
        let (req, reads, changed) = update_handler-answered ctx' b done in
        let (wf, loaded, may) = update-Permitted ctx' req b.done changed in
        let (token, claims, _, parses, valid, has, same) =
          handle-next m (http.authorization r) ctx ctx' passed in
        (
          token,
          claims,
          req,
          wf,
          parses,
          valid,
          has,
          reads,
          loaded,
          subst (λ c. Permitted c wf.user_id) same may,
        )
