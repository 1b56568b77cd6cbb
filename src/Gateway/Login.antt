-- ===== src/Gateway/Login.antt =====
-- api-gateway/internal/logic/loginlogic.go and healthlogic.go: a login is passed on to Keycloak, and
-- its answer back; the health check answers the same always.
use workflow_automation_go_z.Common.{
  String, List, [], ◌∷◌, ◌++◌, ◌==◌, not, if◌then◌else◌, ◌<>◌, Result, ok, err, pure, ask, ◌>>=◌,
  ◌≡◌, ◌≢◌, ==_iff, refl, ◌⊎◌, inl, inr, Result-cases, Bool-cases, arith,
}
use workflow_automation_go_z.Gateway.Outside.{
  LoginResp, HttpResponse, Call, post_form, Trace, M, World,
}

pub record LoginReq : Type 0 where
  pub username : String
  pub password : String

pub record HealthResp : Type 0 where
  pub status : String
  pub version : String

unfoldable pub health : HealthResp
health = record { status = "ok"; version = "1.0.0" }

abbrev pub login_form : LoginReq → List (String × String)
login_form req =
    ("grant_type", "password")
    ∷ ("client_id", "workflow-client")
    ∷ ("username", req.username)
    ∷ ("password", req.password)
    ∷ []

module _ (w : World) where
  abbrev pub token_url : String
  token_url = w.keycloak_url <> "/realms/workflow-app/protocol/openid-connect/token"

  -- `http.StatusOK` is 200.
  abbrev pub read_response : Result HttpResponse → Result LoginResp
  read_response (err e) = err ("keycloak unreachable: " <> e)
  read_response (ok resp) =
      if not (resp.status_code == 200) then err "invalid credentials" else w.decode_login resp.body

  unfoldable pub login : LoginReq → M (Result LoginResp)
  login req = do
    resp ←
        ask (post_form token_url (login_form req))
          (λ t. w.respond t (post_form token_url (login_form req)))
    pure (read_response resp)

  module _ (req : LoginReq) (t : Trace) where
    abbrev pub asked : Call
    asked = post_form token_url (login_form req)

    -- A login makes one call, the password grant with the user's name and password to the token
    -- endpoint of the realm, and ends in one of four ways. Keycloak cannot be reached, and the error
    -- says so. It answers with a status other than 200, and the error is "invalid credentials". It
    -- answers with status 200 and a body that decodes to a token, which is the answer; or with
    -- status 200 and a body that does not decode, and the answer is the decoder's error.
    pub login-cases :
        ((login req t).1
          ≡ t
            ++ post_form (w.keycloak_url <> "/realms/workflow-app/protocol/openid-connect/token") (
                ("grant_type", "password")
                ∷ ("client_id", "workflow-client")
                ∷ ("username", req.username)
                ∷ ("password", req.password)
                ∷ [])
              ∷ [])
        × (((e : String) × (w.respond t asked ≡ err e)
              × ((login req t).0 ≡ err ("keycloak unreachable: " <> e)))
            ⊎ ((resp : HttpResponse) × (w.respond t asked ≡ ok resp)
                × (((resp.status_code ≡ 200)
                      × (((token : LoginResp) × (w.decode_login resp.body ≡ ok token)
                            × ((login req t).0 ≡ ok token))
                          ⊎ ((e : String) × (w.decode_login resp.body ≡ err e)
                              × ((login req t).0 ≡ err e))))
                    ⊎ ((resp.status_code ≢ 200) × ((login req t).0 ≡ err "invalid credentials")))))
    unfolding login ◌>>=◌
    login-cases = (
      refl,
      elim (Result-cases (w.respond t asked)) [
        | inr (e, bad) ↦ inl (e, bad, rw bad refl)
        | inl (resp, good) ↦ inr (
          resp,
          good,
          elim (Bool-cases (resp.status_code == 200)) [
            | inl same ↦ inl (
              (==_iff resp.status_code 200).0 same,
              elim (Result-cases (w.decode_login resp.body)) [
                | inl (token, reads) ↦ inl (token, reads, rw (good, same, reads) refl)
                | inr (e, broken) ↦ inr (e, broken, rw (good, same, broken) refl)
              ],
            )
            | inr other ↦ inr (ground arith, rw (good, other) refl)
          ],
        )
      ],
    )
