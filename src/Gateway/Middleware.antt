-- ===== src/Gateway/Middleware.antt =====
-- api-gateway/internal/middleware/authmiddleware.go: a request reaches its handler only with a
-- bearer token that parses and is valid; the caller's id and roles are put into the context.
use Prim.Native.Char.{code}
use workflow_automation_go_z.Common.{
  String, Bool, true, false, not, Option, none, some, List, [], ◌∷◌, ◌==◌, str_eq, if◌then◌else◌,
  ◌≡◌, arith,
}
use workflow_automation_go_z.Value.{
  Value, string, slice, object, Items, nil, cons, GoMap, index, get_string,
}
use workflow_automation_go_z.Gateway.Auth.{AuthContext, with_user_id, with_roles}

-- `token.Claims`, by its type.
pub data Claims (F : Type 0) : Type 0 where
  map_claims : GoMap F → Claims F
  other_claims : Claims F

pub record Token (F : Type 0) : Type 0 where
  pub valid : Bool
  pub claims : Claims F

-- The key function of JWKS, if it was fetched, and `jwt.Parse` with it, for RS256 and with a
-- required expiry; `none` is an error.
pub record JwtMiddleware (F : Type 0) : Type 0 where
  pub has_keyfunc : Bool
  pub parse : String → Option (Token F)

-- `NewJWTMiddleware`, by the key function that could be fetched, if any. It is not fetched again.
unfoldable pub new_jwt_middleware :
    {F : Type 0} → Option (String → Option (Token F)) → JwtMiddleware F
new_jwt_middleware none = record { has_keyfunc = false; parse = λ token. none }
new_jwt_middleware (some parse) = record { has_keyfunc = true; parse = parse }

-- What is left of a text behind a prefix.
unfoldable pub strip_prefix : String → String → Option String
strip_prefix String.[] s = some s
strip_prefix (String.◌∷◌ c p) String.[] = none
strip_prefix (String.◌∷◌ c p) (String.◌∷◌ d s) = if code c == code d then strip_prefix p s else none

-- The argument is the header `Authorization`.
unfoldable pub bearer_token : String → String
unfolding strip_prefix
bearer_token h = elim (strip_prefix "Bearer " h) [ none ↦ "" | some rest ↦ rest ]

-- How the middleware goes on: it answers with status 401 and a message, or calls the handler.
pub data Verdict : Type 0 where
  unauthorized : String → Verdict
  next : AuthContext → Verdict

module _ {F : Type 0} where
  unfoldable pub keep_strings : Items F → List String
  keep_strings nil = []
  keep_strings (cons (string s) rest) = s ∷ keep_strings rest
  keep_strings (cons _ rest) = keep_strings rest

  abbrev roles_in : Value F → List String
  roles_in (slice items) = keep_strings items
  roles_in _ = []

  abbrev roles_of_access : Value F → List String
  roles_of_access (object fs) = roles_in (index (some fs) "roles")
  roles_of_access _ = []

  unfoldable pub realm_roles : GoMap F → List String
  unfolding keep_strings index
  realm_roles claims = roles_of_access (index claims "realm_access")

  -- The context that the handler gets.
  unfoldable pub caller : GoMap F → AuthContext → AuthContext
  unfolding get_string realm_roles with_user_id with_roles
  caller claims ctx = with_roles (with_user_id ctx (get_string claims "sub")) (realm_roles claims)

  abbrev admit : Claims F → AuthContext → Verdict
  admit (map_claims claims) ctx = next (caller claims ctx)
  admit other_claims ctx = unauthorized "invalid claims"

  abbrev check_token : Option (Token F) → AuthContext → Verdict
  check_token none ctx = unauthorized "invalid token"
  check_token (some token) ctx =
      if not token.valid then unauthorized "invalid token" else admit token.claims ctx

  unfoldable pub handle : JwtMiddleware F → String → AuthContext → Verdict
  unfolding bearer_token
  handle m authorization ctx =
      let token = bearer_token authorization in
      if str_eq token ""
      then unauthorized "missing token"
      else if not m.has_keyfunc
      then unauthorized "auth service unavailable"
      else check_token (m.parse token) ctx

  -- A handler is called only with a token behind "Bearer " that the key function was there to check,
  -- that parses, is valid and has map claims; its context holds the claim `sub` and the realm roles.
  pub handle-next :
      (m : JwtMiddleware F) (h : String) (ctx ctx' : AuthContext)
      → handle m h ctx ≡ next ctx'
      → (token : Token F) × (claims : GoMap F) × (m.has_keyfunc ≡ true)
        × (m.parse (bearer_token h) ≡ some token)
        × (token.valid ≡ true)
        × (token.claims ≡ map_claims claims)
        × (ctx' ≡ caller claims ctx)
  unfolding handle
  handle-next m h ctx ctx' e = ground arith
