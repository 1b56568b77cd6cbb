-- ===== src/Gateway/Auth.antt =====
-- api-gateway/internal/auth/claims.go: what the request context holds of the caller.
use workflow_automation_go_z.Common.{
  String, Bool, true, false, Option, none, some, List, [], ◌∷◌, str_eq, if◌then◌else◌,
}

-- The values of a context under the keys of the package; a missing one is nil.
pub record AuthContext : Type 0 where
  pub user_id : Option String
  pub roles : Option (List String)

unfoldable pub with_user_id : AuthContext → String → AuthContext
with_user_id ctx id = record ctx { user_id = some id }

unfoldable pub with_roles : AuthContext → List String → AuthContext
with_roles ctx roles = record ctx { roles = some roles }

unfoldable pub user_id_from_ctx : AuthContext → String
user_id_from_ctx ctx = elim ctx.user_id [ none ↦ "" | some id ↦ id ]

unfoldable pub roles_from_ctx : AuthContext → List String
roles_from_ctx ctx = elim ctx.roles [ none ↦ [] | some roles ↦ roles ]

unfoldable pub contains_role : String → List String → Bool
contains_role role [] = false
contains_role role (r ∷ rs) = if str_eq r role then true else contains_role role rs

unfoldable pub has_role : AuthContext → String → Bool
unfolding contains_role roles_from_ctx
has_role ctx role = contains_role role (roles_from_ctx ctx)
