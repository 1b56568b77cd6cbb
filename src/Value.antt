-- ===== src/Value.antt =====
-- The dynamic values of the Go code: `any`, `map[string]any` and `[]any`, as decoded from JSON and
-- as built by the step runners (execution-engine/internal/runner, api-gateway/internal/engine).
-- The type of float64 is a parameter `F`. A map is nil or a list of fields.
use workflow_automation_go_z.Common.{String, Bool, Option, none, some, str_eq, if◌then◌else◌, ℤ}

mutual
  pub data Value (F : Type 0) : Type 0 where
    null : Value F
    boolean : Bool → Value F
    float64 : F → Value F
    int : ℤ → Value F
    int64 : ℤ → Value F
    string : String → Value F
    slice : Items F → Value F
    -- a nil map that is stored in an `any`, and a map
    nil_object : Value F
    object : Fields F → Value F

  pub data Items (F : Type 0) : Type 0 where
    nil : Items F
    cons : Value F → Items F → Items F

  pub data Fields (F : Type 0) : Type 0 where
    end : Fields F
    field : String → Value F → Fields F → Fields F

-- `map[string]any`; `none` is the nil map.
abbrev pub GoMap : Type 0 → Type 0
GoMap F = Option (Fields F)

module _ {F : Type 0} where
  unfoldable pub find : String → Fields F → Option (Value F)
  find k end = none
  find k (field j v fs) = if str_eq j k then some v else find k fs

  -- `v, ok := m[k]`
  unfoldable pub lookup : GoMap F → String → Option (Value F)
  unfolding find
  lookup none k = none
  lookup (some fs) k = find k fs

  -- `m[k]`, which is nil where the key is missing
  unfoldable pub index : GoMap F → String → Value F
  unfolding lookup
  index m k = elim (lookup m k) [ none ↦ null | some v ↦ v ]

  -- `s, _ := v.(string)`
  unfoldable pub string_or_empty : Value F → String
  string_or_empty (string s) = s
  string_or_empty _ = ""

  -- `s, _ := m[k].(string)`
  unfoldable pub get_string : GoMap F → String → String
  unfolding index string_or_empty
  get_string m k = string_or_empty (index m k)

  -- `map[string]any{k: v}` and `map[string]any{j: u, k: v}`
  abbrev pub single : String → Value F → GoMap F
  single k v = some (field k v end)

  abbrev pub pair : String → Value F → String → Value F → GoMap F
  pair j u k v = some (field j u (field k v end))
