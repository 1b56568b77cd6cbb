-- ===== src/Json.antt =====
-- What `encoding/json` writes for the flat event structs of the program: quoted strings with their
-- escapes, numbers without a sign, booleans, and fields that `omitempty` leaves out. Texts are code
-- points; invalid UTF-8 is not modelled.
pub mod Escaped
use Prim.Native.Char.{Char, code}
use workflow_automation_go_z.Common.{
  ℕ, ◌/◌, ◌%◌, String, Bool, ◌≡◌, refl, ◌==◌, ltb, if◌then◌else◌, ◌<>◌, decimal,
}

hex_digit : ℕ → String
hex_digit n =
    if n == 10
    then "a"
    else if n == 11
    then "b"
    else if n == 12
    then "c"
    else if n == 13
    then "d"
    else if n == 14
    then "e"
    else if n == 15
    then "f"
    else decimal n

one_char : Char → String
one_char c = String.◌∷◌ c ""

-- The escapes of `json.Marshal`, which escapes HTML by default.
pub escape_char : Char → String
unfolding hex_digit one_char
escape_char ch =
    let c = code ch in
    if c == 34
    then "\\\""
    else if c == 92
    then "\\\\"
    else if c == 8
    then "\\b"
    else if c == 12
    then "\\f"
    else if c == 10
    then "\\n"
    else if c == 13
    then "\\r"
    else if c == 9
    then "\\t"
    else if ltb c 32
    then "\\u00" <> hex_digit (c / 16) <> hex_digit (c % 16)
    else if c == 60
    then "\\u003c"
    else if c == 62
    then "\\u003e"
    else if c == 38
    then "\\u0026"
    else if c == 0x2028
    then "\\u2028"
    else if c == 0x2029
    then "\\u2029"
    else one_char ch

unfoldable pub escape : String → String
unfolding escape_char
escape String.[] = ""
escape (String.◌∷◌ c s) = escape_char c <> escape s

unfoldable pub quote : String → String
unfolding escape
quote s = "\"" <> escape s <> "\""

-- `"key":"text"` and `"key":number`, and the boolean literals.
unfoldable pub string_member : String → String → String
unfolding quote
string_member k s = quote k <> ":" <> quote s

unfoldable pub number_member : String → ℕ → String
unfolding quote decimal
number_member k n = quote k <> ":" <> decimal n

unfoldable pub boolean_member : String → Bool → String
unfolding quote
boolean_member k b = quote k <> ":" <> (if b then "true" else "false")

quote_example : quote "a\"b\n" ≡ "\"a\\\"b\\n\""
unfolding quote
quote_example = refl
