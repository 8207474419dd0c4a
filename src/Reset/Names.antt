-- ===== src/Reset/Names.antt =====
-- cmd/reset/emit.go and collect.go: names and the texts of expressions.
use Prim.Native.String.{len}
use text.Mathlib.Text.{starts_with, get?}
use svcmetrics.Base.{String, Option, none, some, List, [], ◌∷◌, str_eq, if◌then◌else◌, get_or}
use svcmetrics.Reset.{Expr, ident, index_expr, index_list_expr, star_expr}

-- basicZero
abbrev zero_of : String → List (String × String) → Option String
zero_of name [] = none
zero_of name ((other, z) ∷ rest) =
    let later = zero_of name rest in if str_eq name other then some z else later

unfoldable pub basic_zero : String → Option String
basic_zero name = zero_of name (
    ("bool", "false")
    ∷ ("string", "\"\"")
    ∷ ("int", "0")
    ∷ ("int8", "0")
    ∷ ("int16", "0")
    ∷ ("int32", "0")
    ∷ ("int64", "0")
    ∷ ("uint", "0")
    ∷ ("uint8", "0")
    ∷ ("uint16", "0")
    ∷ ("uint32", "0")
    ∷ ("uint64", "0")
    ∷ ("uintptr", "0")
    ∷ ("byte", "0")
    ∷ ("rune", "0")
    ∷ ("float32", "0")
    ∷ ("float64", "0")
    ∷ ("complex64", "0")
    ∷ ("complex128", "0")
    ∷ [])

-- strings.CutPrefix of a star
unfoldable pub cut_star : String → Option String
cut_star s = if starts_with s "*" then get? s 1 (len s) else none

unfoldable pub method_target : String → String
method_target s = get_or s (cut_star s)

-- recvTypeName of collect.go
abbrev pub under_star : Expr → Expr
under_star (star_expr x) = x
under_star e = e

abbrev pub under_index : Expr → Expr
under_index (index_expr x _) = x
under_index (index_list_expr x _) = x
under_index e = e

abbrev pub ident_name : Expr → String
ident_name (ident name) = name
ident_name _ = ""

unfoldable pub recv_type_name : Expr → String
recv_type_name e = ident_name (under_index (under_star e))
