-- ===== src/Reset/Emit.antt =====
-- cmd/reset/emit.go: the statements that reset an expression of a type.
use Prim.Native.String.{◌++◌}
use text.Mathlib.Text.{starts_with}
use svcmetrics.Base.{
  ℕ, zero, suc, ◌+◌, String, false, ◌&&◌, ◌||◌, not, Option, none, some, List, [], ◌∷◌, str_eq,
  if◌then◌else◌, get_or, is_some, ltb,
}
use svcmetrics.Base.Dict.{lookup}
use svcmetrics.Errors.{Err, Result, ok, err, text as text_link}
use svcmetrics.Reset.{
  Expr, ident, paren_expr, index_expr, index_list_expr, selector_expr, star_expr, slice_type,
  array_type, map_type, struct_type, other_expr, TypeSpec, ExternalType, PkgInfo, Toolchain,
  Generator,
}
use svcmetrics.Reset.Resolve.{lookup_external, add_import}
use svcmetrics.Reset.Names.{basic_zero, cut_star, method_target, recv_type_name}

abbrev pub max_reset_depth : ℕ
max_reset_depth = 8

unfoldable pub printf : String → Generator → Generator
printf s g = record g { buf = g.buf ++ s }

unfoldable pub fail : Err → Generator → Generator
fail e g = record g { fault = some (get_or e g.fault) }

module _ (tc : Toolchain) (info : PkgInfo) where
  unfoldable pub add_imports : List String → Generator → Generator
  add_imports [] g = g
  add_imports (name ∷ rest) g = add_imports rest (add_import tc info.imports_of_file name g)

  -- typeString
  unfoldable pub type_string : Expr → Generator → String × Generator
  type_string e g =
      let g' = add_imports (tc.selectors e) g in
      elim (tc.print e) [ ok s ↦ (s, g') | err x ↦ ("", fail (text_link "print type" ∷ x) g') ]

  -- A line with the text of a type between two parts of it.
  unfoldable pub with_type : String → Expr → String → Generator → Generator
  with_type before e after g = let (t, g') = type_string e g in printf (before ++ t ++ after) g'

  unfoldable pub reset_unknown : String → Expr → Generator → Generator
  reset_unknown expr typ g =
      let addr = get_or ("&" ++ expr) (cut_star expr) in
      printf "}\n" (
        with_type (expr ++ " = *new(") typ ")\n" (
          printf "} else {\n" (
            printf "resetter.Reset()\n" (
              printf ("if resetter, ok := any(" ++ addr ++ ").(interface{ Reset() }); ok {\n") g))))

  abbrev reset_found : String → Expr → ExternalType → Generator → Generator
  reset_found expr sel t g =
      if t.has_reset
      then printf (method_target expr ++ ".Reset()\n") g
      else if t.is_map
      then printf ("clear(" ++ expr ++ ")\n") g
      else if t.is_slice
      then printf (expr ++ " = " ++ expr ++ "[:0]\n") g
      else with_type (expr ++ " = *new(") sel ")\n" g

  abbrev external : String → Expr → Result (Option ExternalType) → Generator → Generator
  external expr sel (err e) g = fail e g
  external expr sel (ok none) g = reset_unknown expr sel g
  external expr sel (ok (some t)) g = reset_found expr sel t g

  unfoldable pub reset_external : String → Expr → String → Generator → Generator
  reset_external expr x name g =
      external expr (selector_expr x name) (lookup_external tc info.imports_of_file x name) g

  -- The switch of resetNamed over the definition of the type; `again` is resetExpr.
  abbrev pub unfold_named :
      (String → Expr → ℕ → Generator → Option Generator)
      → String
      → Expr
      → String
      → ℕ
      → Expr
      → Generator
      → Option Generator
  unfold_named again expr typ name depth (struct_type n) g =
      some (with_type (expr ++ " = ") typ "{}\n" g)
  unfold_named again expr typ name depth (ident u) g =
      if ltb max_reset_depth depth then some (reset_unknown expr typ g) else elim (basic_zero u) [
        | some z ↦ some (printf (expr ++ " = " ++ name ++ "(" ++ z ++ ")\n") g)
        | none ↦ again expr (ident u) (depth + 1) g
      ]
  unfold_named again expr typ name depth (array_type l x) g =
      if ltb max_reset_depth depth
      then some (reset_unknown expr typ g)
      else again expr (array_type l x) (depth + 1) g
  unfold_named again expr typ name depth (slice_type x) g =
      if ltb max_reset_depth depth
      then some (reset_unknown expr typ g)
      else again expr (slice_type x) (depth + 1) g
  unfold_named again expr typ name depth (map_type k v) g =
      if ltb max_reset_depth depth
      then some (reset_unknown expr typ g)
      else again expr (map_type k v) (depth + 1) g
  unfold_named again expr typ name depth (star_expr x) g =
      if ltb max_reset_depth depth
      then some (reset_unknown expr typ g)
      else again expr (star_expr x) (depth + 1) g
  unfold_named again expr typ name depth _ g = some (printf (expr ++ " = nil\n") g)

  abbrev pub known_named :
      (String → Expr → ℕ → Generator → Option Generator)
      → String
      → Expr
      → String
      → ℕ
      → Option TypeSpec
      → Generator
      → Option Generator
  known_named again expr typ name depth none g = some (reset_unknown expr typ g)
  known_named again expr typ name depth (some ts) g =
      let opened = unfold_named again expr typ name depth ts.definition g in
      if get_or false (lookup name info.has_reset)
      then some (printf (method_target expr ++ ".Reset()\n") g)
      else if ts.is_alias || ts.has_params
      then some (reset_unknown expr typ g)
      else opened

  unfoldable pub reset_named :
      (String → Expr → ℕ → Generator → Option Generator)
      → String
      → Expr
      → String
      → ℕ
      → Generator
      → Option Generator
  reset_named again expr typ name depth g =
      known_named again expr typ name depth (lookup name info.types) g

  abbrev pub reset_ident :
      (String → Expr → ℕ → Generator → Option Generator)
      → String
      → String
      → ℕ
      → Generator
      → Option Generator
  reset_ident again expr name depth g =
      let named = reset_named again expr (ident name) name depth g in
      if is_some (basic_zero name) && not (is_some (lookup name info.types))
      then some (printf (expr ++ " = " ++ get_or "" (basic_zero name) ++ "\n") g)
      else if str_eq name "error" || str_eq name "any"
      then some (printf (expr ++ " = nil\n") g)
      else named

  abbrev pub closed : Option Generator → Option Generator
  closed none = none
  closed (some g) = some (printf "}\n" g)

  -- The pointer of a star expression, in parentheses where it is one itself.
  abbrev pub pointer : String → ℕ → String
  pointer expr depth = if ltb 0 depth || starts_with expr "*" then "(" ++ expr ++ ")" else expr

  -- One round of resetExpr; `again` is the next one.
  abbrev pub reset_step :
      (String → Expr → ℕ → Generator → Option Generator)
      → String
      → Expr
      → ℕ
      → Generator
      → Option Generator
  reset_step again expr (paren_expr x) depth g = again expr x depth g
  reset_step again expr (ident name) depth g = reset_ident again expr name depth g
  reset_step again expr (index_expr x i) depth g =
      reset_named again expr (index_expr x i) (recv_type_name (index_expr x i)) depth g
  reset_step again expr (index_list_expr x i) depth g =
      reset_named again expr (index_list_expr x i) (recv_type_name (index_list_expr x i)) depth g
  reset_step again expr (selector_expr x name) depth g = some (reset_external expr x name g)
  reset_step again expr (star_expr x) depth g =
      let ptr = pointer expr depth in
      closed (again ("*" ++ ptr) x (depth + 1) (printf ("if " ++ ptr ++ " != nil {\n") g))
  reset_step again expr (slice_type x) depth g = some (printf (expr ++ " = " ++ expr ++ "[:0]\n") g)
  reset_step again expr (array_type l x) depth g =
      some (with_type (expr ++ " = ") (array_type l x) "{}\n" g)
  reset_step again expr (map_type k v) depth g = some (printf ("clear(" ++ expr ++ ")\n") g)
  reset_step again expr (struct_type n) depth g =
      some (with_type (expr ++ " = ") (struct_type n) "{}\n" g)
  reset_step again expr (other_expr n) depth g = some (printf (expr ++ " = nil\n") g)

  -- resetExpr, of at most `fuel` nested calls; none where the fuel is used up.
  unfoldable pub reset_expr : ℕ → String → Expr → ℕ → Generator → Option Generator
  reset_expr zero expr typ depth g = none
  reset_expr (suc fuel) expr typ depth g = reset_step (reset_expr fuel) expr typ depth g
