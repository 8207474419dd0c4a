-- ===== src/Reset/Method.antt =====
-- cmd/reset/emit.go: writeMethod, the Reset method of a struct.
use Prim.Native.String.{◌++◌}
use svcmetrics.Base.{
  ℕ, ◌≤◌, ◌≡◌, refl, String, Bool, true, false, Option, none, some, List, [], ◌∷◌, str_eq,
  if◌then◌else◌, get_or, All,
}
use svcmetrics.Base.Dict.{lookup}
use svcmetrics.Reset.{
  Expr, ident, index_expr, index_list_expr, selector_expr, star_expr, TypeSpec, PkgInfo, Toolchain,
  Generator,
}
use svcmetrics.Reset.Emit.{printf, reset_expr}
use svcmetrics.Reset.Depth.{size, enough_fuel, Returns, reset_expr-Returns, if-Returns}

-- ast.Field: a field without names is embedded.
pub record Field : Type 0 where
  pub names : List String
  pub field_type : Expr

pub record StructSpec : Type 0 where
  pub name : String
  pub params : List String
  pub fields : List Field

-- embeddedName, where `starred` says whether a star is still looked through.
abbrev embedded : Bool → Expr → String
embedded _ (ident name) = name
embedded _ (selector_expr x name) = name
embedded _ (index_expr x i) = embedded true x
embedded _ (index_list_expr x i) = embedded true x
embedded true (star_expr x) = embedded false x
embedded _ _ = ""

unfoldable pub embedded_name : Expr → String
embedded_name e = embedded true e

unfoldable pub receiver_name : Toolchain → String → String
receiver_name tc name = get_or "r" (tc.first_lower name)

-- strings.Join(params, ", ")
unfoldable pub joined : List String → String
joined [] = ""
joined (p ∷ []) = p
joined (p ∷ q ∷ rest) = p ++ ", " ++ joined (q ∷ rest)

abbrev type_name : StructSpec → List String → String
type_name ts [] = ts.name
type_name ts (p ∷ ps) = ts.name ++ "[" ++ joined (p ∷ ps) ++ "]"

module _ (tc : Toolchain) (info : PkgInfo) (fuel : ℕ) where
  abbrev and_then : Option Generator → (Generator → Option Generator) → Option Generator
  and_then none f = none
  and_then (some g) f = f g

  -- The names of a field.
  unfoldable pub reset_names : String → Expr → List String → Generator → Option Generator
  reset_names recv typ [] g = some g
  reset_names recv typ (n ∷ ns) g =
      let reset =
        if str_eq n "_" then some g else reset_expr tc info fuel (recv ++ "." ++ n) typ 0 g in
      and_then reset (reset_names recv typ ns)

  abbrev reset_embedded : String → Expr → String → Generator → Option Generator
  reset_embedded recv typ name g =
      if str_eq name "" then some g else reset_expr tc info fuel (recv ++ "." ++ name) typ 0 g

  abbrev reset_field : String → Expr → List String → Generator → Option Generator
  reset_field recv typ [] g = reset_embedded recv typ (embedded_name typ) g
  reset_field recv typ (n ∷ ns) g = reset_names recv typ (n ∷ ns) g

  unfoldable pub reset_fields : String → List Field → Generator → Option Generator
  reset_fields recv [] g = some g
  reset_fields recv (f ∷ fs) g =
      and_then (reset_field recv f.field_type f.names g) (reset_fields recv fs)

  unfoldable pub write_method : StructSpec → Generator → Option Generator
  write_method ts g =
      let recv = receiver_name tc ts.name in
      let opened = printf ("if " ++ recv ++ " == nil {\nreturn\n}\n\n") (
        printf ("func (" ++ recv ++ " *" ++ type_name ts ts.params ++ ") Reset() {\n")
          (printf ("// Reset resets " ++ ts.name ++ " to its initial state.\n") g)) in
      and_then (reset_fields recv ts.fields opened) (λ h. some (printf "}\n\n" h))

  module _ (most : ℕ)
      (small : (name : String) (ts : TypeSpec)
        → lookup name info.types ≡ some ts
        → size ts.definition ≤ most) where
    and_then-Returns :
        (o : Option Generator) (f : Generator → Option Generator)
        → Returns o
        → ((g : Generator) → Returns (f g))
        → Returns (and_then o f)
    and_then-Returns o f (g, e) h = rw e (h g)

    reset_names-Returns :
        (recv : String) (typ : Expr) (ns : List String) (g : Generator)
        → enough_fuel most typ 0 ≤ fuel
        → Returns (reset_names recv typ ns g)
    unfolding reset_names
    reset_names-Returns recv typ [] g enough = (g, refl)
    reset_names-Returns recv typ (n ∷ ns) g enough =
        and_then-Returns _ _
          (if-Returns (str_eq n "_") _ _ (g, refl)
            (reset_expr-Returns tc info most fuel _ typ 0 g small enough))
          (λ h. reset_names-Returns recv typ ns h enough)

    reset_field-Returns :
        (recv : String) (typ : Expr) (ns : List String) (g : Generator)
        → enough_fuel most typ 0 ≤ fuel
        → Returns (reset_field recv typ ns g)
    reset_field-Returns recv typ [] g enough =
        if-Returns (str_eq (embedded_name typ) "") _ _ (g, refl)
          (reset_expr-Returns tc info most fuel _ typ 0 g small enough)
    reset_field-Returns recv typ (n ∷ ns) g enough = reset_names-Returns recv typ (n ∷ ns) g enough

    reset_fields-Returns :
        (recv : String) (fs : List Field) (g : Generator)
        → All (λ f. enough_fuel most f.field_type 0 ≤ fuel) fs
        → Returns (reset_fields recv fs g)
    unfolding reset_fields
    reset_fields-Returns recv [] g enough = (g, refl)
    reset_fields-Returns recv (f ∷ fs) g enough =
        and_then-Returns _ _ (reset_field-Returns recv f.field_type f.names g enough.0)
          (λ h. reset_fields-Returns recv fs h enough.1)

    -- Where no definition of the package has more than `most` nodes and the fuel is enough for the
    -- type of each field, the generator ends with a method, types that are defined through
    -- themselves included.
    pub write_method-Returns :
        (ts : StructSpec) (g : Generator)
        → All (λ f. enough_fuel most f.field_type 0 ≤ fuel) ts.fields
        → Returns (write_method ts g)
    unfolding write_method
    write_method-Returns ts g enough =
        and_then-Returns _ _ (reset_fields-Returns _ ts.fields _ enough) (λ h. (_, refl))
