-- ===== src/Reset/Generate.antt =====
-- cmd/reset/emit.go: generate, the file with the Reset methods of a package.
use Prim.Native.String.{◌++◌, compare}
use text.Mathlib.Text.{is_lt}
use svcmetrics.Base.{
  ℕ, ◌≤◌, ◌≡◌, refl, String, Option, none, some, List, [], ◌∷◌, if◌then◌else◌, All, Bool-cases, inl,
  inr,
}
use svcmetrics.Base.Dict.{Dict, lookup}
use svcmetrics.Errors.{Err, Result, ok, err, text as text_link}
use svcmetrics.Reset.{TypeSpec, ImportSpec, PkgInfo, Toolchain, Generator}
use svcmetrics.Reset.Depth.{size, enough_fuel}
use svcmetrics.Reset.Method.{Field, StructSpec, write_method, write_method-Returns}

-- A struct that is marked, with the imports of its file.
pub record Target : Type 0 where
  pub spec : StructSpec
  pub file_imports : List ImportSpec

abbrev pub gen_header : String
gen_header = "// Code generated by cmd/reset; DO NOT EDIT."

-- sort.Slice by name, where no two targets have the same
unfoldable pub insert_target : Target → List Target → List Target
insert_target t [] = t ∷ []
insert_target t (u ∷ us) =
    let rest = insert_target t us in
    if is_lt (compare u.spec.name t.spec.name) then u ∷ rest else t ∷ u ∷ us

unfoldable pub sort_targets : List Target → List Target
sort_targets [] = []
sort_targets (t ∷ ts) = insert_target t (sort_targets ts)

-- The imports by their names, as sort.Strings puts them.
unfoldable pub insert_import : String → String → Dict String → Dict String
insert_import name line [] = (name, line) ∷ []
insert_import name line ((other, l) ∷ rest) =
    let rest' = insert_import name line rest in
    if is_lt (compare other name) then (other, l) ∷ rest' else (name, line) ∷ (other, l) ∷ rest

unfoldable pub sort_imports : Dict String → Dict String
sort_imports [] = []
sort_imports ((name, line) ∷ rest) = insert_import name line (sort_imports rest)

unfoldable pub import_lines : Dict String → String
import_lines [] = ""
import_lines ((name, line) ∷ rest) = "\t" ++ line ++ "\n" ++ import_lines rest

abbrev import_block : Dict String → String
import_block [] = ""
import_block (i ∷ is) = "import (\n" ++ import_lines (sort_imports (i ∷ is)) ++ ")\n\n"

-- `format` is format.Source.
module _ (tc : Toolchain) (format : String → Result String) (info : PkgInfo) (fuel : ℕ) where
  abbrev Written : Type 0
  Written = Option (Result (String × Dict String))

  abbrev failed_or :
      StructSpec → (String → Dict String → Written) → Generator → Option Err → Written
  failed_or spec next g (some e) = some (err (text_link spec.name ∷ e))
  failed_or spec next g none = next g.buf g.imports

  abbrev after_method : StructSpec → (String → Dict String → Written) → Option Generator → Written
  after_method spec next none = none
  after_method spec next (some g) = failed_or spec next g g.fault

  -- The loop over the targets; a generator of its own writes each method.
  unfoldable pub write_methods : List Target → String → Dict String → Written
  write_methods [] buf imports = some (ok (buf, imports))
  write_methods (t ∷ ts) buf imports = after_method t.spec (write_methods ts) (
      write_method tc (record info { imports_of_file = t.file_imports }) fuel t.spec
        (record { buf = buf; imports = imports; fault = none }))

  abbrev formatted : String → Result String → Result String
  formatted src (ok s) = ok s
  formatted src (err e) = err (text_link "format generated code" ∷ e)

  abbrev file_of : String → Result (String × Dict String) → Result String
  file_of package_name (err e) = err e
  file_of package_name (ok (body, imports)) =
      let src =
        gen_header ++ "\n\npackage " ++ package_name ++ "\n\n" ++ import_block imports ++ body in
      formatted src (format src)

  unfoldable pub generate : String → List Target → Option (Result String)
  generate package_name targets = elim (write_methods (sort_targets targets) "" []) [
    | none ↦ none
    | some r ↦ some (file_of package_name r)
  ]

  module _ (most : ℕ)
      (small : (name : String) (ts : TypeSpec)
        → lookup name info.types ≡ some ts
        → size ts.definition ≤ most) where
    -- The fuel is enough for every field of a target.
    abbrev pub HasFuel : Target → Type 0
    HasFuel t = All (λ (f : Field). enough_fuel most f.field_type 0 ≤ fuel) t.spec.fields

    insert_target-All :
        (t : Target) (ts : List Target)
        → HasFuel t
        → All HasFuel ts
        → All HasFuel (insert_target t ts)
    unfolding insert_target
    insert_target-All t [] h hs = (h, tt)
    insert_target-All t (u ∷ us) h hs =
        elim (Bool-cases (is_lt (compare u.spec.name t.spec.name))) [
          | inl e ↦ rw e (hs.0, insert_target-All t us h hs.1)
          | inr e ↦ rw e (h, hs)
        ]

    sort_targets-All : (ts : List Target) → All HasFuel ts → All HasFuel (sort_targets ts)
    unfolding sort_targets
    sort_targets-All [] hs = tt
    sort_targets-All (t ∷ ts) hs =
        insert_target-All t (sort_targets ts) hs.0 (sort_targets-All ts hs.1)

    failed_or_ends :
        (spec : StructSpec) (next : String → Dict String → Written) (g : Generator) (o : Option Err)
        → ((buf : String) (imports : Dict String)
            → (r : Result (String × Dict String)) × (next buf imports ≡ some r))
        → (r : Result (String × Dict String)) × (failed_or spec next g o ≡ some r)
    failed_or_ends spec next g (some e) h = (_, refl)
    failed_or_ends spec next g none h = h g.buf g.imports

    write_methods_ends :
        (ts : List Target) (buf : String) (imports : Dict String)
        → All HasFuel ts
        → (r : Result (String × Dict String)) × (write_methods ts buf imports ≡ some r)
    unfolding write_methods
    write_methods_ends [] buf imports hs = (_, refl)
    write_methods_ends (t ∷ ts) buf imports hs =
        let (g, e) =
          write_method-Returns tc (record info { imports_of_file = t.file_imports }) fuel most small
            t.spec (record { buf = buf; imports = imports; fault = none }) hs.0 in
        rw e (
          failed_or_ends t.spec (write_methods ts) g g.fault
            (λ b i. write_methods_ends ts b i hs.1))

    -- Where no definition of the package has more than `most` nodes and the fuel is enough for the type of
    -- each field of each target, the generator ends with the source of a file or with an error, types that
    -- are defined through themselves included.
    pub generate_ends :
        (package_name : String) (targets : List Target)
        → All HasFuel targets
        → (r : Result String) × (generate package_name targets ≡ some r)
    unfolding generate
    generate_ends package_name targets hs =
        let (r, e) =
          write_methods_ends (sort_targets targets) "" [] (sort_targets-All targets hs) in
        rw (generate, e) (_, refl)
