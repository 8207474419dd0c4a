-- ===== src/Examples/Generator.antt =====
-- The generator of Reset methods at a type that is defined through itself: type P *P.
use svcmetrics.Base.{
  List, ◌≤◌, ◌≡◌, String, false, none, some, [], ◌∷◌, str_eq, arith, inl, inr, Bool-cases,
}
use mathlib.Core.Option.{some-injective, none-ne-some}
use svcmetrics.Base.Dict.{lookup}
use svcmetrics.Errors.{Result, ok}
use svcmetrics.Reset.{ident, star_expr, TypeSpec, PkgInfo, Toolchain}
use svcmetrics.Reset.Depth.{size}
use svcmetrics.Reset.Method.{StructSpec}
use svcmetrics.Reset.Generate.{Target, generate, generate_ends}

abbrev pub toolchain : Toolchain
toolchain = record {
  print = λ e. ok "P";
  selectors = λ e. [];
  base = λ p. p;
  contains = λ s t. false;
  first_lower = λ s. some "n";
  load = λ path. ok (λ name. none);
}

abbrev pointer_to_itself : TypeSpec
pointer_to_itself = record {
  name = "P";
  is_alias = false;
  has_params = false;
  definition = star_expr (ident "P");
}

abbrev info : PkgInfo
info = record { types = ("P", pointer_to_itself) ∷ []; has_reset = []; imports_of_file = [] }

small : (name : String) (ts : TypeSpec) → lookup name info.types ≡ some ts → size ts.definition ≤ 2
unfolding lookup
small name ts e = elim (Bool-cases (str_eq "P" name)) [
  | inl p ↦ rw (← some-injective _ _ (rw p at e)) (omega arith)
  | inr p ↦ absurd (none-ne-some ts (rw p at e))
]

abbrev node : StructSpec
node = record {
  name = "Node";
  params = [];
  fields = record { names = "next" ∷ []; field_type = ident "P" } ∷ [];
}

abbrev targets : List Target
targets = record { spec = node; file_imports = [] } ∷ []

generate_ends_example :
    (r : Result String) × (generate toolchain (λ src. ok src) info 28 "list" targets ≡ some r)
generate_ends_example =
    generate_ends toolchain (λ src. ok src) info 28 2 small "list" targets ((omega arith, tt), tt)
