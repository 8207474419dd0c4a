-- ===== src/Reset.antt =====
-- cmd/reset: the generator of Reset methods, on the syntax tree of a package.
pub mod Resolve
pub mod Names
pub mod Emit
pub mod Depth
pub mod Method
pub mod Generate
pub mod Collect
pub mod Package
pub mod Walk
pub mod Loader
use svcmetrics.Base.{ℕ, String, Bool, Option, none, some, List}
use svcmetrics.Base.Dict.{Dict}
use svcmetrics.Errors.{Err, Result}

-- ast.Expr; an ast.ArrayType without a length is a slice. What the generator does not look into is a
-- number, which tells two such trees apart.
pub data Expr : Type 0 where
  ident : String → Expr
  paren_expr : Expr → Expr
  index_expr : Expr → ℕ → Expr
  index_list_expr : Expr → ℕ → Expr
  selector_expr : Expr → String → Expr
  star_expr : Expr → Expr
  slice_type : Expr → Expr
  array_type : ℕ → Expr → Expr
  map_type : Expr → Expr → Expr
  struct_type : ℕ → Expr
  other_expr : ℕ → Expr

pub record TypeSpec : Type 0 where
  pub name : String
  pub is_alias : Bool
  pub has_params : Bool
  pub definition : Expr

-- ast.ImportSpec: the path as quoted in the file and without the quotes, and the name, if any.
pub record ImportSpec : Type 0 where
  pub quoted : String
  pub path : String
  pub local_name : Option String

-- What go/types says of a named type.
pub record ExternalType : Type 0 where
  pub has_reset : Bool
  pub is_map : Bool
  pub is_slice : Bool

-- The package and the file at work, as far as it does not change.
pub record PkgInfo : Type 0 where
  pub types : Dict TypeSpec
  pub has_reset : Dict Bool
  pub imports_of_file : List ImportSpec

-- printer.Fprint, the selectors with a name before the dot that ast.Inspect meets, filepath.Base,
-- strings.Contains, the first character in lower case (none of an empty text), and the loader of packages, whose lookup answers none for what is no type.
pub record Toolchain : Type 0 where
  pub print : Expr → Result String
  pub selectors : Expr → List String
  pub base : String → String
  pub contains : String → String → Bool
  pub first_lower : String → Option String
  pub load : String → Result (String → Option ExternalType)

-- The generator: what it wrote, the imports of the generated file, and the first error.
pub record Generator : Type 0 where
  pub buf : String
  pub imports : Dict String
  pub fault : Option Err
