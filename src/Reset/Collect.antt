-- ===== src/Reset/Collect.antt =====
-- cmd/reset/collect.go: the declarations of a package, and the structs that are marked.
pub mod Targets
pub mod Found
pub mod Marks
use Prim.Native.String.{len}
use text.Mathlib.Text.{starts_with, get?}
use svcmetrics.Base.{
  String, Bool, true, false, ◌||◌, ◌&&◌, not, Option, none, some, List, [], ◌∷◌, ◌++◌, str_eq,
  if◌then◌else◌, get_or,
}
use svcmetrics.Base.Dict.{Dict, insert}
use svcmetrics.Reset.{Expr, TypeSpec, ImportSpec}
use svcmetrics.Reset.Names.{recv_type_name}
use svcmetrics.Reset.Method.{StructSpec}
use svcmetrics.Reset.Generate.{Target}

-- ast.CommentGroup, as the texts of its comments; none is nil.
abbrev pub Doc : Type 0
Doc = Option (List String)

-- A spec of a type declaration with its own comment, and its struct if it is one.
pub record DeclaredType : Type 0 where
  pub spec : TypeSpec
  pub doc : Doc
  pub struct : Option StructSpec

-- ast.FuncDecl with the types of its receivers, none for a function; an ast.GenDecl of types; any other.
pub data Decl : Type 0 where
  func_decl : Option (List Expr) → String → Decl
  type_decl : Doc → List DeclaredType → Decl
  other_decl : Decl

pub record SourceFile : Type 0 where
  pub package_name : String
  pub imports : List ImportSpec
  pub decls : List Decl

-- What the collection fills of pkgInfo.
pub record Collected : Type 0 where
  pub types : Dict TypeSpec
  pub has_reset : Dict Bool
  pub targets : List Target

abbrev pub nothing : Collected
nothing = record { types = []; has_reset = []; targets = [] }

abbrev marker : String
marker = "generate:reset"

-- strings.TrimPrefix of two slashes
unfoldable pub uncommented : String → String
uncommented s = if starts_with s "//" then get_or s (get? s 2 (len s)) else s

-- The comment of a declaration with one spec is that of the spec too.
abbrev pub shared_doc : Doc → List DeclaredType → Doc
shared_doc doc (_ ∷ []) = doc
shared_doc doc _ = none

abbrev pub doc_of : Doc → Doc → Doc
doc_of (some texts) shared = some texts
doc_of none shared = shared

abbrev pub target_of : SourceFile → StructSpec → Target
target_of f st = record { spec = st; file_imports = f.imports }

abbrev pub collect_method : Option (List Expr) → String → Collected → Collected
collect_method (some (x ∷ [])) name c =
    if str_eq name "Reset" && not (str_eq (recv_type_name x) "")
    then record c { has_reset = insert (recv_type_name x) true c.has_reset }
    else c
collect_method _ name c = c

-- `trim_space` is strings.TrimSpace.
module _ (trim_space : String → String) where
  unfoldable pub marked_line : List String → Bool
  marked_line [] = false
  marked_line (c ∷ cs) =
      let later = marked_line cs in
      if str_eq (trim_space (uncommented c)) marker then true else later

  -- hasMarker
  abbrev pub has_marker : Doc → Bool
  has_marker none = false
  has_marker (some texts) = marked_line texts

  abbrev pub collect_struct :
      SourceFile → Doc → DeclaredType → Option StructSpec → Collected → Collected
  collect_struct f shared t none c = c
  collect_struct f shared t (some st) c =
      if has_marker (doc_of t.doc shared)
      then record c {
        targets = c.targets ++ target_of f st ∷ [];
        has_reset = insert t.spec.name true c.has_reset;
      }
      else c

  unfoldable pub collect_types : SourceFile → Doc → List DeclaredType → Collected → Collected
  collect_types f shared [] c = c
  collect_types f shared (t ∷ ts) c =
      collect_types f shared ts (
        collect_struct f shared t t.struct (record c { types = insert t.spec.name t.spec c.types }))

  -- The body of the loop of collectDecls.
  unfoldable pub collect_decl : SourceFile → Decl → Collected → Collected
  collect_decl f (func_decl recv name) c = collect_method recv name c
  collect_decl f (type_decl doc specs) c = collect_types f (shared_doc doc specs) specs c
  collect_decl f other_decl c = c

  unfoldable pub collect_decls : SourceFile → List Decl → Collected → Collected
  collect_decls f [] c = c
  collect_decls f (d ∷ ds) c = collect_decls f ds (collect_decl f d c)

  -- The loop of processDir over the files.
  unfoldable pub collect_files : List SourceFile → Collected → Collected
  collect_files [] c = c
  collect_files (f ∷ fs) c = collect_files fs (collect_decls f f.decls c)
