-- ===== src/Lint.antt =====
-- cmd/staticlint: the analyser of noosexit.go, which forbids os.Exit in main, and the analysers that main.go
-- runs. An identifier is a number, by which the type information knows it.
pub mod Reports
use svcmetrics.Base.{
  ℕ, String, Bool, true, false, ◌&&◌, ◌||◌, not, Option, none, some, List, [], ◌∷◌, ◌++◌, map,
  str_eq, if◌then◌else◌,
}

-- The nodes of a body; a call has its position. What the analyser does not tell apart is `other`.
mutual
  pub data Node : Type 0 where
    ident : ℕ → Node
    selector : Node → ℕ → Node
    paren : Node → Node
    call : ℕ → Node → Nodes → Node
    other : Nodes → Node

  pub data Nodes : Type 0 where
    end : Nodes
    child : Node → Nodes → Nodes

-- types.Func with the path of its package, if it has one, and its name; any other object.
pub data Object : Type 0 where
  func_object : Option String → String → Object
  other_object : Object

-- info.Uses
abbrev pub Uses : Type 0
Uses = ℕ → Option Object

-- ast.FuncDecl, or another declaration.
pub data Decl : Type 0 where
  func_decl : Bool → String → Option Node → Decl
  other_decl : Decl

pub record File : Type 0 where
  pub is_generated : Bool
  pub decls : List Decl

pub record Pass : Type 0 where
  pub package_name : String
  pub files : List File
  pub uses : Uses

-- ast.Unparen, and the identifier of a name or of a selector.
unfoldable pub name_of : Node → Option ℕ
name_of (paren x) = name_of x
name_of (ident id) = some id
name_of (selector x sel) = some sel
name_of (call _ _ _) = none
name_of (other _) = none

abbrev pub is_exit_object : Option Object → Bool
is_exit_object (some (func_object (some path) name)) = str_eq path "os" && str_eq name "Exit"
is_exit_object _ = false

abbrev pub uses_of : Uses → Option ℕ → Option Object
uses_of uses none = none
uses_of uses (some id) = uses id

-- isOsExit
unfoldable pub is_os_exit : Uses → Node → Bool
is_os_exit uses fun = is_exit_object (uses_of uses (name_of fun))

module _ (uses : Uses) where
  -- The reports of ast.Inspect over a body.
  unfoldable mutual
    pub inspect : Node → List ℕ
    inspect (ident id) = []
    inspect (selector x sel) = inspect x
    inspect (paren x) = inspect x
    inspect (call pos fun args) =
        (if is_os_exit uses fun then pos ∷ [] else []) ++ (inspect fun ++ inspect_all args)
    inspect (other children) = inspect_all children

    pub inspect_all : Nodes → List ℕ
    inspect_all end = []
    inspect_all (child x rest) = inspect x ++ inspect_all rest

  abbrev pub inspect_body : Option Node → List ℕ
  inspect_body none = []
  inspect_body (some body) = inspect body

  unfoldable pub check_decls : List Decl → List ℕ
  check_decls [] = []
  check_decls (func_decl has_recv name body ∷ ds) =
      (if has_recv || not (str_eq name "main") then [] else inspect_body body) ++ check_decls ds
  check_decls (other_decl ∷ ds) = check_decls ds

  unfoldable pub check_files : List File → List ℕ
  check_files [] = []
  check_files (f ∷ fs) = (if f.is_generated then [] else check_decls f.decls) ++ check_files fs

-- runNoOsExit, with the positions of its reports.
unfoldable pub run_no_os_exit : Pass → List ℕ
run_no_os_exit pass =
    if not (str_eq pass.package_name "main") then [] else check_files pass.uses pass.files

-- An analyser of honnef.co/go/tools, and whether it is off by default.
pub record LintAnalyzer (A : Type 0) : Type 0 where
  pub analyzer : A
  pub non_default : Bool

module _ {A : Type 0} where
  -- add
  unfoldable pub add_checks : Bool → List (LintAnalyzer A) → List A
  add_checks all [] = []
  add_checks all (c ∷ cs) =
      let rest = add_checks all cs in if all || not c.non_default then c.analyzer ∷ rest else rest

  -- staticcheckAnalyzers, with the lists of staticcheck, simple and stylecheck.
  unfoldable pub staticcheck_analyzers :
      List (LintAnalyzer A) → List (LintAnalyzer A) → List (LintAnalyzer A) → List A
  staticcheck_analyzers staticcheck simple stylecheck =
      add_checks true staticcheck ++ (add_checks true simple ++ add_checks false stylecheck)

  -- The list of main: the standard analysers, these, the public ones and its own.
  unfoldable pub main_analyzers : List A → List A → List A → A → List A
  main_analyzers standard checks public no_os_exit =
      standard ++ (checks ++ (public ++ no_os_exit ∷ []))
