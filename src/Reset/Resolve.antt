-- ===== src/Reset/Resolve.antt =====
-- cmd/reset/resolve.go: the types of other packages, and the imports of the generated file.
use svcmetrics.Base.{
  String, ◌&&◌, not, Option, none, some, List, [], ◌∷◌, str_eq, str_append, if◌then◌else◌, get_or,
  is_some,
}
use svcmetrics.Base.Dict.{Dict, lookup, insert}
use svcmetrics.Errors.{Result, ok, err, text}
use svcmetrics.Reset.{Expr, ident, ImportSpec, ExternalType, Toolchain, Generator}

module _ (tc : Toolchain) where
  abbrev pub local_of : ImportSpec → String
  local_of imp = get_or (tc.base imp.path) imp.local_name

  -- importPath
  unfoldable pub import_path : String → List ImportSpec → String
  import_path name [] = ""
  import_path name (imp ∷ rest) =
      let later = import_path name rest in if str_eq (local_of imp) name then imp.path else later

  abbrev looked_up : String → String → (String → Option ExternalType) → Result (Option ExternalType)
  looked_up name path scope = elim (scope name) [
    | none ↦ err (text (str_append "type not found: " (str_append name path)) ∷ [])
    | some t ↦ ok (some t)
  ]

  abbrev loaded :
      String → String → Result (String → Option ExternalType) → Result (Option ExternalType)
  loaded name path (err e) = err e
  loaded name path (ok scope) = looked_up name path scope

  -- lookupExternal: ok none where the selector names no import of the file.
  unfoldable pub lookup_external : List ImportSpec → Expr → String → Result (Option ExternalType)
  lookup_external imports (ident pkg) name =
      let path = import_path pkg imports in
      if str_eq path "" then ok none else loaded name path (tc.load path)
  lookup_external imports _ name = ok none

  -- The first loop of addImport, over the imports with that local name.
  unfoldable pub named_import : String → List ImportSpec → Option String
  named_import name [] = none
  named_import name (imp ∷ rest) =
      let later = named_import name rest in
      if str_eq (local_of imp) name
      then (if is_some imp.local_name
          then some (str_append name (str_append " " imp.quoted))
          else some imp.quoted)
      else later

  -- The second one: a name that the base of the path only contains.
  unfoldable pub guessed_import : String → List ImportSpec → Option String
  guessed_import name [] = none
  guessed_import name (imp ∷ rest) =
      let later = guessed_import name rest in
      if not (is_some imp.local_name) && tc.contains (tc.base imp.path) name
      then some (str_append name (str_append " " imp.quoted))
      else later

  abbrev import_of : String → List ImportSpec → Option String → Option String
  import_of name imports (some i) = some i
  import_of name imports none = guessed_import name imports

  abbrev imported : String → Option String → Dict String → Dict String
  imported name none d = d
  imported name (some i) d = insert name i d

  -- addImport
  unfoldable pub add_import : List ImportSpec → String → Generator → Generator
  add_import imports name g = if is_some (lookup name g.imports) then g else record g {
    imports = imported name (import_of name imports (named_import name imports)) g.imports;
  }
