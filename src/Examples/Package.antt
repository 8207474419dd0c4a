-- ===== src/Examples/Package.antt =====
-- The generator over a directory, a tree and a loader at concrete inputs.
use svcmetrics.Base.{
  ◌⊎◌, ◌≡◌, refl, String, true, false, Option, none, some, [], ◌∷◌, str_eq, if◌then◌else◌,
}
use svcmetrics.Base.Dict.{lookup, erase}
use svcmetrics.Errors.{Err, ok, eof}
use svcmetrics.Reset.{ident, star_expr, TypeSpec}
use svcmetrics.Reset.Method.{StructSpec}
use svcmetrics.Reset.Collect.{
  func_decl, type_decl, SourceFile, nothing, collect_files, collect_decls,
}
use svcmetrics.Reset.Collect.Targets.{marked_files}
use svcmetrics.Reset.Collect.Found.{resets_files, collect_files_exactly}
use svcmetrics.Reset.Package.{
  file, subdirectory, Directory, Tools, Faults, process_dir, source_files, is_source, remove_stale,
}
use svcmetrics.Reset.Package.Twice.{OnlyGenerated, process_dir_twice}
use svcmetrics.Reset.Walk.{Nodes, dir, entry, end, collect_dirs}
use svcmetrics.Reset.Walk.Visible.{all_dirs, only_visible, IsFound, collect_dirs-IsFound}
use svcmetrics.Examples.Generator.{toolchain}

abbrev node : StructSpec
node = record { name = "Node"; params = []; fields = [] }

abbrev node_spec : TypeSpec
node_spec = record { name = "Node"; is_alias = false; has_params = false; definition = ident "x" }

-- strings.TrimSpace of a text that begins with a space.
abbrev trimmed : String → String
trimmed s = if str_eq s " generate:reset" then "generate:reset" else s

abbrev marked : SourceFile
marked = record {
  package_name = "list";
  imports = [];
  decls =
      type_decl (some ("// generate:reset" ∷ []))
        (record { spec = node_spec; doc = none; struct = some node } ∷ [])
      ∷ func_decl (some (star_expr (ident "List") ∷ [])) "Reset"
      ∷ [];
}

collect_files_exactly_example :
    let c = collect_files trimmed (marked ∷ []) nothing in
    (c.targets ≡ marked_files trimmed (marked ∷ []))
    × ((name : String)
        → lookup name c.has_reset
          ≡ (if resets_files trimmed name (marked ∷ []) then some true else none))
collect_files_exactly_example = collect_files_exactly trimmed (marked ∷ [])

abbrev plain : SourceFile
plain = record { package_name = "list"; imports = []; decls = [] }

abbrev tools : Tools
tools = record {
  has_suffix = λ s suffix. str_eq suffix ".go";
  trim_space = λ s. s;
  parse = λ name content. ok plain;
}

abbrev calm : Faults
calm = record { read_dir = none; read_file = none; remove = none; write = none; written = none }

abbrev directory : Directory
directory =
    ("list.go", file "package list")
    ∷ ("reset.gen.go", file "// Code generated by cmd/reset; DO NOT EDIT.\n\npackage list")
    ∷ ("testdata", subdirectory)
    ∷ []

abbrev cleaned : Directory
cleaned = ("list.go", file "package list") ∷ ("testdata", subdirectory) ∷ []

cleans : process_dir tools calm toolchain (λ src. ok src) 9 directory ≡ some (none, cleaned)
unfolding process_dir source_files is_source remove_stale collect_files collect_decls lookup erase
cleans = refl

process_dir_twice_example :
    OnlyGenerated directory cleaned
    × (((x : Err) × Path (Option Err) none (some x))
        ⊎ (process_dir tools calm toolchain (λ src. ok src) 9 cleaned ≡ some (none, cleaned)))
process_dir_twice_example =
    process_dir_twice tools calm toolchain (λ src. ok src) 9 directory cleaned none cleans

-- One directory is left out, and of the others one cannot be read.
abbrev tree : Nodes
tree =
    entry "vendor" (dir (some []) end)
      (entry "cmd" (dir none end) (entry "db" (dir (some (eof ∷ [])) end) end))

collect_dirs-IsFound_example :
    IsFound (only_visible (all_dirs [] (dir none tree))) (collect_dirs (dir none tree))
collect_dirs-IsFound_example = collect_dirs-IsFound none tree
