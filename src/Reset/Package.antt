-- ===== src/Reset/Package.antt =====
-- cmd/reset/main.go: processDir and removeStale, on the entries of a directory.
pub mod Sources
pub mod Twice
use text.Mathlib.Text.{starts_with}
use svcmetrics.Base.{
  ℕ, String, Bool, true, false, ◌&&◌, not, Option, none, some, List, [], ◌∷◌, str_eq, if◌then◌else◌,
}
use svcmetrics.Base.Dict.{Dict, insert, erase, lookup}
use svcmetrics.Errors.{Err, Result, ok, err, map_ok, path_error, errno, eisdir}
use svcmetrics.Reset.{Toolchain}
use svcmetrics.Reset.Generate.{Target, gen_header, generate}
use svcmetrics.Reset.Collect.{SourceFile, Collected, nothing, collect_files}

-- A file with its content, or a directory.
pub data Entry : Type 0 where
  file : String → Entry
  subdirectory : Entry

-- The entries, as os.ReadDir lists them.
abbrev pub Directory : Type 0
Directory = Dict Entry

abbrev pub gen_file_name : String
gen_file_name = "reset.gen.go"

-- strings.HasSuffix, strings.TrimSpace, and parser.ParseFile of a name and a content.
pub record Tools : Type 0 where
  pub has_suffix : String → String → Bool
  pub trim_space : String → String
  pub parse : String → String → Result SourceFile

-- The errors of the system calls, if any; a write that fails leaves some bytes.
pub record Faults : Type 0 where
  pub read_dir : Option Err
  pub read_file : Option Err
  pub remove : Option Err
  pub write : Option Err
  pub written : Option String

abbrev pub Sources : Type 0
Sources = Result (String × List SourceFile)

abbrev pub with_file : SourceFile → Sources → Sources
with_file f (err e) = err e
with_file f (ok (name, files)) = ok (name, f ∷ files)

-- The files of the package that the first file names.
abbrev pub kept_file : (String → Sources) → String → SourceFile → Sources
kept_file next name f =
    if str_eq name ""
    then with_file f (next f.package_name)
    else if str_eq name f.package_name
    then with_file f (next name)
    else next name

abbrev pub parsed_file : (String → Sources) → String → Result SourceFile → Sources
parsed_file next name (err e) = err e
parsed_file next name (ok f) = kept_file next name f

module _ (tools : Tools) where
  unfoldable pub is_source : String → Bool
  is_source name =
      tools.has_suffix name ".go"
      && not (tools.has_suffix name "_test.go")
      && not (str_eq name gen_file_name)

  -- The first loop of processDir, with the name of the package so far.
  unfoldable pub source_files : Directory → String → Sources
  source_files [] name = ok (name, [])
  source_files ((n, subdirectory) ∷ rest) name = source_files rest name
  source_files ((n, file content) ∷ rest) name =
      let next = source_files rest in
      if is_source n then parsed_file next name (tools.parse n content) else next name

  module _ (faults : Faults) where
    abbrev pub removed : Directory → Option Err → Option Err × Directory
    removed dir (some e) = (some e, dir)
    removed dir none = (none, erase gen_file_name dir)

    abbrev pub stale_read : String → Directory → Option Err → Option Err × Directory
    stale_read content dir (some e) = (some e, dir)
    stale_read content dir none =
        if starts_with content gen_header then removed dir faults.remove else (none, dir)

    abbrev pub stale_entry : Directory → Option Entry → Option Err × Directory
    stale_entry dir none = (none, dir)
    stale_entry dir (some subdirectory) = (some (path_error ∷ errno eisdir ∷ []), dir)
    stale_entry dir (some (file content)) = stale_read content dir faults.read_file

    unfoldable pub remove_stale : Directory → Option Err × Directory
    remove_stale dir = stale_entry dir (lookup gen_file_name dir)

    -- A write that failed has left the directory as it was, or the file with some bytes.
    abbrev pub partly_written : Option String → Directory → Directory
    partly_written none dir = dir
    partly_written (some content) dir = insert gen_file_name (file content) dir

    abbrev pub written_file : String → Directory → Option Err → Option Err × Directory
    written_file src dir (some e) = (some e, partly_written faults.written dir)
    written_file src dir none = (none, insert gen_file_name (file src) dir)

    abbrev pub written_entry : String → Directory → Option Entry → Option Err × Directory
    written_entry src dir (some subdirectory) = (some (path_error ∷ errno eisdir ∷ []), dir)
    written_entry src dir (some (file content)) = written_file src dir faults.write
    written_entry src dir none = written_file src dir faults.write

    -- os.WriteFile
    unfoldable pub write_file : String → Directory → Option Err × Directory
    write_file src dir = written_entry src dir (lookup gen_file_name dir)

    module _ (tc : Toolchain) (format : String → Result String) (fuel : ℕ) where
      abbrev pub Processed : Type 0
      Processed = Option (Option Err × Directory)

      abbrev pub generated : Directory → Option (Result String) → Processed
      generated dir none = none
      generated dir (some (err e)) = some (some e, dir)
      generated dir (some (ok src)) = some (write_file src dir)

      abbrev pub with_targets : Directory → String → Collected → List Target → Processed
      with_targets dir name c [] = some (remove_stale dir)
      with_targets dir name c (t ∷ ts) = generated dir (
          generate tc format
            (record { types = c.types; has_reset = c.has_reset; imports_of_file = [] }) fuel name
            (t ∷ ts))

      abbrev pub collected : Directory → Sources → Processed
      collected dir (err e) = some (some e, dir)
      collected dir (ok (name, files)) =
          let c = collect_files tools.trim_space files nothing in with_targets dir name c c.targets

      abbrev pub listed : Directory → Option Err → Processed
      listed dir (some e) = some (some e, dir)
      listed dir none = collected dir (source_files dir "")

      -- none is too little fuel.
      unfoldable pub process_dir : Directory → Processed
      process_dir dir = listed dir faults.read_dir
