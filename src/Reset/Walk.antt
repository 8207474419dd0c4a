-- ===== src/Reset/Walk.antt =====
-- cmd/reset/main.go: collectDirs, on a tree as filepath.WalkDir meets it, and the loop of main.
pub mod Visible
use text.Mathlib.Text.{starts_with}
use svcmetrics.Base.{
  ◌≡◌, refl, sym, ◌∙◌, ap, String, Bool, true, false, ◌||◌, ◌&&◌, not, Option, none, some, List, [],
  ◌∷◌, ◌++◌, map, str_eq, if◌then◌else◌, Bool-cases, inl, inr,
}
use mathlib.Core.List.{append-nil, append_assoc}
use svcmetrics.Errors.{Err, Result, ok, err, map_ok}

-- The error of reading a directory, and what is in it, by name.
mutual
  pub data Node : Type 0 where
    file : Node
    dir : Option Err → Nodes → Node

  pub data Nodes : Type 0 where
    end : Nodes
    entry : String → Node → Nodes → Nodes

-- The directories that a walk below the root leaves out.
unfoldable pub is_skipped : String → Bool
is_skipped name =
    starts_with name "." || starts_with name "_" || str_eq name "vendor" || str_eq name "testdata"

-- A path as its names below the root.
abbrev pub FilePath : Type 0
FilePath = List String

abbrev pub Found : Type 0
Found = Result (List FilePath)

-- What a walk finds before the rest.
abbrev pub and_more : Found → Found → Found
and_more (err e) more = err e
and_more (ok paths) more = map_ok (λ l. paths ++ l) more

-- The directory itself; an error of reading it comes before all that is in it.
abbrev pub visited : FilePath → Option Err → Found → Found
visited path (some e) below = err e
visited path none below = map_ok (λ l. path ∷ l) below

unfoldable mutual
  pub walk : FilePath → Node → Found
  walk path file = ok []
  walk path (dir e nodes) = visited path e (walk_nodes path nodes)

  pub walk_nodes : FilePath → Nodes → Found
  walk_nodes path end = ok []
  walk_nodes path (entry name file rest) = walk_nodes path rest
  walk_nodes path (entry name (dir e nodes) rest) =
      let below = visited (path ++ name ∷ []) e (walk_nodes (path ++ name ∷ []) nodes) in
      let more = walk_nodes path rest in if is_skipped name then more else and_more below more

-- collectDirs of a root
unfoldable pub collect_dirs : Node → Found
unfolding walk
collect_dirs root = walk [] root

-- The loop of main behind collectDirs: the first error is fatal.
unfoldable pub process_dirs :
    {W : Type 0} → (FilePath → W → Option Err × W) → List FilePath → W → Option Err × W
process_dirs process [] w = (none, w)
process_dirs process (path ∷ paths) w =
    let (e, w') = process path w in
    let rest = process_dirs process paths w' in elim e [ some x ↦ (some x, w') | none ↦ rest ]

-- The root is the first argument, or the working directory.
abbrev pub root_of : List String → String
root_of (_ ∷ root ∷ _) = root
root_of _ = "."

abbrev processed : {W : Type 0} → (FilePath → W → Option Err × W) → Found → W → Option Err × W
processed process (err e) w = (some e, w)
processed process (ok paths) w = process_dirs process paths w

-- main, where `tree` is what is on the disk below a root; an error is fatal.
unfoldable pub main :
    {W : Type 0}
    → (String → Node)
    → (String → FilePath → W → Option Err × W)
    → List String
    → W
    → Option Err × W
unfolding collect_dirs process_dirs
main tree process args w =
    let root = root_of args in processed (process root) (collect_dirs (tree root)) w
