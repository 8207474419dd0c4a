-- ===== src/Reset/Walk/Visible.antt =====
-- cmd/reset/main.go: what collectDirs finds, against the list of every directory.
use text.Mathlib.Text.{starts_with}
use svcmetrics.Base.{
  ◌≡◌, refl, sym, ◌∙◌, ap, String, Bool, true, false, ◌&&◌, not, Option, none, some, List, [], ◌∷◌,
  ◌++◌, ◌⊎◌, arith, if◌then◌else◌, Bool-cases, inl, inr, str_eq,
}
use svcmetrics.Errors.{Err, ok, err}
use svcmetrics.Reset.Walk.{
  Node, file, dir, Nodes, end, entry, is_skipped, FilePath, Found, and_more, visited, walk,
  walk_nodes, collect_dirs,
}

-- Every directory of a tree in the order of the walk, with the error of reading it.
mutual
  pub all_dirs : FilePath → Node → List (FilePath × Option Err)
  all_dirs path file = []
  all_dirs path (dir e nodes) = (path, e) ∷ all_nodes path nodes

  pub all_nodes : FilePath → Nodes → List (FilePath × Option Err)
  all_nodes path end = []
  all_nodes path (entry name node rest) = all_dirs (path ++ name ∷ []) node ++ all_nodes path rest

-- A name that does not hide what is below it.
unfoldable pub is_plain_name : String → Bool
is_plain_name name =
    not (starts_with name ".")
    && not (starts_with name "_")
    && not (str_eq name "vendor")
    && not (str_eq name "testdata")

is_plain_name-is_skipped : (name : String) → is_plain_name name ≡ not (is_skipped name)
unfolding is_plain_name is_skipped
is_plain_name-is_skipped name = ground arith

abbrev pub is_visible : FilePath → Bool
is_visible [] = true
is_visible (name ∷ names) = is_plain_name name && is_visible names

-- The visible ones, up to the first that cannot be read.
abbrev visible_dirs : List (FilePath × Option Err) → Found
visible_dirs [] = ok []
visible_dirs ((path, e) ∷ rest) =
    if is_visible path then visited path e (visible_dirs rest) else visible_dirs rest

visited-and_more :
    (path : FilePath) (e : Option Err) (a b : Found)
    → and_more (visited path e a) b ≡ visited path e (and_more a b)
visited-and_more path (some e) a b = refl
visited-and_more path none (err e) b = refl
visited-and_more path none (ok p) (err e) = refl
visited-and_more path none (ok p) (ok q) = refl

and_more_nil : (r : Found) → and_more (ok []) r ≡ r
and_more_nil (ok p) = refl
and_more_nil (err e) = refl

visible_dirs-append :
    (xs ys : List (FilePath × Option Err))
    → visible_dirs (xs ++ ys) ≡ and_more (visible_dirs xs) (visible_dirs ys)
visible_dirs-append [] ys = sym (and_more_nil (visible_dirs ys))
visible_dirs-append ((path, e) ∷ xs) ys = elim (Bool-cases (is_visible path)) [
  | inl seen ↦ rw (seen, visible_dirs-append xs ys) (sym (visited-and_more path e _ _))
  | inr hidden ↦ rw (hidden, visible_dirs-append xs ys) refl
]

is_visible-append : (p q : FilePath) → is_visible (p ++ q) ≡ (is_visible p && is_visible q)
is_visible-append [] q = refl
is_visible-append (n ∷ p) q = elim (Bool-cases (is_plain_name n)) [
  | inl e ↦ rw e (is_visible-append p q)
  | inr e ↦ rw e refl
]

is_visible-below :
    (path : FilePath) (name : String)
    → is_visible (path ++ name ∷ []) ≡ (is_visible path && not (is_skipped name))
is_visible-below path name =
    is_visible-append path (name ∷ []) ∙ rw (is_plain_name-is_skipped name) (ground arith)

-- Nothing below a directory that is left out is visible.
mutual
  unfolding all_dirs

  all_dirs-hidden :
      (path : FilePath) (n : Node)
      → is_visible path ≡ false
      → visible_dirs (all_dirs path n) ≡ ok []
  all_dirs-hidden path file h = refl
  all_dirs-hidden path (dir e nodes) h = rw h (all_nodes-hidden path nodes h)

  all_nodes-hidden :
      (path : FilePath) (ns : Nodes)
      → is_visible path ≡ false
      → visible_dirs (all_nodes path ns) ≡ ok []
  all_nodes-hidden path end h = refl
  all_nodes-hidden path (entry name n rest) h =
      let below : is_visible (path ++ name ∷ []) ≡ false = is_visible-below path name ∙ rw h refl in
      visible_dirs-append (all_dirs (path ++ name ∷ []) n) (all_nodes path rest)
      ∙ rw (all_dirs-hidden (path ++ name ∷ []) n below, all_nodes-hidden path rest h) refl

below_entry :
    (name : String) (hidden : Bool) (below below' more : Found)
    → (hidden ≡ true → below' ≡ ok [])
    → (hidden ≡ false → below ≡ below')
    → (if hidden then more else and_more below more) ≡ and_more below' more
below_entry name true below below' more h k = sym (rw (h refl) (and_more_nil more))
below_entry name false below below' more h k = rw (k refl) refl

mutual
  unfolding walk all_dirs

  walk_nodes-visible_dirs :
      (path : FilePath) (ns : Nodes)
      → is_visible path ≡ true
      → walk_nodes path ns ≡ visible_dirs (all_nodes path ns)
  walk_nodes-visible_dirs path end h = refl
  walk_nodes-visible_dirs path (entry name file rest) h = walk_nodes-visible_dirs path rest h
  walk_nodes-visible_dirs path (entry name (dir e nodes) rest) h =
      let path' = path ++ name ∷ [] in
      let seen = is_visible-below path name in
      rw (walk_nodes-visible_dirs path rest h) (
        below_entry name (is_skipped name) _ (visible_dirs (all_dirs path' (dir e nodes))) _
          (λ s. all_dirs-hidden path' (dir e nodes) (seen ∙ rw (h, s) refl))
          (λ s.
            let visible : is_visible path' ≡ true = seen ∙ rw (h, s) refl in
            rw (visible, walk_nodes-visible_dirs path' nodes visible) refl)
        ∙ sym (visible_dirs-append (all_dirs path' (dir e nodes)) (all_nodes path rest)))

collect_dirs-visible_dirs :
    (e : Option Err) (nodes : Nodes)
    → collect_dirs (dir e nodes) ≡ visible_dirs (all_dirs [] (dir e nodes))
unfolding collect_dirs walk all_dirs
collect_dirs-visible_dirs e nodes = ap (visited [] e) (walk_nodes-visible_dirs [] nodes refl)

-- The visible ones of some directories, and directories that can be read.
abbrev pub only_visible : List (FilePath × Option Err) → List (FilePath × Option Err)
only_visible [] = []
only_visible ((path, e) ∷ rest) =
    if is_visible path then (path, e) ∷ only_visible rest else only_visible rest

abbrev pub readable : List FilePath → List (FilePath × Option Err)
readable [] = []
readable (path ∷ paths) = (path, none) ∷ readable paths

-- All of them, if each can be read, and otherwise the error of the first that cannot.
abbrev pub IsFound : List (FilePath × Option Err) → Found → Type 0
IsFound dirs found =
    ((paths : List FilePath) × (dirs ≡ readable paths) × (found ≡ ok paths))
    ⊎ ((before : List FilePath) × (path : FilePath) × (e : Err) × (after : List
          (FilePath × Option Err))
        × (dirs ≡ readable before ++ (path, some e) ∷ after)
        × (found ≡ err e))

visited-IsFound :
    (path : FilePath) (o : Option Err) (dirs : List (FilePath × Option Err)) (found : Found)
    → IsFound dirs found
    → IsFound ((path, o) ∷ dirs) (visited path o found)
visited-IsFound path (some x) dirs found h = inr ([], path, x, dirs, refl, refl)
visited-IsFound path none dirs found (inl (paths, d, f)) =
    inl (path ∷ paths, ap (λ l. (path, none) ∷ l) d, ap (visited path none) f)
visited-IsFound path none dirs found (inr (before, other, e, after, d, f)) =
    inr (path ∷ before, other, e, after, ap (λ l. (path, none) ∷ l) d, ap (visited path none) f)

visible_dirs-IsFound :
    (dirs : List (FilePath × Option Err)) → IsFound (only_visible dirs) (visible_dirs dirs)
visible_dirs-IsFound [] = inl ([], refl, refl)
visible_dirs-IsFound ((path, e) ∷ rest) = elim (Bool-cases (is_visible path)) [
  | inl seen ↦ rw seen (visited-IsFound path e _ _ (visible_dirs-IsFound rest))
  | inr hidden ↦ rw hidden (visible_dirs-IsFound rest)
]

-- A directory of the tree is visible if none of its names below the root begins with a dot or an underscore
-- or is vendor or testdata. collectDirs of a directory answers the visible ones in the order of the
-- walk, where each of them can be read, and otherwise fails with the error of the first of them that
-- cannot; whether the others can be read makes no difference.
pub collect_dirs-IsFound :
    (e : Option Err) (nodes : Nodes)
    → IsFound (only_visible (all_dirs [] (dir e nodes))) (collect_dirs (dir e nodes))
collect_dirs-IsFound e nodes =
    rw (collect_dirs-visible_dirs e nodes) (visible_dirs-IsFound (all_dirs [] (dir e nodes)))
