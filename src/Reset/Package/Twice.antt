-- ===== src/Reset/Package/Twice.antt =====
-- cmd/reset/main.go: what processDir changes, and what a second run finds.
use svcmetrics.Base.{
  ℕ, ◌≡◌, refl, sym, ◌∙◌, ap, String, false, Option, none, some, List, [], ◌∷◌, str_eq, Bool-cases,
  inl, inr, ◌⊎◌, Option-cases,
}
use text.Mathlib.Text.{starts_with}
use mathlib.Core.Path.{subst}
use mathlib.Core.Option.{none-ne-some}
use svcmetrics.Base.Dict.{insert, erase, lookup, lookup-insert, lookup-erase, lookup-insert_self}
use svcmetrics.Errors.{Err, Result, ok, err}
use svcmetrics.Reset.{Toolchain}
use svcmetrics.Reset.Generate.{Target, gen_header}
use svcmetrics.Reset.Collect.{Collected, nothing, collect_files}
use svcmetrics.Reset.Package.{
  Entry, file, subdirectory, Directory, gen_file_name, Tools, Faults, Sources, source_files,
  removed, stale_read, stale_entry, remove_stale, partly_written, written_file, written_entry,
  write_file, generated, with_targets, collected, listed, process_dir,
}
use svcmetrics.Reset.Package.Sources.{source_files-insert, source_files-erase}

insert_twice :
    (x : Entry) (d : Directory)
    → insert gen_file_name x (insert gen_file_name x d) ≡ insert gen_file_name x d
unfolding insert
insert_twice x [] = refl
insert_twice x ((n, e) ∷ rest) = elim (Bool-cases (str_eq n gen_file_name)) [
  | inl same ↦ rw (same, same) refl
  | inr other ↦ rw (other, other, insert_twice x rest) refl
]

-- Every entry but the generated file is as it was.
abbrev pub OnlyGenerated : Directory → Directory → Type 0
OnlyGenerated dir dir' =
    (name : String) → str_eq gen_file_name name ≡ false → lookup name dir' ≡ lookup name dir

OnlyGenerated-insert :
    (x : Entry) (dir : Directory) → OnlyGenerated dir (insert gen_file_name x dir)
OnlyGenerated-insert x dir name other = rw (lookup-insert gen_file_name name x dir, other) refl

OnlyGenerated-erase : (dir : Directory) → OnlyGenerated dir (erase gen_file_name dir)
OnlyGenerated-erase dir name other = rw (lookup-erase gen_file_name name dir, other) refl

-- What a system call on the generated file leads to: the sources are as they were, and where there is
-- no error, the same call has nothing more to do.
abbrev Settles :
    Tools → (Directory → Option Err × Directory) → Directory → Option Err × Directory → Type 0
Settles tools again dir out =
    OnlyGenerated dir out.1
    × (source_files tools out.1 ≡ source_files tools dir)
    × (out.0 ≡ none → again out.1 ≡ (none, out.1))

module _ (tools : Tools) (faults : Faults) where
  abbrev SettlesRemoved : Directory → Option Err × Directory → Type 0
  SettlesRemoved = Settles tools (remove_stale tools faults)

  failed-Settles :
      (again : Directory → Option Err × Directory) (e : Err) (dir : Directory)
      → Settles tools again dir (some e, dir)
  failed-Settles again e dir = (λ name _. refl, refl, λ n. absurd (none-ne-some e (sym n)))

  removed-SettlesRemoved :
      (dir : Directory) (o : Option Err) → SettlesRemoved dir (removed tools faults dir o)
  unfolding remove_stale
  removed-SettlesRemoved dir (some e) = failed-Settles (remove_stale tools faults) e dir
  removed-SettlesRemoved dir none = (
    OnlyGenerated-erase dir,
    source_files-erase tools dir,
    λ _. rw (lookup-erase gen_file_name gen_file_name dir) refl,
  )

  stale_read-Settles :
      (content : String) (dir : Directory) (o : Option Err)
      → remove_stale tools faults dir ≡ stale_read tools faults content dir o
      → SettlesRemoved dir (stale_read tools faults content dir o)
  stale_read-Settles content dir (some e) h = failed-Settles (remove_stale tools faults) e dir
  stale_read-Settles content dir none h = elim (Bool-cases (starts_with content gen_header)) [
    | inl stale ↦ rw stale (removed-SettlesRemoved dir faults.remove)
    | inr other ↦ rw other (λ name _. refl, refl, λ _. rw other at h)
  ]

  remove_stale-Settles :
      (dir : Directory) (o : Option Entry)
      → lookup gen_file_name dir ≡ o
      → SettlesRemoved dir (stale_entry tools faults dir o)
  unfolding remove_stale
  remove_stale-Settles dir none h = (λ name _. refl, refl, λ _. rw h refl)
  remove_stale-Settles dir (some subdirectory) h = failed-Settles (remove_stale tools faults) _ dir
  remove_stale-Settles dir (some (file content)) h =
      stale_read-Settles content dir faults.read_file (rw h refl)

  partly_written-kept :
      (dir : Directory) (o : Option String)
      → OnlyGenerated dir (partly_written tools faults o dir)
        × (source_files tools (partly_written tools faults o dir) ≡ source_files tools dir)
  partly_written-kept dir none = (λ name _. refl, refl)
  partly_written-kept dir (some content) =
      (OnlyGenerated-insert _ dir, source_files-insert tools _ dir)

  written-Settles :
      (src : String) (dir : Directory) (o : Option Err)
      → faults.write ≡ o
      → Settles tools (write_file tools faults src) dir (written_file tools faults src dir o)
  unfolding write_file
  written-Settles src dir (some e) h =
      let (only, same) = partly_written-kept dir faults.written in
      (only, same, λ n. absurd (none-ne-some e (sym n)))
  written-Settles src dir none h = (
    OnlyGenerated-insert _ dir,
    source_files-insert tools _ dir,
    λ _. rw (lookup-insert_self gen_file_name (file src) dir, h, insert_twice) refl,
  )

  write_file-Settles :
      (src : String) (dir : Directory) (o : Option Entry)
      → Settles tools (write_file tools faults src) dir (written_entry tools faults src dir o)
  write_file-Settles src dir (some subdirectory) =
      failed-Settles (write_file tools faults src) _ dir
  write_file-Settles src dir (some (file content)) = written-Settles src dir faults.write refl
  write_file-Settles src dir none = written-Settles src dir faults.write refl

  module _ (tc : Toolchain) (format : String → Result String) (fuel : ℕ) where
    abbrev process : Directory → Option (Option Err × Directory)
    process = process_dir tools faults tc format fuel

    -- A run that ended with these.
    abbrev IsDone : Directory → Option Err × Directory → Type 0
    IsDone dir out = OnlyGenerated dir out.1 × (out.0 ≡ none → process out.1 ≡ some (none, out.1))

    abbrev Done : Directory → Option (Option Err × Directory) → Type 0
    Done dir none = Unit
    Done dir (some out) = IsDone dir out

    failed-Done : (e : Err) (dir : Directory) → Done dir (some (some e, dir))
    failed-Done e dir = (λ name _. refl, λ n. absurd (none-ne-some e (sym n)))

    -- What Settles says, of a run that comes to a system call for every directory with these sources.
    Settles-Done :
        (call : Directory → Option Err × Directory) (dir : Directory)
        → Settles tools call dir (call dir)
        → ((d : Directory)
            → source_files tools d ≡ source_files tools dir
            → process d ≡ some (call d))
        → Done dir (some (call dir))
    Settles-Done call dir (only, same, settled) comes =
        (only, λ n. comes (call dir).1 same ∙ ap some (settled n))

    generated-Done :
        (dir : Directory) (g : Option (Result String))
        → ((d : Directory)
            → source_files tools d ≡ source_files tools dir
            → process d ≡ generated tools faults tc format fuel d g)
        → Done dir (generated tools faults tc format fuel dir g)
    generated-Done dir none comes = tt
    generated-Done dir (some (err e)) comes = failed-Done e dir
    generated-Done dir (some (ok src)) comes =
        Settles-Done (write_file tools faults src) dir
          (unfold write_file in (write_file-Settles src dir (lookup gen_file_name dir))) comes

    with_targets-Done :
        (dir : Directory) (name : String) (c : Collected) (ts : List Target)
        → ((d : Directory)
            → source_files tools d ≡ source_files tools dir
            → process d ≡ with_targets tools faults tc format fuel d name c ts)
        → Done dir (with_targets tools faults tc format fuel dir name c ts)
    with_targets-Done dir name c [] comes =
        Settles-Done (remove_stale tools faults) dir
          (unfold remove_stale in (remove_stale-Settles dir (lookup gen_file_name dir) refl)) comes
    with_targets-Done dir name c (t ∷ ts) comes = generated-Done dir _ comes

    collected-Done :
        (dir : Directory) (r : Sources)
        → ((d : Directory)
            → source_files tools d ≡ source_files tools dir
            → process d ≡ collected tools faults tc format fuel d r)
        → Done dir (collected tools faults tc format fuel dir r)
    collected-Done dir (err e) comes = failed-Done e dir
    collected-Done dir (ok (name, files)) comes =
        let c = collect_files tools.trim_space files nothing in
        with_targets-Done dir name c c.targets comes

    listed-Done :
        (dir : Directory) (o : Option Err)
        → faults.read_dir ≡ o
        → Done dir (listed tools faults tc format fuel dir o)
    unfolding process_dir
    listed-Done dir (some e) h = failed-Done e dir
    listed-Done dir none h = collected-Done dir (source_files tools dir "") (λ d same.
        ap (listed tools faults tc format fuel d) h
        ∙ ap (λ f. collected tools faults tc format fuel d (f "")) same)

    process_dir-Done :
        (dir dir' : Directory) (e : Option Err)
        → process_dir tools faults tc format fuel dir ≡ some (e, dir')
        → OnlyGenerated dir dir'
          × (e ≡ none → process_dir tools faults tc format fuel dir' ≡ some (none, dir'))
    process_dir-Done dir dir' e h =
        subst (Done dir) h (unfold process_dir in (listed-Done dir faults.read_dir refl))

    -- Whatever system calls fail: processDir changes no entry but the generated file, and either it answers
    -- an error, or a second run with the same fuel succeeds and changes nothing at all.
    pub process_dir_twice :
        (dir dir' : Directory) (e : Option Err)
        → process_dir tools faults tc format fuel dir ≡ some (e, dir')
        → OnlyGenerated dir dir'
          × (((x : Err) × (e ≡ some x))
              ⊎ (process_dir tools faults tc format fuel dir' ≡ some (none, dir')))
    process_dir_twice dir dir' e h =
        let (kept, again) = process_dir-Done dir dir' e h in
        (kept, elim (Option-cases e) [ inl fine ↦ inr (again fine) | inr failed ↦ inl failed ])
