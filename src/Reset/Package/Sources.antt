-- ===== src/Reset/Package/Sources.antt =====
-- cmd/reset/main.go: the generated file is no source of the generator.
use svcmetrics.Base.{
  ◌≡◌, refl, sym, ◌∙◌, ap, String, true, false, [], ◌∷◌, str_eq, if◌then◌else◌, arith, Bool-cases,
  inl, inr,
}
use mathlib.Core.Path.{fun_ext}
use text.Mathlib.TextPositions.{eq_refl}
use svcmetrics.Base.Dict.{insert, erase}
use svcmetrics.Reset.Package.{
  Entry, file, subdirectory, Directory, gen_file_name, Tools, parsed_file, is_source, source_files,
}

module _ (tools : Tools) where
  is_source-gen_file_name : (n : String) → str_eq n gen_file_name ≡ true → is_source tools n ≡ false
  unfolding is_source
  is_source-gen_file_name n h = ground (arith, h)

  skips :
      (n : String) (e : Entry) (rest : Directory)
      → is_source tools n ≡ false
      → source_files tools ((n, e) ∷ rest) ≡ source_files tools rest
  unfolding source_files
  skips n subdirectory rest h = refl
  skips n (file content) rest h = fun_ext (λ name. rw h refl)

  step :
      (n : String) (e : Entry) (d d' : Directory)
      → source_files tools d ≡ source_files tools d'
      → source_files tools ((n, e) ∷ d) ≡ source_files tools ((n, e) ∷ d')
  unfolding source_files
  step n subdirectory d d' h = h
  step n (file content) d d' h =
      ap
        (λ next. λ name.
          if is_source tools n then parsed_file next name (tools.parse n content) else next name)
        h

  pub source_files-insert :
      (x : Entry) (dir : Directory)
      → source_files tools (insert gen_file_name x dir) ≡ source_files tools dir
  unfolding insert
  source_files-insert x [] =
      skips gen_file_name x [] (is_source-gen_file_name gen_file_name (eq_refl gen_file_name))
  source_files-insert x ((n, e) ∷ rest) = elim (Bool-cases (str_eq n gen_file_name)) [
    | inl same ↦
        let skipped = is_source-gen_file_name n same in
        rw same (skips n x rest skipped ∙ sym (skips n e rest skipped))
    | inr other ↦
        rw other (step n e (insert gen_file_name x rest) rest (source_files-insert x rest))
  ]

  pub source_files-erase :
      (dir : Directory) → source_files tools (erase gen_file_name dir) ≡ source_files tools dir
  unfolding erase
  source_files-erase [] = refl
  source_files-erase ((n, e) ∷ rest) = elim (Bool-cases (str_eq n gen_file_name)) [
    | inl same ↦
        rw same (source_files-erase rest ∙ sym (skips n e rest (is_source-gen_file_name n same)))
    | inr other ↦ rw other (step n e (erase gen_file_name rest) rest (source_files-erase rest))
  ]
