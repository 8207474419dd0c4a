-- ===== src/Reset/Collect/Targets.antt =====
-- cmd/reset/collect.go: the targets of the collection, against a description of the declarations.
use svcmetrics.Base.{
  ◌≡◌, refl, ◌∙◌, sym, ap, String, Option, none, some, List, [], ◌∷◌, ◌++◌, if◌then◌else◌, arith,
  Bool-cases, inl, inr,
}
use mathlib.Core.List.{append-nil, append_assoc}
use svcmetrics.Base.Dict.{insert}
use svcmetrics.Reset.{Expr}
use svcmetrics.Reset.Method.{StructSpec}
use svcmetrics.Reset.Generate.{Target}
use svcmetrics.Reset.Collect.Marks.{is_marked, has_marker-is_marked}
use svcmetrics.Reset.Collect.{
  Doc, DeclaredType, Decl, func_decl, type_decl, other_decl, SourceFile, Collected, has_marker,
  shared_doc, doc_of, collect_struct, collect_types, collect_method, collect_decl, collect_decls,
  collect_files,
}

module _ (trim_space : String → String) where
  -- The target of a spec of a declaration, if it is a marked struct.
  abbrev pub marked_struct :
      SourceFile → Doc → List DeclaredType → Doc → Option StructSpec → List Target
  marked_struct f outer all own none = []
  marked_struct f outer all own (some st) =
      if is_marked trim_space outer all own
      then record { spec = st; file_imports = f.imports } ∷ []
      else []

  abbrev pub marked_types : SourceFile → Doc → List DeclaredType → List DeclaredType → List Target
  marked_types f outer all [] = []
  marked_types f outer all (t ∷ ts) =
      marked_struct f outer all t.doc t.struct ++ marked_types f outer all ts

  abbrev pub marked_decl : SourceFile → Decl → List Target
  marked_decl f (type_decl doc specs) = marked_types f doc specs specs
  marked_decl f _ = []

  abbrev pub marked_decls : SourceFile → List Decl → List Target
  marked_decls f [] = []
  marked_decls f (d ∷ ds) = marked_decl f d ++ marked_decls f ds

  abbrev pub marked_files : List SourceFile → List Target
  marked_files [] = []
  marked_files (f ∷ fs) = marked_decls f f.decls ++ marked_files fs

  collect_struct-targets :
      (f : SourceFile) (outer : Doc) (all : List DeclaredType) (t : DeclaredType)
      (o : Option StructSpec) (c : Collected)
      → (collect_struct trim_space f (shared_doc outer all) t o c).targets
        ≡ c.targets ++ marked_struct f outer all t.doc o
  collect_struct-targets f outer all t none c = rw append-nil refl
  collect_struct-targets f outer all t (some st) c =
      let same = has_marker-is_marked trim_space outer all t.doc in
      elim (Bool-cases (has_marker trim_space (doc_of t.doc (shared_doc outer all)))) [
        | inl e ↦ rw (e, sym same ∙ e) refl
        | inr e ↦ rw (e, sym same ∙ e, append-nil) refl
      ]

  collect_types-targets :
      (f : SourceFile) (outer : Doc) (all ts : List DeclaredType) (c : Collected)
      → (collect_types trim_space f (shared_doc outer all) ts c).targets
        ≡ c.targets ++ marked_types f outer all ts
  unfolding collect_types
  collect_types-targets f outer all [] c = rw append-nil refl
  collect_types-targets f outer all (t ∷ ts) c =
      let c' : Collected = record c { types = insert t.spec.name t.spec c.types } in
      let first = marked_struct f outer all t.doc t.struct in
      collect_types-targets f outer all ts _
      ∙ ap (λ l. l ++ marked_types f outer all ts)
          (collect_struct-targets f outer all t t.struct c')
      ∙ append_assoc c.targets first (marked_types f outer all ts)

  collect_method-targets :
      (recv : Option (List Expr)) (name : String) (c : Collected)
      → (collect_method recv name c).targets ≡ c.targets
  collect_method-targets none name c = refl
  collect_method-targets (some []) name c = refl
  collect_method-targets (some (x ∷ [])) name c = ground arith
  collect_method-targets (some (_ ∷ _ ∷ _)) name c = refl

  collect_decl-targets :
      (f : SourceFile) (d : Decl) (c : Collected)
      → (collect_decl trim_space f d c).targets ≡ c.targets ++ marked_decl f d
  unfolding collect_decl
  collect_decl-targets f (func_decl recv name) c =
      collect_method-targets recv name c ∙ sym (append-nil c.targets)
  collect_decl-targets f (type_decl doc specs) c = collect_types-targets f doc specs specs c
  collect_decl-targets f other_decl c = sym (append-nil c.targets)

  collect_decls-targets :
      (f : SourceFile) (ds : List Decl) (c : Collected)
      → (collect_decls trim_space f ds c).targets ≡ c.targets ++ marked_decls f ds
  unfolding collect_decls
  collect_decls-targets f [] c = sym (append-nil c.targets)
  collect_decls-targets f (d ∷ ds) c =
      collect_decls-targets f ds _
      ∙ ap (λ l. l ++ marked_decls f ds) (collect_decl-targets f d c)
      ∙ append_assoc c.targets (marked_decl f d) (marked_decls f ds)

  pub collect_files-targets :
      (fs : List SourceFile) (c : Collected)
      → (collect_files trim_space fs c).targets ≡ c.targets ++ marked_files fs
  unfolding collect_files
  collect_files-targets [] c = sym (append-nil c.targets)
  collect_files-targets (f ∷ fs) c =
      collect_files-targets fs _
      ∙ ap (λ l. l ++ marked_files fs) (collect_decls-targets f f.decls c)
      ∙ append_assoc c.targets (marked_decls f f.decls) (marked_files fs)
