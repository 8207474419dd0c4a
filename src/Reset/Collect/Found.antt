-- ===== src/Reset/Collect/Found.antt =====
-- cmd/reset/collect.go: the types that the collection knows to have a Reset method.
use svcmetrics.Base.{
  ◌≡◌, refl, ◌∙◌, sym, ap, String, Bool, true, false, ◌||◌, ◌&&◌, not, Option, none, some, List, [],
  ◌∷◌, str_eq, if◌then◌else◌, arith, Bool-cases, inl, inr,
}
use svcmetrics.Base.Dict.{insert, lookup, lookup-insert}
use svcmetrics.Reset.{Expr}
use svcmetrics.Reset.Names.{recv_type_name}
use svcmetrics.Reset.Method.{StructSpec}
use svcmetrics.Reset.Collect.{
  Doc, DeclaredType, Decl, func_decl, type_decl, other_decl, SourceFile, Collected, nothing,
  has_marker, shared_doc, doc_of, collect_struct, collect_types, collect_method, collect_decl,
  collect_decls, collect_files,
}
use svcmetrics.Reset.Collect.Marks.{
  is_marked, has_marker-is_marked, receives, recv_type_name-receives,
}
use svcmetrics.Reset.Collect.Targets.{marked_files, collect_files-targets}

module _ (trim_space : String → String) where
  -- Whether a spec of a declaration is a marked struct of the name.
  abbrev pub resets_struct :
      String → Doc → List DeclaredType → DeclaredType → Option StructSpec → Bool
  resets_struct name outer all t none = false
  resets_struct name outer all t (some st) =
      is_marked trim_space outer all t.doc && str_eq t.spec.name name

  abbrev pub resets_types : String → Doc → List DeclaredType → List DeclaredType → Bool
  resets_types name outer all [] = false
  resets_types name outer all (t ∷ ts) =
      resets_struct name outer all t t.struct || resets_types name outer all ts

  -- Whether a method is a Reset of the type of the name, with one receiver.
  abbrev pub resets_method : String → Option (List Expr) → String → Bool
  resets_method name (some (x ∷ [])) method =
      str_eq method "Reset" && (not (str_eq name "") && receives name x)
  resets_method name _ method = false

  abbrev pub resets_decls : String → List Decl → Bool
  resets_decls name [] = false
  resets_decls name (func_decl recv method ∷ ds) =
      resets_method name recv method || resets_decls name ds
  resets_decls name (type_decl doc specs ∷ ds) =
      resets_types name doc specs specs || resets_decls name ds
  resets_decls name (other_decl ∷ ds) = resets_decls name ds

  abbrev pub resets_files : String → List SourceFile → Bool
  resets_files name [] = false
  resets_files name (f ∷ fs) = resets_decls name f.decls || resets_files name fs

  -- What is known of a type behind something that resets it or not.
  abbrev or_known : Bool → Option Bool → Option Bool
  or_known b known = if b then some true else known

  or_known-or : (a b : Bool) (o : Option Bool) → or_known b (or_known a o) ≡ or_known (a || b) o
  or_known-or a b o = ground arith

  module _ (name : String) where
    collect_struct-has_reset :
        (f : SourceFile) (outer : Doc) (all : List DeclaredType) (t : DeclaredType)
        (o : Option StructSpec) (c : Collected)
        → lookup name (collect_struct trim_space f (shared_doc outer all) t o c).has_reset
          ≡ or_known (resets_struct name outer all t o) (lookup name c.has_reset)
    collect_struct-has_reset f outer all t none c = refl
    collect_struct-has_reset f outer all t (some st) c =
        let same = has_marker-is_marked trim_space outer all t.doc in
        elim (Bool-cases (has_marker trim_space (doc_of t.doc (shared_doc outer all)))) [
          | inl e ↦ rw (e, sym same ∙ e) (lookup-insert t.spec.name name true c.has_reset)
          | inr e ↦ rw (e, sym same ∙ e) refl
        ]

    collect_types-has_reset :
        (f : SourceFile) (outer : Doc) (all ts : List DeclaredType) (c : Collected)
        → lookup name (collect_types trim_space f (shared_doc outer all) ts c).has_reset
          ≡ or_known (resets_types name outer all ts) (lookup name c.has_reset)
    unfolding collect_types
    collect_types-has_reset f outer all [] c = refl
    collect_types-has_reset f outer all (t ∷ ts) c =
        let c' : Collected = record c { types = insert t.spec.name t.spec c.types } in
        collect_types-has_reset f outer all ts _
        ∙ ap (or_known (resets_types name outer all ts))
            (collect_struct-has_reset f outer all t t.struct c')
        ∙ or_known-or _ (resets_types name outer all ts) (lookup name c.has_reset)

    collect_method-has_reset :
        (recv : Option (List Expr)) (method : String) (c : Collected)
        → lookup name (collect_method recv method c).has_reset
          ≡ or_known (resets_method name recv method) (lookup name c.has_reset)
    collect_method-has_reset none method c = refl
    collect_method-has_reset (some []) method c = refl
    collect_method-has_reset (some (x ∷ [])) method c = ground (
      arith,
      lookup-insert (recv_type_name x) name true c.has_reset,
      recv_type_name-receives name x,
    )
    collect_method-has_reset (some (_ ∷ _ ∷ _)) method c = refl

    collect_decls-has_reset :
        (f : SourceFile) (ds : List Decl) (c : Collected)
        → lookup name (collect_decls trim_space f ds c).has_reset
          ≡ or_known (resets_decls name ds) (lookup name c.has_reset)
    unfolding collect_decls collect_decl
    collect_decls-has_reset f [] c = refl
    collect_decls-has_reset f (func_decl recv method ∷ ds) c =
        collect_decls-has_reset f ds _
        ∙ ap (or_known (resets_decls name ds)) (collect_method-has_reset recv method c)
        ∙ or_known-or _ (resets_decls name ds) (lookup name c.has_reset)
    collect_decls-has_reset f (type_decl doc specs ∷ ds) c =
        collect_decls-has_reset f ds _
        ∙ ap (or_known (resets_decls name ds)) (collect_types-has_reset f doc specs specs c)
        ∙ or_known-or _ (resets_decls name ds) (lookup name c.has_reset)
    collect_decls-has_reset f (other_decl ∷ ds) c = collect_decls-has_reset f ds c

    collect_files-has_reset :
        (fs : List SourceFile) (c : Collected)
        → lookup name (collect_files trim_space fs c).has_reset
          ≡ or_known (resets_files name fs) (lookup name c.has_reset)
    unfolding collect_files
    collect_files-has_reset [] c = refl
    collect_files-has_reset (f ∷ fs) c =
        collect_files-has_reset fs _
        ∙ ap (or_known (resets_files name fs)) (collect_decls-has_reset f f.decls c)
        ∙ or_known-or _ (resets_files name fs) (lookup name c.has_reset)

  -- The targets are, in the order of the files, the structs with a mark among the lines of their own comment
  -- or, where they have none and are the only spec of a declaration, of that of the declaration; a mark is
  -- a line that reads generate:reset but for two slashes before it and space around. A type is known
  -- to have a Reset method exactly when a file of the package declares one with one receiver, which is the
  -- type, an instance of it or a pointer to one of these, or marks a struct of its name.
  pub collect_files_exactly :
      (fs : List SourceFile)
      → let c = collect_files trim_space fs nothing in
        (c.targets ≡ marked_files trim_space fs)
        × ((name : String)
            → lookup name c.has_reset ≡ (if resets_files name fs then some true else none))
  unfolding lookup
  collect_files_exactly fs =
      (collect_files-targets trim_space fs nothing, λ name. collect_files-has_reset name fs nothing)
