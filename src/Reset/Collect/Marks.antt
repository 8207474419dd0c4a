-- ===== src/Reset/Collect/Marks.antt =====
-- cmd/reset/collect.go: the comments that mark a struct, and the receivers of a method, described apart from
-- the code.
use Prim.Native.String.{◌++◌, len}
use text.Mathlib.Text.{starts_with, get?}
use text.Mathlib.TextEquality.{starts_with_iff}
use text.Mathlib.TextPositions.{starts_with-append, len-append, get?-append_middle}
use text.Mathlib.TextLemmas.{append-nil}
use svcmetrics.Base.{
  ◌≡◌, refl, ◌∙◌, sym, ap, ◌⊎◌, inl, inr, String, Bool, true, false, ◌&&◌, not, none, some, List,
  [], ◌∷◌, str_eq, eq_iff, if◌then◌else◌, arith, Bool-cases, ◌↔◌, get_or,
}
use svcmetrics.Reset.{Expr, ident, index_expr, index_list_expr, star_expr}
use svcmetrics.Reset.Names.{recv_type_name, under_index, ident_name}
use svcmetrics.Reset.Collect.{
  Doc, DeclaredType, uncommented, marked_line, has_marker, shared_doc, doc_of,
}

uncommented-slashes : (rest : String) → uncommented ("//" ++ rest) ≡ rest
unfolding uncommented
uncommented-slashes rest =
    let line = "//" ++ rest in
    let found : get? line 2 (len line) ≡ some rest =
      ap (λ r. get? ("//" ++ r) 2 (len line)) (sym (append-nil rest))
      ∙ ap (λ n. get? ("//" ++ (rest ++ "")) 2 n) (len-append "//" rest)
      ∙ get?-append_middle "//" rest "" in
    ap (λ b. if b then get_or line (get? line 2 (len line)) else line)
      (starts_with-append "//" rest)
    ∙ ap (get_or line) found

uncommented-plain : (line : String) → starts_with line "//" ≡ false → uncommented line ≡ line
unfolding uncommented
uncommented-plain line h = rw h refl

dec_of : {A : Type 0} (b : Bool) → (b ≡ true) ↔ A → Dec A
dec_of b e = elim (Bool-cases b) [ inl h ↦ yes (e.0 h) | inr h ↦ no (λ a. let k = e.1 a in cc) ]

module _ (trim_space : String → String) where
  -- A comment is a mark if what is behind two slashes, or all of it where it does not begin with them, is
  -- the marker but for space around it.
  abbrev pub IsMark : String → Type 0
  IsMark line =
      ((rest : String) × (line ≡ "//" ++ rest) × (trim_space rest ≡ "generate:reset"))
      ⊎ ((starts_with line "//" ≡ false) × (trim_space line ≡ "generate:reset"))

  IsMark-iff :
      (line : String)
      → (str_eq (trim_space (uncommented line)) "generate:reset" ≡ true) ↔ IsMark line
  IsMark-iff line = (
    λ h.
        let trimmed = (eq_iff _ _).0 h in
        elim (Bool-cases (starts_with line "//")) [
          | inl e ↦
              let (rest, same) = (starts_with_iff line "//").0 e in
              inl (
                rest,
                sym same,
                ap trim_space (sym (ap uncommented (sym same) ∙ uncommented-slashes rest))
                    ∙ trimmed,
              )
          | inr e ↦ inr (e, ap trim_space (sym (uncommented-plain line e)) ∙ trimmed)
        ],
    λ m. elim m [
      | inl (rest, same, trimmed) ↦
          (eq_iff _ _).1 (ap trim_space (ap uncommented same ∙ uncommented-slashes rest) ∙ trimmed)
      | inr (e, trimmed) ↦ (eq_iff _ _).1 (ap trim_space (uncommented-plain line e) ∙ trimmed)
    ],
  )

  pub dec_mark : (line : String) → Dec (IsMark line)
  dec_mark line = dec_of (str_eq (trim_space (uncommented line)) "generate:reset") (IsMark-iff line)

  -- Whether a comment of a group is a mark.
  abbrev pub any_mark : List String → Bool
  any_mark [] = false
  any_mark (line ∷ lines) = elim (dec_mark line) [ yes _ ↦ true | no _ ↦ any_mark lines ]

  marked_first :
      (line : String) (later : Bool) (d : Dec (IsMark line))
      → (if str_eq (trim_space (uncommented line)) "generate:reset" then true else later)
        ≡ elim d [ yes _ ↦ true | no _ ↦ later ]
  marked_first line later (yes m) = ap (λ b. if b then true else later) ((IsMark-iff line).1 m)
  marked_first line later (no n) =
      elim (Bool-cases (str_eq (trim_space (uncommented line)) "generate:reset")) [
        | inl e ↦ absurd (n ((IsMark-iff line).0 e))
        | inr e ↦ ap (λ b. if b then true else later) e
      ]

  marked_line-any_mark : (lines : List String) → marked_line trim_space lines ≡ any_mark lines
  unfolding marked_line
  marked_line-any_mark [] = refl
  marked_line-any_mark (line ∷ lines) =
      marked_first line (marked_line trim_space lines) (dec_mark line)
      ∙ ap (λ (b : Bool). elim (dec_mark line) [ yes _ ↦ true | no _ ↦ b ])
          (marked_line-any_mark lines)

  -- Whether a struct with its own comment, or none, is marked in a declaration with the comment `outer` of the
  -- specs `all`: by its own comment, or else by that of the declaration if it has no other spec.
  abbrev pub is_marked : Doc → List DeclaredType → Doc → Bool
  is_marked outer all (some own) = any_mark own
  is_marked (some lines) (_ ∷ []) none = any_mark lines
  is_marked (some lines) [] none = false
  is_marked (some lines) (_ ∷ _ ∷ _) none = false
  is_marked none all none = false

  pub has_marker-is_marked :
      (outer : Doc) (all : List DeclaredType) (own : Doc)
      → has_marker trim_space (doc_of own (shared_doc outer all)) ≡ is_marked outer all own
  has_marker-is_marked outer all (some own) = marked_line-any_mark own
  has_marker-is_marked (some lines) (_ ∷ []) none = marked_line-any_mark lines
  has_marker-is_marked (some lines) [] none = refl
  has_marker-is_marked (some lines) (_ ∷ _ ∷ _) none = refl
  has_marker-is_marked none (_ ∷ []) none = refl
  has_marker-is_marked none [] none = refl
  has_marker-is_marked none (_ ∷ _ ∷ _) none = refl

-- A receiver type that is a name, or an instance of a generic type by one argument or more.
abbrev pub names_type : String → Expr → Bool
names_type name (ident n) = str_eq n name
names_type name (index_expr (ident n) _) = str_eq n name
names_type name (index_list_expr (ident n) _) = str_eq n name
names_type name _ = false

-- The same, or a pointer to it.
abbrev pub receives : String → Expr → Bool
receives name (star_expr x) = names_type name x
receives name x = names_type name x

same_name :
    (name n : String)
    → (not (str_eq n "") && str_eq n name) ≡ (not (str_eq name "") && str_eq n name)
same_name name n = ground (arith, eq_iff n name, eq_iff n "", eq_iff name "")

no_name : (b : Bool) → false ≡ (b && false)
no_name true = refl
no_name false = refl

names_type-ident_name :
    (name : String) (x : Expr)
    → (not (str_eq (ident_name (under_index x)) "") && str_eq (ident_name (under_index x)) name)
      ≡ (not (str_eq name "") && names_type name x)
names_type-ident_name name (ident n) = same_name name n
names_type-ident_name name (index_expr (ident n) _) = same_name name n
names_type-ident_name name (index_list_expr (ident n) _) = same_name name n
names_type-ident_name name x = no_name (not (str_eq name ""))

pub recv_type_name-receives :
    (name : String) (x : Expr)
    → (not (str_eq (recv_type_name x) "") && str_eq (recv_type_name x) name)
      ≡ (not (str_eq name "") && receives name x)
unfolding recv_type_name
recv_type_name-receives name (star_expr x) = names_type-ident_name name x
recv_type_name-receives name x = names_type-ident_name name x
