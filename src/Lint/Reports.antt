-- ===== src/Lint/Reports.antt =====
-- cmd/staticlint/noosexit.go: what is reported, against a description of the calls.
use svcmetrics.Base.{
  ℕ, ◌≡◌, refl, String, Bool, true, false, ◌||◌, not, Option, none, some, List, [], ◌∷◌, ◌++◌,
  str_eq, if◌then◌else◌, if_keeps, ◌⊎◌, inl, inr, ◌↔◌, arith, eq_iff,
}
use svcmetrics.Lint.{
  Node, ident, selector, paren, call, other, Nodes, end, child, Object, func_object, other_object,
  Uses, Decl, func_decl, other_decl, File, Pass, name_of, is_exit_object, is_os_exit, inspect,
  inspect_all, inspect_body, check_decls, check_files, run_no_os_exit,
}

-- A position in a list of reports.
abbrev pub Listed : ℕ → List ℕ → Type 0
Listed p [] = ⊥
Listed p (x ∷ xs) = (x ≡ p) ⊎ Listed p xs

-- The function is named, in parentheses or not, by an identifier or a selector for os.Exit.
abbrev pub NamesExit : Uses → Node → Type 0
NamesExit uses (ident id) = uses id ≡ some (func_object (some "os") "Exit")
NamesExit uses (selector x sel) = uses sel ≡ some (func_object (some "os") "Exit")
NamesExit uses (paren x) = NamesExit uses x
NamesExit uses (call _ _ _) = ⊥
NamesExit uses (other _) = ⊥

-- A call of os.Exit at the position stands in the node.
mutual
  pub ExitIn : Uses → ℕ → Node → Type 0
  ExitIn uses p (ident id) = ⊥
  ExitIn uses p (selector x sel) = ExitIn uses p x
  ExitIn uses p (paren x) = ExitIn uses p x
  ExitIn uses p (call pos fun args) =
      ((pos ≡ p) × NamesExit uses fun) ⊎ (ExitIn uses p fun ⊎ ExitInAny uses p args)
  ExitIn uses p (other children) = ExitInAny uses p children

  pub ExitInAny : Uses → ℕ → Nodes → Type 0
  ExitInAny uses p end = ⊥
  ExitInAny uses p (child x rest) = ExitIn uses p x ⊎ ExitInAny uses p rest

-- In the body of a function main that is no method.
abbrev pub ExitInDecl : Uses → ℕ → Decl → Type 0
ExitInDecl uses p (func_decl false name (some body)) = (name ≡ "main") × ExitIn uses p body
ExitInDecl uses p _ = ⊥

abbrev pub ExitInDecls : Uses → ℕ → List Decl → Type 0
ExitInDecls uses p [] = ⊥
ExitInDecls uses p (d ∷ ds) = ExitInDecl uses p d ⊎ ExitInDecls uses p ds

-- In a file that is not generated.
abbrev pub ExitInFiles : Uses → ℕ → List File → Type 0
ExitInFiles uses p [] = ⊥
ExitInFiles uses p (f ∷ fs) =
    ((f.is_generated ≡ false) × ExitInDecls uses p f.decls) ⊎ ExitInFiles uses p fs

Listed-append : (p : ℕ) (xs ys : List ℕ) → Listed p (xs ++ ys) ↔ (Listed p xs ⊎ Listed p ys)
Listed-append p [] ys = (λ h. inr h, λ h. elim h [ inl b ↦ elim b [ ] | inr l ↦ l ])
Listed-append p (x ∷ xs) ys = (
  λ h. elim h [
    | inl e ↦ inl (inl e)
    | inr l ↦ elim ((Listed-append p xs ys).0 l) [ inl a ↦ inl (inr a) | inr b ↦ inr b ]
  ],
  λ h. elim h [
    | inl a ↦ elim a [ inl e ↦ inl e | inr l ↦ inr ((Listed-append p xs ys).1 (inl l)) ]
    | inr b ↦ inr ((Listed-append p xs ys).1 (inr b))
  ],
)

-- Two lists of reports one after another.
both :
    {A B : Type 0} (p : ℕ) (xs ys : List ℕ)
    → (Listed p xs ↔ A)
    → (Listed p ys ↔ B)
    → Listed p (xs ++ ys) ↔ (A ⊎ B)
both p xs ys f g = (
  λ h. elim ((Listed-append p xs ys).0 h) [ inl a ↦ inl (f.0 a) | inr b ↦ inr (g.0 b) ],
  λ h. (Listed-append p xs ys).1 (elim h [ inl a ↦ inl (f.1 a) | inr b ↦ inr (g.1 b) ]),
)

is_exit_object_iff :
    (o : Option Object) → (is_exit_object o ≡ true) ↔ (o ≡ some (func_object (some "os") "Exit"))
is_exit_object_iff none = (λ h. ground arith, λ h. ground arith)
is_exit_object_iff (some (func_object (some path) name)) = (
  λ h. ground (arith, eq_iff path "os", eq_iff name "Exit"),
  λ h. ground (arith, eq_iff path "os", eq_iff name "Exit"),
)
is_exit_object_iff (some (func_object none name)) = (λ h. ground arith, λ h. ground arith)
is_exit_object_iff (some other_object) = (λ h. ground arith, λ h. ground arith)

-- What is listed under a test.
when-Listed :
    {A : Type 0} (p pos : ℕ) (b : Bool)
    → ((b ≡ true) ↔ A)
    → Listed p (if b then pos ∷ [] else []) ↔ ((pos ≡ p) × A)
when-Listed p pos true f =
    (λ h. elim h [ inl e ↦ (e, f.0 refl) | inr x ↦ elim x [ ] ], λ h. inl h.0)
when-Listed p pos false f = (λ h. elim h [ ], λ h. let clash = f.1 h.1 in absurd (cc))

-- What is reported under a test that is not met, and otherwise.
unless-Listed :
    {A : Type 0} (p : ℕ) (b : Bool) (xs : List ℕ)
    → (Listed p xs ↔ A)
    → Listed p (if b then [] else xs) ↔ ((b ≡ false) × A)
unless-Listed p true xs f = (λ h. elim h [ ], λ h. let clash = h.0 in absurd (cc))
unless-Listed p false xs f = (λ h. (refl, f.0 h), λ h. f.1 h.1)

only_main :
    {A : Type 0} (p : ℕ) (name : String) (xs : List ℕ)
    → (Listed p xs ↔ A)
    → Listed p (if not (str_eq name "main") then [] else xs) ↔ ((name ≡ "main") × A)
only_main p name xs f =
    let listed = unless-Listed p (not (str_eq name "main")) xs f in
    (
      λ h. (ground (arith, eq_iff name "main", (listed.0 h).0), (listed.0 h).1),
      λ h. listed.1 (ground (arith, eq_iff name "main", h.0), h.1),
    )

module _ (uses : Uses) where
  is_os_exit-NamesExit : (fun : Node) → (is_os_exit uses fun ≡ true) ↔ NamesExit uses fun
  unfolding is_os_exit name_of
  is_os_exit-NamesExit (ident id) = is_exit_object_iff (uses id)
  is_os_exit-NamesExit (selector x sel) = is_exit_object_iff (uses sel)
  is_os_exit-NamesExit (paren x) = is_os_exit-NamesExit x
  is_os_exit-NamesExit (call _ _ _) = (λ h. ground arith, λ h. elim h [ ])
  is_os_exit-NamesExit (other _) = (λ h. ground arith, λ h. elim h [ ])

  mutual
    unfolding inspect ExitIn

    inspect-ExitIn : (p : ℕ) (n : Node) → Listed p (inspect uses n) ↔ ExitIn uses p n
    inspect-ExitIn p (ident id) = (λ h. h, λ h. h)
    inspect-ExitIn p (selector x sel) = inspect-ExitIn p x
    inspect-ExitIn p (paren x) = inspect-ExitIn p x
    inspect-ExitIn p (call pos fun args) =
        both p (if is_os_exit uses fun then pos ∷ [] else []) _
          (when-Listed p pos (is_os_exit uses fun) (is_os_exit-NamesExit fun))
          (both p (inspect uses fun) (inspect_all uses args) (inspect-ExitIn p fun)
            (inspect_all-ExitInAny p args))
    inspect-ExitIn p (other children) = inspect_all-ExitInAny p children

    inspect_all-ExitInAny :
        (p : ℕ) (ns : Nodes) → Listed p (inspect_all uses ns) ↔ ExitInAny uses p ns
    inspect_all-ExitInAny p end = (λ h. h, λ h. h)
    inspect_all-ExitInAny p (child x rest) =
        both p (inspect uses x) (inspect_all uses rest) (inspect-ExitIn p x)
          (inspect_all-ExitInAny p rest)

  check_decl-ExitInDecl :
      (p : ℕ) (has_recv : Bool) (name : String) (body : Option Node)
      → Listed p (if has_recv || not (str_eq name "main") then [] else inspect_body uses body)
        ↔ ExitInDecl uses p (func_decl has_recv name body)
  check_decl-ExitInDecl p true name body = (λ h. elim h [ ], λ h. elim h [ ])
  check_decl-ExitInDecl p false name none = (
    λ h. if_keeps (λ l. Listed p l → ⊥) (not (str_eq name "main")) (λ x. x) (λ x. x) h,
    λ h. elim h [ ],
  )
  check_decl-ExitInDecl p false name (some body) =
      only_main p name (inspect uses body) (inspect-ExitIn p body)

  check_decls-ExitInDecls :
      (p : ℕ) (ds : List Decl) → Listed p (check_decls uses ds) ↔ ExitInDecls uses p ds
  unfolding check_decls
  check_decls-ExitInDecls p [] = (λ h. h, λ h. h)
  check_decls-ExitInDecls p (func_decl has_recv name body ∷ ds) =
      both p (if has_recv || not (str_eq name "main") then [] else inspect_body uses body) _
        (check_decl-ExitInDecl p has_recv name body) (check_decls-ExitInDecls p ds)
  check_decls-ExitInDecls p (other_decl ∷ ds) =
      let rest = check_decls-ExitInDecls p ds in
      (λ h. inr (rest.0 h), λ h. elim h [ inl b ↦ elim b [ ] | inr l ↦ rest.1 l ])

  check_files-ExitInFiles :
      (p : ℕ) (fs : List File) → Listed p (check_files uses fs) ↔ ExitInFiles uses p fs
  unfolding check_files
  check_files-ExitInFiles p [] = (λ h. h, λ h. h)
  check_files-ExitInFiles p (f ∷ fs) =
      both p (if f.is_generated then [] else check_decls uses f.decls) _
        (unless-Listed p f.is_generated _ (check_decls-ExitInDecls p f.decls))
        (check_files-ExitInFiles p fs)

-- The analyser reports a position exactly when the package is main and a file of it that is not
-- generated has a function main, which is no method, whose body has at that position, at any depth, a
-- call of a function that an identifier or a selector, in parentheses or not, names as os.Exit.
pub run_no_os_exit_iff :
    (pass : Pass) (p : ℕ)
    → Listed p (run_no_os_exit pass)
      ↔ ((pass.package_name ≡ "main") × ExitInFiles pass.uses p pass.files)
unfolding run_no_os_exit
run_no_os_exit_iff pass p =
    only_main p pass.package_name _ (check_files-ExitInFiles pass.uses p pass.files)
