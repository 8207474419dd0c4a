-- ===== src/Reset/Loader.antt =====
-- cmd/reset/resolve.go: pkgLoader, the cache before packages.Load.
use svcmetrics.Base.{
  ◌≡◌, refl, sym, ◌∙◌, ap, String, false, Option, none, some, List, [], ◌∷◌, ◌++◌, str_eq, eq_iff,
  Bool-cases, inl, inr,
}
use mathlib.Core.Option.{none-ne-some}
use svcmetrics.Base.Dict.{Dict, lookup, insert, lookup-insert, lookup-insert_self}
use svcmetrics.Errors.{Err, Result, ok, err, text, ok_injective}

-- A package with its types and the errors met in it.
pub record LoadedPackage (P : Type 0) : Type 0 where
  pub types : P
  pub errors : List Err

-- packages.Load of a path and a directory, which acts on a world.
abbrev pub Load : Type 0 → Type 0 → Type 0
Load P W = String → String → W → Result (List (LoadedPackage P)) × W

-- The loader with the world that it acts on.
pub record Loader (P W : Type 0) : Type 0 where
  pub cache : Dict P
  pub world : W

module _ {P W : Type 0} (packages_load : Load P W) where
  -- The chain of fmt.Errorf, with what errors.Join joins as its links.
  abbrev joined_errors : List Err → Err
  joined_errors [] = []
  joined_errors (e ∷ es) = e ++ joined_errors es

  abbrev pub one_package : String → Dict P → W → LoadedPackage P → List Err → Result P × Loader P W
  one_package path cache w p [] =
      (ok p.types, record { cache = insert path p.types cache; world = w })
  one_package path cache w p (e ∷ es) =
      (err (text "load" ∷ joined_errors (e ∷ es)), record { cache = cache; world = w })

  abbrev pub loaded : String → Dict P → Result (List (LoadedPackage P)) × W → Result P × Loader P W
  loaded path cache (err e, w) = (err (text "load" ∷ e), record { cache = cache; world = w })
  loaded path cache (ok (p ∷ []), w) = one_package path cache w p p.errors
  loaded path cache (ok _, w) =
      (err (text "load: want 1 package" ∷ []), record { cache = cache; world = w })

  abbrev pub cached : String → String → Loader P W → Option P → Result P × Loader P W
  cached path dir l (some p) = (ok p, l)
  cached path dir l none = loaded path l.cache (packages_load path dir l.world)

  -- load
  unfoldable pub load : String → String → Loader P W → Result P × Loader P W
  load path dir l = cached path dir l (lookup path l.cache)

  -- Loads one after another, each of a path and a directory.
  abbrev pub load_each : List (String × String) → Loader P W → Loader P W
  load_each [] l = l
  load_each ((path, dir) ∷ rest) l = load_each rest (load path dir l).1

  one_package-caches :
      (path : String) (cache : Dict P) (w : W) (p : LoadedPackage P) (es : List Err) (t : P)
      → (one_package path cache w p es).0 ≡ ok t
      → lookup path (one_package path cache w p es).1.cache ≡ some t
  one_package-caches path cache w p [] t h =
      lookup-insert_self path p.types cache ∙ ap some (ok_injective h)
  one_package-caches path cache w p (e ∷ es) t h = absurd (cc)

  loaded-caches :
      (path : String) (cache : Dict P) (r : Result (List (LoadedPackage P)) × W) (t : P)
      → (loaded path cache r).0 ≡ ok t
      → lookup path (loaded path cache r).1.cache ≡ some t
  loaded-caches path cache (err e, w) t h = absurd (cc)
  loaded-caches path cache (ok [], w) t h = absurd (cc)
  loaded-caches path cache (ok (p ∷ []), w) t h = one_package-caches path cache w p p.errors t h
  loaded-caches path cache (ok (_ ∷ _ ∷ _), w) t h = absurd (cc)

  cached-caches :
      (path dir : String) (l : Loader P W) (o : Option P) (t : P)
      → lookup path l.cache ≡ o
      → (cached path dir l o).0 ≡ ok t
      → lookup path (cached path dir l o).1.cache ≡ some t
  cached-caches path dir l (some p) t hit h = hit ∙ ap some (ok_injective h)
  cached-caches path dir l none t hit h = loaded-caches path l.cache _ t h

  -- What another load leaves of an entry.
  one_package-keeps :
      (path asked : String) (cache : Dict P) (w : W) (p : LoadedPackage P) (es : List Err)
      → str_eq path asked ≡ false
      → lookup asked (one_package path cache w p es).1.cache ≡ lookup asked cache
  one_package-keeps path asked cache w p [] other =
      rw (lookup-insert path asked p.types cache, other) refl
  one_package-keeps path asked cache w p (e ∷ es) other = refl

  loaded-keeps :
      (path asked : String) (cache : Dict P) (r : Result (List (LoadedPackage P)) × W)
      → str_eq path asked ≡ false
      → lookup asked (loaded path cache r).1.cache ≡ lookup asked cache
  loaded-keeps path asked cache (err e, w) other = refl
  loaded-keeps path asked cache (ok [], w) other = refl
  loaded-keeps path asked cache (ok (p ∷ []), w) other =
      one_package-keeps path asked cache w p p.errors other
  loaded-keeps path asked cache (ok (_ ∷ _ ∷ _), w) other = refl

  cached-keeps :
      (path dir asked : String) (l : Loader P W) (o : Option P) (t : P)
      → lookup path l.cache ≡ o
      → lookup asked l.cache ≡ some t
      → lookup asked (cached path dir l o).1.cache ≡ some t
  cached-keeps path dir asked l (some p) t hit h = h
  cached-keeps path dir asked l none t miss h = elim (Bool-cases (str_eq path asked)) [
    | inl same ↦
        absurd
          (none-ne-some t (sym miss ∙ ap (λ n. lookup n l.cache) ((eq_iff path asked).0 same) ∙ h))
    | inr other ↦ loaded-keeps path asked l.cache _ other ∙ h
  ]

  load_each-keeps :
      (loads : List (String × String)) (asked : String) (l : Loader P W) (t : P)
      → lookup asked l.cache ≡ some t
      → lookup asked (load_each loads l).cache ≡ some t
  unfolding load
  load_each-keeps [] asked l t h = h
  load_each-keeps ((path, dir) ∷ rest) asked l t h =
      load_each-keeps rest asked _ t (cached-keeps path dir asked l _ t refl h)

  -- A path that was loaded is answered with the same types for good, from any directory and whatever was
  -- loaded or failed to load since, and packages.Load is not called for it again.
  pub load_again :
      (path dir dir' : String) (l : Loader P W) (loads : List (String × String)) (t : P)
      → (load path dir l).0 ≡ ok t
      → let l' = load_each loads (load path dir l).1 in load path dir' l' ≡ (ok t, l')
  unfolding load
  load_again path dir dir' l loads t h =
      rw
        (load_each-keeps loads path (cached path dir l (lookup path l.cache)).1 t
          (cached-caches path dir l _ t refl h))
        refl
