-- ===== src/Handler/Gzip/Pooled.antt =====
-- internal/handler/gzip.go: the pooled decompressor of a request body, and its Close.
use svcmetrics.Base.{
  ℕ, ◌+◌, ◌≡◌, refl, ◌∙◌, ap, Bool, true, false, Option, none, some, List, [], ◌∷◌, ◌++◌,
  if◌then◌else◌, inl, inr, ◌⊎◌, All,
}
use svcmetrics.Errors.{Err, Result, ok, err}
use svcmetrics.Pool.{get, put}

-- gzipReader, with the body that its buffer points at.
pub record GzipReader (B : Type 0) : Type 0 where
  pub source : Option B

-- gzipRequestBody: `once` is whether its Close has run, `close_err` what that answered.
pub record GzipRequestBody (B : Type 0) : Type 0 where
  pub reader : GzipReader B
  pub once : Bool
  pub close_err : Option Err

-- The pool, and how often an original body was closed.
pub record Readers (B : Type 0) : Type 0 where
  pub pool : List (GzipReader B)
  pub closes : ℕ

-- errors.Join of two errors, of which one may be nil.
abbrev pub join : Option Err → Option Err → Option Err
join none b = b
join (some a) none = some a
join (some a) (some b) = some (a ++ b)

-- The first close of a request, that of the handler if it closes the body.
abbrev pub first_close :
    List (Option Err × Option Err) → Option Err × Option Err → Option Err × Option Err
first_close [] last = last
first_close (c ∷ _) last = c

module _ {B : Type 0} where
  -- Reset
  unfoldable pub detached : GzipReader B → GzipReader B
  detached zr = record { source = none }

  -- The constructor of gzipReaderPool.
  abbrev pub new_reader : GzipReader B
  new_reader = record { source = none }

  abbrev pub reader_checked :
      Option Err → GzipReader B → Readers B → Result (GzipReader B) × Readers B
  reader_checked none zr w = (ok zr, w)
  reader_checked (some e) zr w = (err e, record w { pool = put detached new_reader zr w.pool })

  -- getGzipReader, where `pick` is the reader that the pool picks and `header` the error of the gzip header.
  unfoldable pub get_gzip_reader :
      Option Err → ℕ → B → Readers B → Result (GzipReader B) × Readers B
  get_gzip_reader header pick body w =
      let (zr, pool) = get detached new_reader pick w.pool in
      reader_checked header (record zr { source = some body }) (record w { pool = pool })

  -- Close, where the two closes answer these.
  unfoldable pub close_body :
      Option Err
      → Option Err
      → GzipRequestBody B × Readers B
      → Option Err × GzipRequestBody B × Readers B
  close_body reader_err orig_err (b, w) = if b.once then (b.close_err, b, w) else (
    join reader_err orig_err,
    record b { once = true; close_err = join reader_err orig_err },
    record w { pool = put detached new_reader b.reader w.pool; closes = w.closes + 1 },
  )

  -- Several of them, each with what the two closes would answer, and their answers.
  unfoldable pub close_bodies :
      List (Option Err × Option Err)
      → GzipRequestBody B × Readers B
      → List (Option Err) × GzipRequestBody B × Readers B
  close_bodies [] (b, w) = ([], b, w)
  close_bodies ((x, y) ∷ rest) s =
      let (e, b, w) = close_body x y s in
      let (es, b', w') = close_bodies rest (b, w) in (e ∷ es, b', w')

  abbrev pub with_reader :
      List (Option Err × Option Err)
      → Option Err × Option Err
      → Result (GzipReader B) × Readers B
      → List (Option Err) × Readers B
  with_reader handler last (err e, w) = ([], w)
  with_reader handler last (ok zr, w) =
      let body : GzipRequestBody B = record { reader = zr; once = false; close_err = none } in
      let (es, _, w') = close_bodies (handler ++ last ∷ []) (body, w) in (es, w')

  -- GzipRequestMiddleware around a handler that closes the body as often as it likes, with the deferred
  -- Close.
  unfoldable pub serve_gzip :
      Option Err
      → List (Option Err × Option Err)
      → Option Err × Option Err
      → ℕ
      → B
      → Readers B
      → List (Option Err) × Readers B
  serve_gzip header handler last pick body w =
      with_reader handler last (get_gzip_reader header pick body w)

  -- A body whose Close has run.
  abbrev closed : GzipReader B → Option Err → GzipRequestBody B
  closed zr e = record { reader = zr; once = true; close_err = e }

  close_bodies-closed :
      (l : List (Option Err × Option Err)) (zr : GzipReader B) (e : Option Err) (w : Readers B)
      → let (es, _, w') = close_bodies l (closed zr e, w) in All (λ x. x ≡ e) es × (w' ≡ w)
  unfolding close_bodies close_body
  close_bodies-closed [] zr e w = (tt, refl)
  close_bodies-closed (_ ∷ rest) zr e w =
      let (answers, same) = close_bodies-closed rest zr e w in ((refl, answers), same)

  -- What a request leaves: with `e` for the answer of every Close, if the header was read.
  abbrev pub IsGivenBack :
      Option Err
      → Option Err
      → List (GzipReader B)
      → Readers B
      → List (Option Err) × Readers B
      → Type 0
  IsGivenBack header e rest w out =
      (out.1.pool ≡ new_reader ∷ rest)
      × (((x : Err) × (header ≡ some x) × (out.1.closes ≡ w.closes))
          ⊎ ((header ≡ none) × All (λ a. a ≡ e) out.0 × (out.1.closes ≡ w.closes + 1)))

  closes-IsGivenBack :
      (handler : List (Option Err × Option Err)) (last : Option Err × Option Err)
      (zr : GzipReader B) (rest : List (GzipReader B)) (w w' : Readers B)
      → w'.pool ≡ rest
      → w'.closes ≡ w.closes
      → let (x, y) = first_close handler last in
        IsGivenBack none (join x y) rest w (with_reader handler last (ok zr, w'))
  unfolding close_bodies close_body put detached
  closes-IsGivenBack [] (x, y) zr rest w w' p c =
      (ap (λ l. new_reader ∷ l) p, inr (refl, (refl, tt), ap (λ n. n + 1) c))
  closes-IsGivenBack ((x, y) ∷ handler) last zr rest w w' p c =
      let w₁ : Readers B = record { pool = detached zr ∷ w'.pool; closes = w'.closes + 1 } in
      let (answers, same) = close_bodies-closed (handler ++ last ∷ []) zr (join x y) w₁ in
      (
        ap (λ r. r.pool) same ∙ ap (λ l. new_reader ∷ l) p,
        inr (refl, (refl, answers), ap (λ r. r.closes) same ∙ ap (λ n. n + 1) c),
      )

  reader-IsGivenBack :
      (header : Option Err) (handler : List (Option Err × Option Err))
      (last : Option Err × Option Err) (zr : GzipReader B) (rest : List (GzipReader B))
      (w w' : Readers B)
      → w'.pool ≡ rest
      → w'.closes ≡ w.closes
      → let (x, y) = first_close handler last in
        IsGivenBack header
          (join x y)
          rest
          w
          (with_reader handler last (reader_checked header zr w'))
  unfolding put detached
  reader-IsGivenBack none handler last zr rest w w' p c =
      closes-IsGivenBack handler last zr rest w w' p c
  reader-IsGivenBack (some e) handler last zr rest w w' p c =
      (ap (λ l. new_reader ∷ l) p, inl (e, refl, c))

  -- Whether the header can be read or not, and however often the handler closes the body: behind the request
  -- the pool has the decompressor that it handed out back exactly once, pointed away from the body, beside
  -- those that it kept; and where the header was read, the body was closed exactly once, and every Close,
  -- the deferred one included, answered what the first one met.
  pub serve_gzip-IsGivenBack :
      (header : Option Err) (handler : List (Option Err × Option Err))
      (last : Option Err × Option Err) (pick : ℕ) (body : B) (w : Readers B)
      → let (x, y) = first_close handler last in
        let rest = (get detached new_reader pick w.pool).1 in
        IsGivenBack header (join x y) rest w (serve_gzip header handler last pick body w)
  unfolding serve_gzip get_gzip_reader
  serve_gzip-IsGivenBack header handler last pick body w =
      let (zr, rest) = get detached new_reader pick w.pool in
      reader-IsGivenBack header handler last (record zr { source = some body }) rest w
        (record w { pool = rest }) refl refl
