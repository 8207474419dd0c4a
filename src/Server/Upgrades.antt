-- ===== src/Server/Upgrades.antt =====
-- The optional interfaces of the response writers: cmd/server/main.go and internal/handler/gzip.go
-- forward them to the writer below, and that of internal/handler/hash.go has none.
use svcmetrics.Base.{
  ◌≡◌, ◌≢◌, ◌⊎◌, String, Bool, true, false, Option, none, some, ◌∷◌, [], str_eq, if◌then◌else◌,
}
use svcmetrics.Errors.{Err, Result, err, text}

-- Flush, Hijack and Push of a writer, as far as it implements them, on the world of a connection.
pub record Upgrades (C W : Type 0) : Type 0 where
  pub flush : Option (W → W)
  pub hijack : Option (W → Result C × W)
  pub push : Option (String → W → Option Err × W)

-- What the wrappers do with the writer below.
module _ {W : Type 0} where
  abbrev pub flush_of : Option (W → W) → W → W
  flush_of none w = w
  flush_of (some f) w = f w

  abbrev pub push_of : Option (String → W → Option Err × W) → String → W → Option Err × W
  push_of none target w = (some (text "feature not supported" ∷ []), w)
  push_of (some f) target w = f target w

  -- What a call of Flush or Push does, where the writer below has it and where it has not.
  abbrev pub Pushes : Option (String → W → Option Err × W) → String → W → Option Err × W → Type 0
  Pushes (some f) target w out = out ≡ f target w
  Pushes none target w out = (e : Err) × (out ≡ (some e, w))

  abbrev pub Flushes : Option (W → W) → W → W → Type 0
  Flushes (some f) w out = out ≡ f w
  Flushes none w out = out ≡ w

module _ {C W : Type 0} where
  abbrev pub hijack_of : Option (W → Result C × W) → W → Result C × W
  hijack_of none w = (err (text "underlying ResponseWriter does not support hijacking" ∷ []), w)
  hijack_of (some f) w = f w

  -- responseWriter of the logging middleware
  unfoldable pub logging_upgrades : Upgrades C W → Upgrades C W
  logging_upgrades below = record {
    flush = some (flush_of below.flush);
    hijack = some (hijack_of below.hijack);
    push = some (push_of below.push);
  }

  -- gzipResponseWriter, where `drain` writes what its compressor holds back.
  unfoldable pub gzip_upgrades : (W → W) → Upgrades C W → Upgrades C W
  gzip_upgrades drain below = record {
    flush = some (λ w. flush_of below.flush (drain w));
    hijack = some (hijack_of below.hijack);
    push = some (push_of below.push);
  }

  -- hashResponseWriter
  unfoldable pub hash_upgrades : Upgrades C W
  hash_upgrades = record { flush = none; hijack = none; push = none }

  abbrev pub signed_upgrades : String → Upgrades C W → Upgrades C W
  signed_upgrades key below = if str_eq key "" then below else hash_upgrades

  -- The writer that newRouter gives an endpoint; `zipped` is whether the client accepts gzip.
  unfoldable pub router_upgrades : String → Bool → (W → W) → Upgrades C W → Upgrades C W
  unfolding logging_upgrades gzip_upgrades
  router_upgrades key zipped drain connection =
      let signed = signed_upgrades key (logging_upgrades connection) in
      if zipped then gzip_upgrades drain signed else signed

  abbrev pub no_upgrades : Upgrades C W
  no_upgrades = record { flush = none; hijack = none; push = none }

  -- What a call of Hijack does.
  abbrev pub Hijacks : Option (W → Result C × W) → W → Result C × W → Type 0
  Hijacks (some f) w out = out ≡ f w
  Hijacks none w out = (e : Err) × (out ≡ (err e, w))

  -- The writer `u` forwards to `below`; `held` is the world behind what a flush lets out first.
  abbrev pub Forwards : Upgrades C W → (W → W) → W → String → Upgrades C W → Type 0
  Forwards below held w target u =
      ((g : W → W) × (u.flush ≡ some g) × Flushes below.flush (held w) (g w))
      × ((g : W → Result C × W) × (u.hijack ≡ some g) × Hijacks below.hijack w (g w))
      × ((g : String → W → Option Err × W) × (u.push ≡ some g)
          × Pushes below.push target w (g target w))

  -- What an endpoint has of the connection, by whether the response is compressed.
  abbrev pub IsSealed : String → Bool → (W → W) → Upgrades C W → W → String → Upgrades C W → Type 0
  IsSealed key true drain connection w target u =
      ((key ≡ "") × Forwards connection drain w target u)
      ⊎ ((key ≢ "") × Forwards no_upgrades drain w target u)
  IsSealed key false drain connection w target u =
      ((key ≡ "") × Forwards connection (λ v. v) w target u) ⊎ ((key ≢ "") × (u ≡ no_upgrades))
