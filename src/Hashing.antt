-- ===== src/Hashing.antt =====
-- internal/hashing/hashing.go. The digest and the hexadecimal coding are those of the standard
-- library.
use svcmetrics.Base.{
  String, Bool, true, false, Option, none, some, ◌≡◌, ◌↔◌, arith, str_eq, eq_iff, get_or,
}

-- crypto/hmac over crypto/sha256 by key and body, and encoding/hex, of bytes held in a String.
pub record Crypto : Type 0 where
  pub hmac_sha256 : String → String → String
  pub hex_encode : String → String
  pub hex_decode : String → Option String

abbrev pub hash_header : String
hash_header = "HashSHA256"

abbrev pub no_signature : String
no_signature = "none"

-- hex.DecodeString reads what hex.EncodeToString writes.
abbrev pub HexReads : Crypto → Type 0
HexReads c = (b : String) → c.hex_decode (c.hex_encode b) ≡ some b

module _ (c : Crypto) where
  unfoldable pub sum : String → String → String
  sum body key = c.hex_encode (c.hmac_sha256 key body)

  unfoldable pub equal : String → String → String → Bool
  equal sig body key = elim (c.hex_decode sig) [
    | none ↦ false
    | some got ↦ str_eq got (c.hmac_sha256 key body)
  ]

  -- A signature is accepted for a body exactly when it decodes to the digest of that body.
  pub equal_iff :
      (sig body key : String)
      → (equal sig body key ≡ true) ↔ (c.hex_decode sig ≡ some (c.hmac_sha256 key body))
  unfolding equal
  equal_iff sig body key =
      let got = get_or "" (c.hex_decode sig) in
      let same = eq_iff got (c.hmac_sha256 key body) in
      (λ h. ground (arith, same), λ h. ground (arith, same))

  -- Where the decoder reads what the encoder writes, the signature that `sum` makes for a body under a
  -- key is accepted for that body under that key.
  pub equal-sum : (body key : String) → HexReads c → equal (sum body key) body key ≡ true
  unfolding equal sum
  equal-sum body key reads =
      let digest = c.hmac_sha256 key body in ground (arith, reads digest, eq_iff digest digest)
