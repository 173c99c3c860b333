-- ===== src/Auth/Tests.antt =====
-- bitmex_mm/Auth.hpp: a signature.
use bitmex_market_maker.Base.{[], ◌∷◌, arith}
use bitmex_market_maker.Text.{Bytes, bytes}
use bitmex_market_maker.Auth.{Keys, hmac_sha256_hex}
use bitmex_market_maker.Auth.Hex.{Printed, AllBytes, hmac_sha256_hex-Printed}

-- Stands for HMAC.
abbrev two_bytes : Bytes → Bytes → Bytes
two_bytes key text = 10 ∷ 255 ∷ []

abbrev keys : Keys
keys = record { api_key = bytes "k"; api_secret = bytes "s" }

two_bytes-AllBytes : (key text : Bytes) → AllBytes (two_bytes key text)
two_bytes-AllBytes key text = (omega arith, (omega arith, tt))

hmac_sha256_hex-Printed_example :
    Printed
      (10 ∷ 255 ∷ [])
      (hmac_sha256_hex two_bytes keys (bytes "POST/") (bytes "9") (bytes "{}"))
hmac_sha256_hex-Printed_example =
    hmac_sha256_hex-Printed two_bytes keys (bytes "POST/") (bytes "9") (bytes "{}")
      two_bytes-AllBytes
