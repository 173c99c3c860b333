-- ===== src/Auth.antt =====
-- bitmex_mm/Auth.hpp: the signature of a request. HMAC-SHA256 is OpenSSL's, so it is a parameter.
pub mod Hex
mod Tests
use bitmex_market_maker.Base.{ℕ, ◌+◌, ◌/◌, ◌%◌, [], ◌∷◌, ◌++◌, ltb, if◌then◌else◌}
use bitmex_market_maker.Text.{Bytes}

-- `apiKeyCStr`, and the `apiSecLen` bytes, 48, from `apiSecCStr` on; the constant `msg_t_expiry` is below.
pub record Keys : Type 0 where
  pub api_key : Bytes
  pub api_secret : Bytes

abbrev pub msg_t_expiry : ℕ
msg_t_expiry = 10

-- One character of `std::hex`.
unfoldable pub hex_digit : ℕ → ℕ
hex_digit n = if ltb n 10 then n + 48 else n + 87

-- The loop that prints each byte with `setw(2)`, `setfill('0')` and `hex`.
unfoldable pub hex : Bytes → Bytes
unfolding hex_digit
hex [] = []
hex (b ∷ bs) = hex_digit (b / 16) ∷ hex_digit (b % 16) ∷ hex bs

-- `hmac key data` are the bytes that OpenSSL's HMAC writes to `out`.
module _ (hmac : Bytes → Bytes → Bytes) where
  unfoldable pub hmac_sha256_hex : Keys → Bytes → Bytes → Bytes → Bytes
  unfolding hex
  hmac_sha256_hex keys url valid_till o_msg =
      hex (hmac keys.api_secret (url ++ valid_till ++ o_msg))
