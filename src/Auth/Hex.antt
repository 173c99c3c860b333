-- ===== src/Auth/Hex.antt =====
-- bitmex_mm/Auth.hpp: the hexadecimal digits can be read back.
use bitmex_market_maker.Base.{
  ℕ, ◌+◌, ◌-◌, ◌*◌, ◌/◌, ◌%◌, ◌<◌, ◌≡◌, refl, [], ◌∷◌, ◌++◌, arith, leb, ltb, if◌then◌else◌, true,
  ◌&&◌, ◌||◌, All, length,
}
use bitmex_market_maker.Text.{Bytes}
use bitmex_market_maker.Auth.{Keys, hex_digit, hex, hmac_sha256_hex}

abbrev pub hex_value : ℕ → ℕ
hex_value c = if ltb c 58 then c - 48 else c - 87

-- The bytes of pairs of digits.
abbrev pub unhex : Bytes → Bytes
unhex [] = []
unhex (a ∷ []) = []
unhex (a ∷ b ∷ cs) = (hex_value a * 16 + hex_value b) ∷ unhex cs

-- `0` to `9` or `a` to `f`.
abbrev pub IsHexDigit : ℕ → Type 0
IsHexDigit c = ((leb 48 c && leb c 57) || (leb 97 c && leb c 102)) ≡ true

abbrev pub AllBytes : Bytes → Type 0
AllBytes bs = All (λ b. b < 256) bs

hex_digit-IsHexDigit : (n : ℕ) → n < 16 → IsHexDigit (hex_digit n)
unfolding hex_digit
hex_digit-IsHexDigit n h = ground arith

hex_value-hex_digit : (n : ℕ) → n < 16 → hex_value (hex_digit n) ≡ n
unfolding hex_digit
hex_value-hex_digit n h = ground arith

-- What is printed of the bytes.
pub record Printed (bs text : Bytes) : Type 0 where
  pub read_back : unhex text ≡ bs
  pub digits : All IsHexDigit text
  pub count : length text ≡ 2 * length bs

hex-Printed : (bs : Bytes) → AllBytes bs → Printed bs (hex bs)
unfolding hex
hex-Printed [] a = record { read_back = refl; digits = tt; count = refl }
hex-Printed (b ∷ bs) a =
    let rest = hex-Printed bs a.1 in
    let small = a.0 in
    let high : b / 16 < 16 = omega (arith, small) in
    let low : b % 16 < 16 = omega arith in
    let whole : b / 16 * 16 + b % 16 ≡ b = omega arith in
    record {
      read_back =
          rw
            (
              hex_value-hex_digit (b / 16) high,
              hex_value-hex_digit (b % 16) low,
              rest.read_back,
              whole,
            )
            refl;
      digits =
          (hex_digit-IsHexDigit (b / 16) high, (hex_digit-IsHexDigit (b % 16) low, rest.digits));
      count = let c = rest.count in omega (arith, c);
    }

-- The signature is printed with two digits, `0` to `9` or `a` to `f`, for each byte of the HMAC of the
-- url, the expiry and the order one after the other, and these bytes can be read back from it.
pub hmac_sha256_hex-Printed :
    (hmac : Bytes → Bytes → Bytes) (keys : Keys) (url valid_till o_msg : Bytes)
    → ((key text : Bytes) → AllBytes (hmac key text))
    → Printed
        (hmac keys.api_secret (url ++ valid_till ++ o_msg))
        (hmac_sha256_hex hmac keys url valid_till o_msg)
unfolding hmac_sha256_hex
hmac_sha256_hex-Printed hmac keys url valid_till o_msg a = hex-Printed _ (a keys.api_secret _)
