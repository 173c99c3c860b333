-- ===== src/Text.antt =====
-- The text functions of the standard library that the program calls, over the bytes of a text:
-- `std::to_string` of an unsigned number and `std::stoi`.
pub mod Decimal
use bitmex_market_maker.Base.{
  ℕ, zero, suc, ◌+◌, ◌-◌, ◌*◌, ◌/◌, ◌%◌, ◌^◌, Bool, true, false, ◌&&◌, ◌||◌, List, [], ◌∷◌, ltb,
  leb, ◌==◌, if◌then◌else◌,
}
use Prim.Native.Char.{code}
use Prim.Native.String.{String}

-- A `std::string`.
abbrev pub Bytes : Type 0
Bytes = List ℕ

-- The bytes of a literal.
abbrev pub bytes : String → Bytes
bytes String.[] = []
bytes (String.◌∷◌ c s) = code c ∷ bytes s

-- The digits of `n` in front of `out`; a number has fewer digits than its value plus one.
to_string_loop : ℕ → ℕ → Bytes → Bytes
to_string_loop zero n out = out
to_string_loop (suc fuel) n out =
    let rest = to_string_loop fuel (n / 10) ((n % 10 + 48) ∷ out) in
    if ltb n 10 then (n + 48) ∷ out else rest

unfoldable pub to_string : ℕ → Bytes
unfolding to_string_loop
to_string n = to_string_loop (suc n) n []

-- What `std::stoi` returns or throws; a negative result is its absolute value.
pub data Stoi : Type 0 where
  value : ℕ → Stoi
  negative : ℕ → Stoi
  invalid_argument : Stoi
  out_of_range : Stoi

abbrev pub is_digit : ℕ → Bool
is_digit c = leb 48 c && leb c 57

-- The value of the leading digits.
unfoldable pub read_digits : ℕ → Bytes → ℕ
read_digits acc [] = acc
read_digits acc (c ∷ cs) = if is_digit c then read_digits (acc * 10 + (c - 48)) cs else acc

starts_with_digit : Bytes → Bool
starts_with_digit [] = false
starts_with_digit (c ∷ cs) = is_digit c

positive : Bytes → Stoi
unfolding read_digits starts_with_digit
positive cs =
    if starts_with_digit cs
    then (if ltb (read_digits 0 cs) (2 ^ 31) then value (read_digits 0 cs) else out_of_range)
    else invalid_argument

minus : Bytes → Stoi
unfolding read_digits starts_with_digit
minus cs =
    if starts_with_digit cs
    then (if leb (read_digits 0 cs) (2 ^ 31) then negative (read_digits 0 cs) else out_of_range)
    else invalid_argument

-- The sign, if there is one.
signed : Bytes → Stoi
unfolding positive minus
signed [] = invalid_argument
signed (c ∷ cs) =
    if c == b'-' then minus cs else if c == b'+' then positive cs else positive (c ∷ cs)

abbrev pub is_space : ℕ → Bool
is_space c = (c == 32) || (leb 9 c && leb c 13)

-- Leading white space is skipped.
unfoldable pub stoi : Bytes → Stoi
unfolding signed
stoi [] = invalid_argument
stoi (c ∷ cs) = if is_space c then stoi cs else signed (c ∷ cs)
