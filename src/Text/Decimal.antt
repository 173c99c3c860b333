-- ===== src/Text/Decimal.antt =====
-- `std::stoi` reads back what `std::to_string` prints.
use bitmex_market_maker.Base.{
  ℕ, zero, suc, ◌+◌, ◌-◌, ◌*◌, ◌/◌, ◌%◌, ◌^◌, ◌<◌, ◌≡◌, ap, ◌∙◌, true, false, [], ◌∷◌, arith, ltb,
  Bool-cases, inl, inr, All, length, lt→ltb, ◌==◌,
}
use bitmex_market_maker.Text.{
  Bytes, to_string_loop, to_string, value, read_digits, is_digit, is_space, stoi,
}

abbrev pub Digits : Bytes → Type 0
Digits cs = All (λ c. is_digit c ≡ true) cs

digit_of : (n : ℕ) → is_digit (n % 10 + 48) ≡ true
digit_of n = let h : n % 10 < 10 = omega arith in ground arith

to_string_loop-Digits : (fuel n : ℕ) (out : Bytes) → Digits out → Digits (to_string_loop fuel n out)
unfolding to_string_loop
to_string_loop-Digits zero n out d = d
to_string_loop-Digits (suc fuel) n out d = elim (Bool-cases (ltb n 10)) [
  | inl small ↦ rw small (ground arith, d)
  | inr large ↦
      rw large (to_string_loop-Digits fuel (n / 10) ((n % 10 + 48) ∷ out) (ground arith, d))
]

read_digits-to_string_loop :
    (fuel n : ℕ) (out : Bytes)
    → n < fuel
    → read_digits 0 (to_string_loop fuel n out) ≡ read_digits n out
unfolding to_string_loop read_digits
read_digits-to_string_loop zero n out h = absurd (omega arith)
read_digits-to_string_loop (suc fuel) n out h = elim (Bool-cases (ltb n 10)) [
  | inl small ↦
      let digit : is_digit (n + 48) ≡ true = ground arith in
      let same : 0 * 10 + (n + 48 - 48) ≡ n = omega arith in rw (small, digit, same)
  | inr large ↦
      let digit : is_digit (n % 10 + 48) ≡ true = digit_of n in
      let same : n / 10 * 10 + (n % 10 + 48 - 48) ≡ n = omega arith in
      rw large (
        read_digits-to_string_loop fuel (n / 10) ((n % 10 + 48) ∷ out) (ground arith)
        ∙ rw (digit, same))
]

stoi-Digits :
    (c : ℕ) (cs : Bytes)
    → is_digit c ≡ true
    → read_digits 0 (c ∷ cs) < 2 ^ 31
    → stoi (c ∷ cs) ≡ value (read_digits 0 (c ∷ cs))
unfolding stoi
stoi-Digits c cs d h =
    let space : is_space c ≡ false = ground arith in
    let no_minus : (c == b'-') ≡ false = ground arith in
    let no_plus : (c == b'+') ≡ false = ground arith in
    let small : ltb (read_digits 0 (c ∷ cs)) (2 ^ 31) ≡ true = lt→ltb _ _ h in
    rw (space, no_minus, no_plus, d, rw d at small)

nonempty-Digits :
    (cs : Bytes)
    → Digits cs
    → 0 < length cs
    → read_digits 0 cs < 2 ^ 31
    → stoi cs ≡ value (read_digits 0 cs)
nonempty-Digits [] d l h = absurd (omega arith)
nonempty-Digits (c ∷ cs) d l h = stoi-Digits c cs d.0 h

to_string_loop-length :
    (fuel n : ℕ) (out : Bytes) → length out < length (to_string_loop (suc fuel) n out)
unfolding to_string_loop
to_string_loop-length fuel n out = elim (Bool-cases (ltb n 10)) [
  | inl small ↦ rw small (omega arith)
  | inr large ↦ rw large (longer fuel (n / 10) ((n % 10 + 48) ∷ out) (length out) (omega arith))
]
  where
    longer : (f m : ℕ) (o : Bytes) (k : ℕ) → k < length o → k < length (to_string_loop f m o)
    longer zero m o k h = h
    longer (suc f) m o k h = elim (Bool-cases (ltb m 10)) [
      | inl small ↦ rw small (omega arith)
      | inr large ↦ rw large (longer f (m / 10) ((m % 10 + 48) ∷ o) k (omega arith))
    ]

-- `std::stoi` of what `std::to_string` prints of a number below 2 ^ 31 is that number.
pub stoi-to_string : (n : ℕ) → n < 2 ^ 31 → stoi (to_string n) ≡ value n
unfolding to_string read_digits
stoi-to_string n h =
    let same : read_digits 0 (to_string_loop (suc n) n []) ≡ n = reads n in
    nonempty-Digits (to_string_loop (suc n) n []) (to_string_loop-Digits (suc n) n [] tt)
      (to_string_loop-length n n []) (rw same h)
    ∙ ap value same
  where
    reads : (m : ℕ) → read_digits 0 (to_string_loop (suc m) m []) ≡ m
    reads m = read_digits-to_string_loop (suc m) m [] (omega arith)
