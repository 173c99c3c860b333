-- ===== src/OrderUpdates/Faults.antt =====
-- bitmex_mm/OrderUpdateStream.hpp: which messages the loop of the stream does not survive, since nothing
-- catches what `std::stoi` throws.
use bitmex_market_maker.Base.{
  ℕ, ◌-◌, ◌^◌, ◌≡◌, refl, ◌∙◌, Bool, true, false, ◌&&◌, Option, none, some, List, [], ◌∷◌, ◌>>=◌,
  ◌==◌, leb, ltb, if◌then◌else◌, Bool-cases, inl, inr, arith,
}
use bitmex_market_maker.Text.{
  Bytes, stoi, value, negative, invalid_argument, out_of_range, is_space, is_digit, read_digits,
}
use bitmex_market_maker.TradeLogic.{Trading}
use bitmex_market_maker.OrderUpdates.{
  OrderMsg, on_order_msg, on_order_msgs, run_messages, cl_ord_id_of,
}

abbrev pub returns : {A : Type 0} → Option A → Bool
returns none = false
returns (some a) = true

abbrev skip_spaces : Bytes → Bytes
skip_spaces [] = []
skip_spaces (c ∷ cs) = if is_space c then skip_spaces cs else c ∷ cs

-- A digit comes first, and the leading digits make at most `largest`.
abbrev starts_with_number : ℕ → Bytes → Bool
starts_with_number largest [] = false
starts_with_number largest (c ∷ cs) = is_digit c && leb (read_digits 0 (c ∷ cs)) largest

-- A sign may stand before the number.
abbrev starts_with_int : Bytes → Bool
starts_with_int [] = false
starts_with_int (c ∷ cs) =
    if c == b'-'
    then starts_with_number (2 ^ 31) cs
    else if c == b'+'
    then starts_with_number (2 ^ 31 - 1) cs
    else starts_with_number (2 ^ 31 - 1) (c ∷ cs)

-- A text of which `std::stoi` makes an `int`.
abbrev pub is_int : Bytes → Bool
is_int text = starts_with_int (skip_spaces text)

-- A report without an id or a status, or whose id is an `int`.
abbrev pub is_harmless : OrderMsg → Bool
is_harmless d = elim d.cl_ord_id [
  | none ↦ true
  | some text ↦ elim d.ord_status [ none ↦ true | some status ↦ is_int text ]
]

abbrev pub all_harmless : List OrderMsg → Bool
all_harmless [] = true
all_harmless (d ∷ ds) = is_harmless d && all_harmless ds

-- Every message has an array of reports, and all of them are harmless.
abbrev pub survives : List (Option (List OrderMsg)) → Bool
survives [] = true
survives (none ∷ ms) = false
survives (some ds ∷ ms) = all_harmless ds && survives ms

positive-returns :
    (digit small : Bool) (n : ℕ)
    → returns (
        cl_ord_id_of
          (if digit then (if small then value n else out_of_range) else invalid_argument))
      ≡ (digit && small)
unfolding cl_ord_id_of
positive-returns true true n = refl
positive-returns true false n = refl
positive-returns false small n = refl

negative-returns :
    (digit small : Bool) (n : ℕ)
    → returns (
        cl_ord_id_of
          (if digit then (if small then negative n else out_of_range) else invalid_argument))
      ≡ (digit && small)
unfolding cl_ord_id_of
negative-returns true true n = refl
negative-returns true false n = refl
negative-returns false small n = refl

below-at_most : (n : ℕ) → ltb n (2 ^ 31) ≡ leb n (2 ^ 31 - 1)
below-at_most n = ground arith

one_number :
    (c : ℕ) (cs : Bytes)
    → returns (
        cl_ord_id_of (
          if is_digit c
          then (if ltb (read_digits 0 (c ∷ cs)) (2 ^ 31)
              then value (read_digits 0 (c ∷ cs))
              else out_of_range)
          else invalid_argument))
      ≡ starts_with_number (2 ^ 31 - 1) (c ∷ cs)
one_number c cs =
    positive-returns (is_digit c) (ltb (read_digits 0 (c ∷ cs)) (2 ^ 31)) _
    ∙ rw (below-at_most (read_digits 0 (c ∷ cs))) refl

-- A first sign or digit.
signed-returns :
    (c : ℕ) (cs : Bytes)
    → is_space c ≡ false
    → returns (cl_ord_id_of (stoi (c ∷ cs))) ≡ starts_with_int (c ∷ cs)
unfolding stoi cl_ord_id_of
signed-returns c [] solid = elim (Bool-cases (c == b'-')) [
  | inl minus ↦ rw (solid, minus) refl
  | inr e ↦ elim (Bool-cases (c == b'+')) [
    | inl plus ↦ rw (solid, e, plus) refl
    | inr e' ↦ rw (solid, e, e') (one_number c [])
  ]
]
signed-returns c (d ∷ ds) solid = elim (Bool-cases (c == b'-')) [
  | inl minus ↦
      rw (solid, minus) (negative-returns (is_digit d) (leb (read_digits 0 (d ∷ ds)) (2 ^ 31)) _)
  | inr e ↦ elim (Bool-cases (c == b'+')) [
    | inl plus ↦ rw (solid, e, plus) (one_number d ds)
    | inr e' ↦ rw (solid, e, e') (one_number c (d ∷ ds))
  ]
]

stoi-returns : (text : Bytes) → returns (cl_ord_id_of (stoi text)) ≡ is_int text
unfolding stoi cl_ord_id_of
stoi-returns [] = refl
stoi-returns (c ∷ cs) = elim (Bool-cases (is_space c)) [
  | inl space ↦ rw space (stoi-returns cs)
  | inr solid ↦ signed-returns c cs solid ∙ rw solid refl
]

returns-bind :
    {A B : Type 0} (m : Option A) (f : A → Option B) (b : Bool)
    → ((a : A) → returns (f a) ≡ b)
    → returns (m >>= f) ≡ (returns m && b)
returns-bind none f b h = refl
returns-bind (some a) f b h = h a

on_order_msg-returns : (d : OrderMsg) (s : Trading) → returns (on_order_msg d s) ≡ is_harmless d
unfolding on_order_msg
on_order_msg-returns d s = by_fields d.cl_ord_id d.ord_status refl refl
  where
    by_fields :
        (id status : Option Bytes)
        → d.cl_ord_id ≡ id
        → d.ord_status ≡ status
        → returns (on_order_msg d s) ≡ is_harmless d
    by_fields none status e e' = rw e refl
    by_fields (some text) none e e' = rw (e, e') refl
    by_fields (some text) (some status) e e' =
        rw (e, e', ← stoi-returns text)
          (returns-bind (cl_ord_id_of (stoi text)) _ true (λ id. refl) ∙ ground arith)

on_order_msgs-returns :
    (ds : List OrderMsg) (s : Trading) → returns (on_order_msgs ds s) ≡ all_harmless ds
unfolding on_order_msgs
on_order_msgs-returns [] s = refl
on_order_msgs-returns (d ∷ ds) s =
    returns-bind (on_order_msg d s) _ (all_harmless ds) (on_order_msgs-returns ds)
    ∙ rw (on_order_msg-returns d s) refl

-- In every state, the loop of the stream gets to the end of the messages exactly if each of them has an
-- array of reports and in each report that has an id and a status, the id is the text of an `int`: white
-- space, a sign and a number that fits may lead it. So a report on an order that was placed by
-- hand, whose id is empty, ends the program, whatever its status.
pub run_messages-returns :
    (ms : List (Option (List OrderMsg))) (s : Trading) → returns (run_messages ms s) ≡ survives ms
unfolding run_messages
run_messages-returns [] s = refl
run_messages-returns (none ∷ ms) s = refl
run_messages-returns (some ds ∷ ms) s =
    returns-bind (on_order_msgs ds s) _ (survives ms) (run_messages-returns ms)
    ∙ rw (on_order_msgs-returns ds s) refl
