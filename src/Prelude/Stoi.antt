-- ===== src/Prelude/Stoi.antt =====
-- `std::stoi` on a text, as its character codes, and the decimal numerals of the numbers.
use edge_ipc_daemon.Prelude.Tests.{if◌then◌else◌, ◌==◌, leb, ltb, Bool-cases}
use Prim.Native.Nat.{ℕ, zero, suc, ◌+◌, ◌-◌, ◌*◌, ◌/◌, ◌%◌, ◌^◌, ◌<◌}
use mathlib.Core.Path.{◌≡◌, refl, ap, ◌∙◌}
use mathlib.Core.Logic.{inl, inr}
use mathlib.Core.Bool.{Bool, true, false, ◌&&◌, ◌||◌}
use mathlib.Core.List.{List, [], ◌∷◌, ◌++◌}
use native.Mathlib.Omega.{arith}

-- An `int`, by its sign and its size, or one of the two exceptions.
pub data Parsed : Type 0 where
  number : Bool → ℕ → Parsed
  invalid_argument : Parsed
  out_of_range : Parsed

-- `isspace` and `isdigit` of the C locale.
abbrev is_space : ℕ → Bool
is_space c = c == 32 || (leb 9 c && leb c 13)

abbrev is_digit : ℕ → Bool
is_digit c = leb 48 c && leb c 57

unfoldable pub skip_spaces : List ℕ → List ℕ
skip_spaces [] = []
skip_spaces (c ∷ cs) = let rest = skip_spaces cs in if is_space c then rest else c ∷ cs

-- The value of the digits at the front, after a value for those before.
unfoldable pub digits : ℕ → List ℕ → ℕ
digits value [] = value
digits value (c ∷ cs) =
    let rest = digits (10 * value + (c - 48)) cs in if is_digit c then rest else value

-- The bounds of a 32-bit `int`.
unfoldable pub in_range : Bool → ℕ → Parsed
in_range negative n =
    if leb n (if negative then 2 ^ 31 else 2 ^ 31 - 1) then number negative n else out_of_range

-- After the sign: a digit must follow.
unfoldable pub after_sign : Bool → List ℕ → Parsed
after_sign negative [] = invalid_argument
after_sign negative (c ∷ cs) =
    if is_digit c then in_range negative (digits 0 (c ∷ cs)) else invalid_argument

unfoldable pub after_spaces : List ℕ → Parsed
after_spaces [] = invalid_argument
after_spaces (c ∷ cs) =
    if c == 45
    then after_sign true cs
    else if c == 43
    then after_sign false cs
    else after_sign false (c ∷ cs)

unfoldable pub stoi : List ℕ → Parsed
stoi text = after_spaces (skip_spaces text)

-- The decimal numeral of a number, with fuel for its digits.
unfoldable pub numeral : ℕ → ℕ → List ℕ
numeral zero n = []
numeral (suc fuel) n =
    let front = numeral fuel (n / 10) in (if ltb n 10 then [] else front) ++ (48 + n % 10) ∷ []

unfoldable pub decimal : ℕ → List ℕ
decimal n = numeral (suc n) n

-- Starts with a digit, and has the value `n` after any value for the digits before.
abbrev StartsDigit : List ℕ → Type 0
StartsDigit [] = ⊥
StartsDigit (c ∷ cs) = is_digit c ≡ true

StartsDigit-append : (xs ys : List ℕ) → StartsDigit xs → StartsDigit (xs ++ ys)
StartsDigit-append [] ys h = absurd h
StartsDigit-append (x ∷ xs) ys h = h

digit-is_digit : (n : ℕ) → is_digit (48 + n % 10) ≡ true
digit-is_digit n = ground arith

numeral-StartsDigit : (fuel n : ℕ) → n < fuel → StartsDigit (numeral fuel n)
unfolding numeral
numeral-StartsDigit zero n h = absurd (omega arith)
numeral-StartsDigit (suc fuel) n h = elim (Bool-cases (ltb n 10)) [
  | inl e ↦ rw e (digit-is_digit n)
  | inr e ↦ rw e (
      StartsDigit-append (numeral fuel (n / 10)) _
        (numeral-StartsDigit fuel (n / 10) (ground arith)))
]

abbrev AllDigits : List ℕ → Type 0
AllDigits [] = Unit {0}
AllDigits (c ∷ cs) = (is_digit c ≡ true) × AllDigits cs

digits-append :
    (xs : List ℕ) (v d : ℕ)
    → AllDigits xs
    → d < 10
    → digits v (xs ++ (48 + d) ∷ []) ≡ 10 * digits v xs + d
unfolding digits
digits-append [] v d h l = ground arith
digits-append (x ∷ xs) v d (e, h) l = rw e (digits-append xs (10 * v + (x - 48)) d h l)

AllDigits-append : (xs : List ℕ) (d : ℕ) → d < 10 → AllDigits xs → AllDigits (xs ++ (48 + d) ∷ [])
AllDigits-append [] d l h = (ground arith, tt)
AllDigits-append (x ∷ xs) d l (e, h) = (e, AllDigits-append xs d l h)

numeral-AllDigits : (fuel n : ℕ) → AllDigits (numeral fuel n)
unfolding numeral
numeral-AllDigits zero n = tt
numeral-AllDigits (suc fuel) n = elim (Bool-cases (ltb n 10)) [
  | inl e ↦ rw e (digit-is_digit n, tt)
  | inr e ↦ rw e (
      AllDigits-append (numeral fuel (n / 10)) (n % 10) (omega arith)
        (numeral-AllDigits fuel (n / 10)))
]

digits-numeral : (fuel n : ℕ) → n < fuel → digits 0 (numeral fuel n) ≡ n
unfolding numeral
digits-numeral zero n h = absurd (omega arith)
digits-numeral (suc fuel) n h = elim (Bool-cases (ltb n 10)) [
  | inl e ↦ rw e (digits-append [] 0 (n % 10) tt (omega arith) ∙ (unfold digits in ground arith))
  | inr e ↦
      let ih = digits-numeral fuel (n / 10) (ground arith) in
      rw e (
        digits-append (numeral fuel (n / 10)) 0 (n % 10) (numeral-AllDigits fuel (n / 10))
          (omega arith)
        ∙ omega (arith, ih))
]

parse_digits :
    (cs : List ℕ) → StartsDigit cs → after_spaces (skip_spaces cs) ≡ in_range false (digits 0 cs)
unfolding after_spaces skip_spaces after_sign
parse_digits [] h = absurd h
parse_digits (c ∷ cs) h =
    let visible : is_space c ≡ false = ground arith in
    let no_minus : (c == 45) ≡ false = ground arith in
    let no_plus : (c == 43) ≡ false = ground arith in rw visible (rw (no_minus, no_plus, h) refl)

-- The numeral of a number is read as the number, if this is an `int`.
pub stoi-decimal :
    (n : ℕ) → stoi (decimal n) ≡ (if ltb n (2 ^ 31) then number false n else out_of_range)
unfolding stoi decimal in_range
stoi-decimal n =
    parse_digits (numeral (suc n) n) (numeral-StartsDigit (suc n) n (omega arith))
    ∙ ap (in_range false) (digits-numeral (suc n) n (omega arith))
    ∙ ground arith
