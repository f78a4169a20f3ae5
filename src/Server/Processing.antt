-- ===== src/Server/Processing.antt =====
-- processing.c: adder_implementation, which nothing calls.
use threaded_network_adder.Base.{
  ℕ, zero, suc, ◌+◌, ◌*◌, ◌-◌, ◌/◌, ◌%◌, ◌≤◌, ◌<◌, All, All-append, if_intro, ◌≡◌, refl, ap, ◌∙◌,
  inl, inr, false, List, [], ◌∷◌, ◌++◌, ℤ, pos, negsuc, ◌+ℤ◌, IsInt, wrap_int, wrap_int-IsInt, ltb,
  ◌==◌, if◌then◌else◌, arith, Bool-cases,
}

-- The digits of a number, as the codes of their characters.
unfoldable pub decimal : ℕ → ℕ → List ℕ
decimal zero n = []
decimal (suc places) n =
    let rest = decimal places (n / 10) in
    if ltb n 10 then (48 + n) ∷ [] else rest ++ (48 + n % 10) ∷ []

-- sprintf(..., "%d", ...): ten digits are enough for an int.
unfoldable pub print_int : ℤ → List ℕ
unfolding decimal
print_int (pos n) = decimal 10 n
print_int (negsuc n) = 45 ∷ decimal 10 (suc n)

-- `*resultado` and `answer_to_client` after the call; `string_size` is not read.
unfoldable pub adder_implementation : ℤ → ℤ → ℤ × List ℕ
unfolding print_int wrap_int
adder_implementation request_value resultado =
    let sum = wrap_int (resultado +ℤ request_value) in (sum, print_int sum)

-- What atoi makes of a text that is an int.
unfoldable pub digits_value : ℕ → List ℕ → ℕ
digits_value value [] = value
digits_value value (c ∷ cs) = digits_value (value * 10 + (c - 48)) cs

unfoldable pub atoi : List ℕ → ℤ
atoi [] = pos 0
atoi (c ∷ cs) = if c == 45 then negsuc (digits_value 0 cs - 1) else pos (digits_value 0 (c ∷ cs))

unfoldable power : ℕ → ℕ
power zero = 1
power (suc places) = 10 * power places

digits_value-snoc :
    (value : ℕ) (cs : List ℕ) (d : ℕ)
    → digits_value value (cs ++ (48 + d) ∷ []) ≡ digits_value value cs * 10 + d
unfolding digits_value
digits_value-snoc value [] d = omega arith
digits_value-snoc value (c ∷ cs) d = digits_value-snoc (value * 10 + (c - 48)) cs d

digits_value-decimal : (places n : ℕ) → n < power places → digits_value 0 (decimal places n) ≡ n
unfolding digits_value decimal power
digits_value-decimal zero n small = omega arith
digits_value-decimal (suc places) n small = elim (Bool-cases (ltb n 10)) [
  | inl one ↦ rw one (omega arith)
  | inr more ↦ rw more (
      digits_value-snoc 0 (decimal places (n / 10)) (n % 10)
      ∙ omega (arith, digits_value-decimal places (n / 10) (omega arith)))
]

-- A text of digits has no sign.
IsDigit : ℕ → Type 0
IsDigit c = 48 ≤ c

decimal-IsDigit : (places n : ℕ) → All IsDigit (decimal places n)
unfolding decimal IsDigit
decimal-IsDigit zero n = tt
decimal-IsDigit (suc places) n =
    if_intro (All IsDigit) (ltb n 10) _ _ (omega arith, tt)
      (All-append IsDigit (decimal places (n / 10)) _ (decimal-IsDigit places (n / 10))
        (omega arith, tt))

atoi-digits : (cs : List ℕ) → All IsDigit cs → atoi cs ≡ pos (digits_value 0 cs)
unfolding atoi IsDigit digits_value
atoi-digits [] d = refl
atoi-digits (c ∷ cs) d = let sign : (c == 45) ≡ false = ground arith in rw sign refl

-- The text of an int reads back as that int.
atoi-print_int : (a : ℤ) → IsInt a → atoi (print_int a) ≡ a
unfolding print_int
atoi-print_int (pos n) h =
    atoi-digits (decimal 10 n) (decimal-IsDigit 10 n)
    ∙ ap pos (digits_value-decimal 10 n (unfold power in omega arith))
atoi-print_int (negsuc n) h =
    unfold atoi in
    ap (λ (v : ℕ). negsuc (v - 1)) (digits_value-decimal 10 (suc n) (unfold power in omega arith))
    ∙ ap negsuc (omega arith)

-- adder_implementation adds the value to the sum, wrapped to an int, and
-- the text for the client reads back as the new sum.
pub adder_implementation-atoi :
    (request_value resultado : ℤ)
    → let (sum, answer) = adder_implementation request_value resultado in
      (sum ≡ wrap_int (resultado +ℤ request_value)) × (atoi answer ≡ sum)
unfolding adder_implementation
adder_implementation-atoi request_value resultado =
    (refl, atoi-print_int _ (wrap_int-IsInt (resultado +ℤ request_value)))
