-- ===== src/Mttn/Text.antt =====
-- Numbers in text, for mttn/tools: printf's "%X" and "%d", and strtoul with base 0, of C's library.
-- A character is its code; a long has 32 bits.
use ht_drivers.Base.{
  ℕ, zero, suc, ◌+◌, ◌-◌, ◌*◌, ◌/◌, ◌%◌, ◌^◌, ◌<◌, ◌≡◌, refl, ◌∙◌, if_cases, lt→ltb, ltb→lt, ap,
  Bool, true, false, ◌||◌, ◌&&◌, Option, none, some, List, [], ◌∷◌, ◌==◌, ltb, leb, if◌then◌else◌,
  arith,
}

-- A digit, with the capitals A to Z after 9.
abbrev digit_code : ℕ → ℕ
digit_code d = if ltb d 10 then 48 + d else 55 + d

-- The value of a character as a digit; 36 for one that is none.
abbrev digit_value : ℕ → ℕ
digit_value c =
    if leb 48 c && leb c 57
    then c - 48
    else if leb 65 c && leb c 90
    then c - 55
    else if leb 97 c && leb c 122
    then c - 87
    else 36

-- The digits of `n` before `rest`; the first argument bounds their number.
unfoldable pub digits : (most base n : ℕ) → (rest : List ℕ) → List ℕ
digits zero base n rest = rest
digits (suc k) base n rest =
    let more = digits k base (n / base) (digit_code (n % base) ∷ rest) in
    if ltb n base then digit_code n ∷ rest else more

-- The digits at the front, read on from the value so far, and the text after them.
unfoldable pub scan : (base value : ℕ) → List ℕ → ℕ × List ℕ
scan base value [] = (value, [])
scan base value (c ∷ cs) =
    let more = scan base (value * base + digit_value c) cs in
    if ltb (digit_value c) base then more else (value, c ∷ cs)

abbrev is_space : ℕ → Bool
is_space c = c == 32 || (leb 9 c && leb c 13)

unfoldable pub skip_spaces : List ℕ → List ℕ
skip_spaces [] = []
skip_spaces (c ∷ cs) = let rest = skip_spaces cs in if is_space c then rest else c ∷ cs

-- What follows a 0: x and a digit start a hexadecimal number, all else an octal one.
unfoldable pub after_zero : List ℕ → ℕ × List ℕ
unfolding scan
after_zero [] = (0, [])
after_zero (x ∷ []) = scan 8 0 (x ∷ [])
after_zero (x ∷ d ∷ cs) =
    if (x == 120 || x == 88) && ltb (digit_value d) 16
    then scan 16 0 (d ∷ cs)
    else scan 8 0 (x ∷ d ∷ cs)

-- `none` where no number is.
unfoldable pub scan_number : List ℕ → Option (ℕ × List ℕ)
unfolding after_zero
scan_number [] = none
scan_number (c ∷ cs) =
    if c == 48
    then some (after_zero cs)
    else if ltb (digit_value c) 10
    then some (scan 10 0 (c ∷ cs))
    else none

-- ULONG_MAX for a number that is too large.
abbrev clip : ℕ → ℕ
clip v = if ltb v 4294967296 then v else 4294967295

abbrev signed : Bool → Option (ℕ × List ℕ) → Option (ℕ × List ℕ)
signed minus none = none
signed minus (some (v, rest)) =
    some (if minus then (4294967296 - clip v) % 4294967296 else clip v, rest)

abbrev scan_signed : List ℕ → Option (ℕ × List ℕ)
scan_signed [] = none
scan_signed (c ∷ cs) =
    signed (c == 45) (if c == 45 || c == 43 then scan_number cs else scan_number (c ∷ cs))

abbrev value_or : (cs : List ℕ) → Option (ℕ × List ℕ) → ℕ × List ℕ
value_or cs none = (0, cs)
value_or cs (some r) = r

-- The value, and the text from `*ep` on: all of it where there is no number.
unfoldable pub strtoul : List ℕ → ℕ × List ℕ
unfolding scan_number skip_spaces
strtoul cs = value_or cs (scan_signed (skip_spaces cs))

-- "0x%X" and "%d" before `rest`.
abbrev pub print_hex : ℕ → (rest : List ℕ) → List ℕ
print_hex n rest = 48 ∷ 120 ∷ digits 8 16 (n % 4294967296) rest

abbrev pub print_dec : ℕ → (rest : List ℕ) → List ℕ
print_dec n rest = digits 10 10 n rest

-- Text that ends a number of the base.
abbrev pub Ends : (base : ℕ) → List ℕ → Type 0
Ends base [] = Unit
Ends base (c ∷ cs) = ltb (digit_value c) base ≡ false

digit_value-code : (d : ℕ) → d < 16 → digit_value (digit_code d) ≡ d
digit_value-code d h = ground arith

scan_end : (base v : ℕ) (rest : List ℕ) → Ends base rest → scan base v rest ≡ (v, rest)
unfolding scan
scan_end base v [] e = refl
scan_end base v (c ∷ cs) e = ground arith

scan_digit :
    (v d w : ℕ) (rest : List ℕ)
    → d < 16
    → v * 16 + d ≡ w
    → scan 16 v (digit_code d ∷ rest) ≡ scan 16 w rest
unfolding scan
scan_digit v d w rest h e = rw (digit_value-code d h, ← e) (ground arith)

scan-digits :
    (k n : ℕ) (rest : List ℕ) → n < 16 ^ k → scan 16 0 (digits k 16 n rest) ≡ scan 16 n rest
unfolding digits
scan-digits zero n rest h = ap (λ v. scan 16 v rest) (omega arith)
scan-digits (suc k) n rest h =
    if_cases (λ t. scan 16 0 t ≡ scan 16 n rest) (ltb n 16)
      (λ e. scan_digit 0 n n rest (ltb→lt n 16 e) (omega arith))
      (λ _.
        scan-digits k (n / 16) (digit_code (n % 16) ∷ rest) (omega arith)
        ∙ scan_digit (n / 16) (n % 16) n rest (omega arith) (omega arith))

-- A list that starts with a hexadecimal digit.
abbrev IsNumeral : List ℕ → Type 0
IsNumeral [] = ⊥
IsNumeral (c ∷ cs) = ltb (digit_value c) 16 ≡ true

digit-IsNumeral : (d : ℕ) (rest : List ℕ) → d < 16 → IsNumeral (digit_code d ∷ rest)
digit-IsNumeral d rest h = rw (digit_value-code d h) (lt→ltb d 16 h)

digits-IsNumeral : (k n : ℕ) (rest : List ℕ) → IsNumeral rest → IsNumeral (digits k 16 n rest)
unfolding digits
digits-IsNumeral zero n rest h = h
digits-IsNumeral (suc k) n rest h =
    if_cases IsNumeral (ltb n 16) (λ e. digit-IsNumeral n rest (ltb→lt n 16 e))
      (λ _.
        digits-IsNumeral k (n / 16) (digit_code (n % 16) ∷ rest)
          (digit-IsNumeral (n % 16) rest (omega arith)))

number-IsNumeral : (k n : ℕ) (rest : List ℕ) → IsNumeral (digits (suc k) 16 n rest)
unfolding digits
number-IsNumeral k n rest =
    if_cases IsNumeral (ltb n 16) (λ e. digit-IsNumeral n rest (ltb→lt n 16 e))
      (λ _.
        digits-IsNumeral k (n / 16) (digit_code (n % 16) ∷ rest)
          (digit-IsNumeral (n % 16) rest (omega arith)))

after_zero_x : (cs : List ℕ) → IsNumeral cs → after_zero (120 ∷ cs) ≡ scan 16 0 cs
unfolding after_zero
after_zero_x [] h = absurd h
after_zero_x (c ∷ cs) h = rw h refl

scan_print_hex :
    (n : ℕ) (rest : List ℕ)
    → n < 2 ^ 32
    → Ends 16 rest
    → scan_number (print_hex n rest) ≡ some (n, rest)
unfolding scan_number
scan_print_hex n rest b e = ap some (
    after_zero_x _ (number-IsNumeral 7 (n % 4294967296) rest)
    ∙ scan-digits 8 (n % 4294967296) rest (omega arith)
    ∙ ap (λ v. scan 16 v rest) (omega arith)
    ∙ scan_end 16 n rest e)

pub strtoul-print_hex :
    (n : ℕ) (rest : List ℕ) → n < 2 ^ 32 → Ends 16 rest → strtoul (print_hex n rest) ≡ (n, rest)
unfolding strtoul
strtoul-print_hex n rest b e =
    ap (λ o. value_or (print_hex n rest) (signed false o)) (scan_print_hex n rest b e)
    ∙ ground arith

pub strtoul-space :
    (n : ℕ) (rest : List ℕ)
    → n < 2 ^ 32
    → Ends 16 rest
    → strtoul (32 ∷ print_hex n rest) ≡ (n, rest)
unfolding strtoul
strtoul-space n rest b e =
    ap (λ o. value_or (32 ∷ print_hex n rest) (signed false o)) (scan_print_hex n rest b e)
    ∙ ground arith
