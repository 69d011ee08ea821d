-- ===== src/Admin/Decimal.antt =====
-- fmt's `%d`: Sprintf prints a number in decimal, Sscanf reads one at the head of a text.
use convoy_backend.Base.{
  refl, ◌∙◌, ◌∙◌, inr, inl, Bool-cases, true, ap, ◌-◌, arith, ◌-◌, ◌%◌, ◌≡◌, ◌+◌, ltb, ◌≡◌, ◌+◌,
  ◌&&◌, ◌==◌, ◌*◌, ◌/◌, ◌^◌, ◌==◌, ◌*◌, ◌&&◌, if◌then◌else◌, zero, ◌<◌, some, if◌then◌else◌, leb,
  none, suc, false, [], ◌∷◌, ◌<◌, Bool, Option, ℕ,
}
use convoy_backend.Text.{Text, is_space}

-- the digits, from the last one; a number below 10 ^ fuel is printed whole
unfoldable pub digits : ℕ → ℕ → Text → Text
digits zero n out = out
digits (suc fuel) n out =
    let more = digits fuel (n / 10) ((b'0' + n % 10) ∷ out) in
    if ltb n 10 then (b'0' + n) ∷ out else more

-- fmt.Sprintf("%d", n) of an int64 that is not negative
unfoldable pub sprint : ℕ → Text
unfolding digits
sprint n = digits 20 n []

abbrev pub is_digit : ℕ → Bool
is_digit c = leb b'0' c && leb c b'9'

-- the value of the leading digits
unfoldable pub scan_digits : Text → ℕ → ℕ
scan_digits [] n = n
scan_digits (c ∷ s) n =
    let rest = scan_digits s (n * 10 + (c - b'0')) in if is_digit c then rest else n

abbrev pub starts_digit : Text → Bool
starts_digit [] = false
starts_digit (c ∷ s) = is_digit c

-- an int64 that was read: its sign and its size
pub data Int64 : Type 0 where
  plus minus : ℕ → Int64

-- a sign and digits; a value outside int64 is an error
abbrev pub scan_plus : Text → Option Int64
scan_plus s =
    let n = scan_digits s 0 in if starts_digit s && ltb n (2 ^ 63) then some (plus n) else none

abbrev pub scan_minus : Text → Option Int64
scan_minus s =
    let n = scan_digits s 0 in if starts_digit s && leb n (2 ^ 63) then some (minus n) else none

abbrev pub scan_signed : Text → Option Int64
scan_signed [] = none
scan_signed (c ∷ s) =
    if c == b'-' then scan_minus s else if c == b'+' then scan_plus s else scan_plus (c ∷ s)

-- leading spaces are skipped; a newline is an error
abbrev pub skip_space : Text → Option Text
skip_space [] = some []
skip_space (c ∷ s) =
    let rest = skip_space s in if c == 0x0a then none else if is_space c then rest else some (c ∷ s)

abbrev pub scan_text : Option Text → Option Int64
scan_text none = none
scan_text (some s) = scan_signed s

-- fmt.Sscanf(s, "%d", &n): what follows the digits is ignored
unfoldable pub sscan : Text → Option Int64
unfolding scan_digits is_space
sscan s = scan_text (skip_space s)

-- 10 to the fuel
abbrev bound : ℕ → ℕ
bound zero = 1
bound (suc fuel) = 10 * bound fuel

-- The digits of a number below the bound are read back, with what follows them.
scan_digits-digits :
    (fuel n : ℕ) (out : Text)
    → n < bound fuel
    → scan_digits (digits fuel n out) 0 ≡ scan_digits out n
unfolding digits scan_digits
scan_digits-digits zero n out h = ap (scan_digits out) (omega arith)
scan_digits-digits (suc fuel) n out h = elim (Bool-cases (ltb n 10)) [
  | inl l ↦ rw l (ground arith)
  | inr l ↦
      rw l (scan_digits-digits fuel (n / 10) ((b'0' + n % 10) ∷ out) (omega arith) ∙ ground arith)
]

scan_digits_nil : (n : ℕ) → scan_digits [] n ≡ n
unfolding scan_digits
scan_digits_nil n = refl

starts-digits :
    (fuel n c : ℕ) (out : Text)
    → n < bound fuel
    → is_digit c ≡ true
    → starts_digit (digits fuel n (c ∷ out)) ≡ true
unfolding digits
starts-digits zero n c out h d = d
starts-digits (suc fuel) n c out h d = elim (Bool-cases (ltb n 10)) [
  | inl l ↦ rw l (ground arith)
  | inr l ↦
      rw l (starts-digits fuel (n / 10) (b'0' + n % 10) (c ∷ out) (omega arith) (ground arith))
]

-- `%d` prints a number that starts with a digit.
starts-sprint : (n : ℕ) → n < 2 ^ 63 → starts_digit (sprint n) ≡ true
unfolding sprint digits
starts-sprint n h = elim (Bool-cases (ltb n 10)) [
  | inl l ↦ rw l (ground arith)
  | inr l ↦ rw l (starts-digits 19 (n / 10) (b'0' + n % 10) [] (omega arith) (ground arith))
]

scan_signed-digit :
    (s : Text)
    → starts_digit s ≡ true
    → scan_digits s 0 < 2 ^ 63
    → sscan s ≡ some (plus (scan_digits s 0))
unfolding sscan is_space
scan_signed-digit [] h l = cc h
scan_signed-digit (c ∷ s) h l = ground (arith, h)

scan_digits-sprint : (n : ℕ) → n < 2 ^ 63 → scan_digits (sprint n) 0 ≡ n
unfolding sprint
scan_digits-sprint n h = scan_digits-digits 20 n [] (omega arith) ∙ scan_digits_nil n

-- A time that was printed is read back.
pub sscan-sprint : (n : ℕ) → n < 2 ^ 63 → sscan (sprint n) ≡ some (plus n)
sscan-sprint n h =
    let e : scan_digits (sprint n) 0 ≡ n = scan_digits-sprint n h in
    scan_signed-digit (sprint n) (starts-sprint n h) (rw e h) ∙ ap (λ k. some (plus k)) e
