-- ===== src/Response/Decimal.antt =====
-- `%d`: the digits of an `int` spell its number.
use iomessage.Prelude.{
  ℕ, zero, suc, ◌==◌, ◌+◌, ◌-◌, ◌*◌, ◌/◌, ◌%◌, ◌^◌, ◌≤◌, ◌<◌, ◌≡◌, ◌≢◌, refl, ap, ◌∙◌, true, false,
  Bool-cases, inl, inr, [], ◌∷◌, arith, if◌then◌else◌, ltb, length, All, Bytes,
}
use iomessage.Text.{is_special}
use iomessage.Text.Escape.{escape}
use iomessage.Text.Frame.{last_byte}
use iomessage.Request.Types.{ℤ, pos, negsuc}
use iomessage.Request.Params.Pairs.{differs}
use iomessage.Response.{digits_loop, decimal}

-- The number that digits spell behind `n`.
abbrev pub value : ℕ → Bytes → ℕ
value n [] = n
value n (c ∷ cs) = value (n * 10 + (c - b'0')) cs

abbrev pub IsDigit : ℕ → Type 0
IsDigit c = (b'0' ≤ c) × (c ≤ b'9')

-- As many digits as rounds are enough below this.
abbrev pub tens : ℕ → ℕ
tens zero = 1
tens (suc n) = 10 * tens n

last_digit : (n : ℕ) → n / 10 * 10 + (b'0' + n % 10 - b'0') ≡ n
last_digit n = omega arith

first_digit : (n : ℕ) → 0 * 10 + (b'0' + n - b'0') ≡ n
first_digit n = omega arith

pub digits_loop_lem :
    (fuel n : ℕ) (out : Bytes)
    → n < tens (suc fuel)
    → All IsDigit out
    → (value 0 (digits_loop (suc fuel) n out) ≡ value n out)
      × All IsDigit (digits_loop (suc fuel) n out)
unfolding digits_loop
digits_loop_lem zero n out h d =
    let small : ltb n 10 ≡ true = ground (arith, h) in
    rw small (ap (λ k. value k out) (first_digit n), ((omega arith, ground (arith, small)), d))
digits_loop_lem (suc fuel) n out h d = elim (Bool-cases (ltb n 10)) [
  | inl small ↦
      rw small (ap (λ k. value k out) (first_digit n), ((omega arith, ground (arith, small)), d))
  | inr large ↦
      let (same, digits) =
        digits_loop_lem fuel (n / 10) ((b'0' + n % 10) ∷ out) (omega (arith, h))
          ((omega arith, omega arith), d) in
      rw large (same ∙ ap (λ k. value k out) (last_digit n), digits)
]

-- The number that a text of digits stands for, a minus sign in front of it or none.
abbrev pub read_int : Bytes → ℤ
read_int [] = pos 0
read_int (c ∷ cs) = if c == b'-' then negsuc (value 0 cs - 1) else pos (value 0 (c ∷ cs))

-- The range of an `int`, and a bit more.
abbrev pub IsInt : ℤ → Type 0
IsInt (pos n) = n < 2 ^ 32
IsInt (negsuc n) = n < 2 ^ 32

abbrev IsPlain : ℕ → Type 0
IsPlain c = is_special c ≡ false

plain_byte : (c : ℕ) → b'-' ≤ c → c ≤ b'9' → is_special c ≡ false
unfolding is_special
plain_byte c h k = ground (arith, h, k)

escape_digits : (s : Bytes) → All IsDigit s → escape s ≡ s
escape_digits [] h = refl
escape_digits (c ∷ s) h =
    let plain = plain_byte c (omega (arith, h.0)) h.0.1 in
    rw plain (ap (λ t. c ∷ t) (escape_digits s h.1))

starts_digit : (s : Bytes) → All IsDigit s → read_int s ≡ pos (value 0 s)
starts_digit [] h = refl
starts_digit (c ∷ s) h = let e : (c == b'-') ≡ false = ground (arith, h.0) in rw e refl

pub read_int-decimal : (z : ℤ) → IsInt z → read_int (decimal z) ≡ z
unfolding decimal
read_int-decimal (pos n) h =
    let (same, digits) = digits_loop_lem 9 n [] (omega (arith, h)) tt in
    starts_digit (digits_loop 10 n []) digits ∙ ap pos same
read_int-decimal (negsuc n) h =
    let (same, digits) = digits_loop_lem 9 (n + 1) [] (omega (arith, h)) tt in
    ap (λ k. negsuc (k - 1)) same ∙ ap negsuc (omega arith)

-- No byte of it is special, and none is a backslash.
pub escape-decimal : (z : ℤ) → IsInt z → escape (decimal z) ≡ decimal z
unfolding decimal
escape-decimal (pos n) h =
    escape_digits (digits_loop 10 n []) (digits_loop_lem 9 n [] (omega (arith, h)) tt).1
escape-decimal (negsuc n) h =
    let plain = plain_byte b'-' (omega arith) (omega arith) in
    rw plain (
      ap (λ t. b'-' ∷ t)
        (escape_digits (digits_loop 10 (n + 1) [])
          (digits_loop_lem 9 (n + 1) [] (omega (arith, h)) tt).1))

last_digits : (prev : ℕ) (s : Bytes) → prev ≢ b'\\' → All IsDigit s → last_byte prev s ≢ b'\\'
last_digits prev [] h d = h
last_digits prev (c ∷ s) h d = last_digits c s (λ e. absurd (omega (arith, d.0, e))) d.1

pub last-decimal : (z : ℤ) → IsInt z → last_byte b'{' (decimal z) ≢ b'\\'
unfolding decimal
last-decimal (pos n) h =
    last_digits b'{' (digits_loop 10 n []) (differs b'{' b'\\' refl)
      (digits_loop_lem 9 n [] (omega (arith, h)) tt).1
last-decimal (negsuc n) h =
    last_digits b'-' (digits_loop 10 (n + 1) []) (differs b'-' b'\\' refl)
      (digits_loop_lem 9 (n + 1) [] (omega (arith, h)) tt).1

digits_length :
    (k fuel n : ℕ) (out : Bytes)
    → n < tens (suc k)
    → length (digits_loop fuel n out) ≤ suc k + length out
unfolding digits_loop
digits_length k zero n out h = omega arith
digits_length zero (suc fuel) n out h =
    let small : ltb n 10 ≡ true = ground (arith, h) in rw small (omega arith)
digits_length (suc k) (suc fuel) n out h = elim (Bool-cases (ltb n 10)) [
  | inl small ↦ rw small (omega arith)
  | inr large ↦
      let rest = digits_length k fuel (n / 10) ((b'0' + n % 10) ∷ out) (omega (arith, h)) in
      rw large (omega (arith, rest))
]

-- A port has no more than five digits.
pub length-decimal : (n : ℕ) → n < 2 ^ 16 → length (decimal (pos n)) ≤ 5
unfolding decimal
length-decimal n h = omega (arith, digits_length 4 10 n [] (omega (arith, h)))
