-- ===== src/Config/Numbers.antt =====
-- `get_num_property`: the number of a value that was printed with `%d`.
use iomessage.Prelude.{
  ℕ, suc, ◌+◌, ◌-◌, ◌*◌, ◌^◌, ◌<◌, ◌≡◌, refl, ap, ◌∙◌, ◌⊎◌, inl, inr, Bool-cases, ◌==◌, arith, Bool,
  true, some, List, [], ◌∷◌, All, Bytes,
}
use iomessage.Request.Types.{ℤ, pos, negsuc}
use iomessage.Response.{digits_loop, decimal}
use iomessage.Response.Decimal.{value, IsDigit, digits_loop_lem}
use iomessage.Config.{
  Property, property_list_def, property_val, digits_value, long, strtol, abs_size, number,
  get_num_property, Loaded, loaded, init_properties_by_file,
}
use iomessage.Config.Lines.{Line, print_lines, IsLine, value_after}
use iomessage.Config.Load.{init_properties_by_file-IsConfigured}

-- The numbers that a `long` holds: 32 bits with a sign.
abbrev pub IsLong : ℤ → Type 0
IsLong (pos n) = n < 2 ^ 31
IsLong (negsuc n) = n < 2 ^ 31

digits_value-value : (n : ℕ) (s : Bytes) → All IsDigit s → digits_value n s ≡ value n s
unfolding digits_value
digits_value-value n [] h = refl
digits_value-value n (c ∷ s) h = ground (arith, h.0, digits_value-value (n * 10 + (c - b'0')) s h.1)

strtol-digits :
    (s : Bytes) (n : ℕ) → All IsDigit s → value 0 s ≡ n → n < 2 ^ 31 → strtol s ≡ long (pos n)
unfolding strtol
strtol-digits [] n h e lt = ap (λ k. long (pos k)) e
strtol-digits (c ∷ s) n h e lt = ground (arith, h.0, digits_value-value 0 (c ∷ s) h, e, lt)

pub strtol-decimal : (z : ℤ) → IsLong z → strtol (decimal z) ≡ long z
unfolding decimal strtol
strtol-decimal (pos n) h =
    let (same, digits) = digits_loop_lem 9 n [] (omega (arith, h)) tt in
    strtol-digits (digits_loop 10 n []) n digits same h
strtol-decimal (negsuc n) h =
    let (same, digits) = digits_loop_lem 9 (n + 1) [] (omega (arith, h)) tt in
    let e : digits_value 0 (digits_loop 10 (n + 1) []) ≡ suc n =
      digits_value-value 0 (digits_loop 10 (n + 1) []) digits ∙ same ∙ omega arith in
    ground (arith, e, h)

-- The size that a number is to give: its distance from 0, but that of the least number, which has no
-- positive counterpart as an `int`, as it is when widened to 64 bits.
abbrev pub IsMagnitude : ℤ → ℕ → Type 0
IsMagnitude (pos n) size = size ≡ n
IsMagnitude (negsuc n) size =
    ((n + 1 < 2 ^ 31) × (size ≡ n + 1)) ⊎ ((n + 1 ≡ 2 ^ 31) × (size + 2 ^ 31 ≡ 2 ^ 64))

abs_size-IsMagnitude : (z : ℤ) → IsLong z → IsMagnitude z (abs_size z)
abs_size-IsMagnitude (pos n) h = refl
abs_size-IsMagnitude (negsuc n) h = elim (Bool-cases (n == 2 ^ 31 - 1)) [
  | inl least ↦ inr (ground (arith, least), ground (arith, least))
  | inr other ↦ inl (ground (arith, other, h), ground (arith, other))
]

-- What a number in the configuration comes to.
abbrev pub GivesNumber : Bytes → ℤ → ℕ × Loaded → Type 0
GivesNumber name z r =
    (ps : List Property) × (size : ℕ) × (r.1 ≡ loaded ps)
    × (get_num_property ps name ≡ number size)
    × IsMagnitude z size

get_num_property-decimal :
    (ps : List Property) (name : Bytes) (z : ℤ)
    → IsLong z
    → property_val ps name ≡ some (decimal z)
    → get_num_property ps name ≡ number (abs_size z)
unfolding get_num_property
get_num_property-decimal ps name z h e = ground (arith, e, strtol-decimal z h)

-- If what the lines of the file leave for a name is a number of 32 bits with a sign, as `%d` prints it,
-- then `get_num_property`, after `init_properties_by_file`, answers its distance from 0; but for the least
-- of these numbers, -2^31, it answers 2^64 - 2^31.
pub get_num_property-GivesNumber :
    (gives : ℕ → Bool) (ls : List Line) (name : Bytes) (z : ℤ)
    → ((i : ℕ) → gives i ≡ true)
    → All IsLine ls
    → IsLong z
    → value_after name ls (property_val property_list_def name) ≡ some (decimal z)
    → GivesNumber name z (init_properties_by_file gives (some (print_lines ls)))
get_num_property-GivesNumber gives ls name z g h small e =
    let (zeros, (ps, ends, all)) = init_properties_by_file-IsConfigured gives ls g h in
    (
      ps,
      abs_size z,
      ends,
      get_num_property-decimal ps name z small (all name ∙ e),
      abs_size-IsMagnitude z small,
    )
