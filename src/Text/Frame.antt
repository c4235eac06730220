-- ===== src/Text/Frame.antt =====
-- Escaped text between delimiters: what `escaped_strchr` finds behind it.
use iomessage.Prelude.{
  ℕ, ◌+◌, ◌≡◌, ◌≢◌, refl, ap, [], ◌∷◌, ◌++◌, arith, length, Bytes, Option, none, some, true, ◌==◌,
  Bool-cases, inl, inr, if◌then◌else◌,
}
use iomessage.Text.{is_special, escaped_strchr, shift}
use iomessage.Text.Find.{find_unescaped, escaped_strchr-find}
use iomessage.Text.Escape.{escape}

-- The last byte of a text, or `prev` if there is none.
abbrev pub last_byte : ℕ → Bytes → ℕ
last_byte prev [] = prev
last_byte prev (c ∷ cs) = last_byte c cs

pub shift_zero : (o : Option ℕ) → shift 0 o ≡ o
shift_zero none = refl
shift_zero (some k) = ap some (omega arith)

pub shift-shift : (a b : ℕ) (o : Option ℕ) → shift a (shift b o) ≡ shift (a + b) o
shift-shift a b none = refl
shift-shift a b (some k) = ap some (omega arith)

find-escape :
    (prev d : ℕ) (s rest : Bytes)
    → is_special d ≡ true
    → d ≢ b'\\'
    → find_unescaped prev (escape s ++ (d ∷ rest)) d ≡ (
        if last_byte prev s == b'\\'
        then shift (length (escape s) + 1) (find_unescaped d rest d)
        else some (length (escape s)))
unfolding find_unescaped
find-escape prev d [] rest h n = ground (arith, shift_zero (find_unescaped d rest d))
find-escape prev d (c ∷ cs) rest h n = elim (Bool-cases (is_special c)) [
  | inl special ↦ ground (
    arith,
    find-escape c d cs rest h n,
    shift-shift 1 1 (find_unescaped c (escape cs ++ (d ∷ rest)) d),
    shift-shift 2 (length (escape cs) + 1) (find_unescaped d rest d),
  )
  | inr plain ↦
      let other : c ≢ d = λ e. cc in
      ground (
        arith,
        find-escape c d cs rest h n,
        shift-shift 1 (length (escape cs) + 1) (find_unescaped d rest d),
      )
]

-- Nothing is found inside an escaped text.
pub find-escape_over :
    (prev d : ℕ) (s t : Bytes)
    → is_special d ≡ true
    → d ≢ b'\\'
    → find_unescaped prev (escape s ++ t) d
      ≡ shift (length (escape s)) (find_unescaped (last_byte prev s) t d)
unfolding find_unescaped
find-escape_over prev d [] t h n = ground (arith, shift_zero (find_unescaped prev t d))
find-escape_over prev d (c ∷ cs) t h n = elim (Bool-cases (is_special c)) [
  | inl special ↦ ground (
    arith,
    find-escape_over c d cs t h n,
    shift-shift 1 1 (find_unescaped c (escape cs ++ t) d),
    shift-shift 2 (length (escape cs)) (find_unescaped (last_byte c cs) t d),
  )
  | inr plain ↦
      let other : c ≢ d = λ e. cc in
      ground (
        arith,
        find-escape_over c d cs t h n,
        shift-shift 1 (length (escape cs)) (find_unescaped (last_byte c cs) t d),
      )
]

-- Escaping hides the delimiters of a text: from an unescaped place, the delimiter that is found is
-- the one behind the escaped text, if the text does not end in a backslash.
pub escaped_strchr-escape :
    (before d : ℕ) (s rest : Bytes)
    → is_special d ≡ true
    → d ≢ b'\\'
    → last_byte before s ≢ b'\\'
    → escaped_strchr (record { before = before; text = escape s ++ (d ∷ rest) }) d
      ≡ some (length (escape s))
escaped_strchr-escape before d s rest h n last =
    rw escaped_strchr-find (ground (arith, find-escape before d s rest h n))

-- Where the text ends in a backslash, the delimiter behind its escaped form is taken for escaped
-- and passed over, though both backslashes are the text's: the search goes on behind it.
pub escaped_strchr-escape_backslash :
    (before d : ℕ) (s rest : Bytes)
    → is_special d ≡ true
    → d ≢ b'\\'
    → last_byte before s ≡ b'\\'
    → escaped_strchr (record { before = before; text = escape s ++ (d ∷ rest) }) d
      ≡ shift (length (escape s) + 1) (escaped_strchr (record { before = d; text = rest }) d)
escaped_strchr-escape_backslash before d s rest h n last = rw escaped_strchr-find (
    ground (
      arith,
      find-escape before d s rest h n,
      escaped_strchr-find (record { before = d; text = rest }) d,
    ))
