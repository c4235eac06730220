-- ===== src/Text/Find.antt =====
-- `escaped_strchr`: its loop is the search for the first byte that no backslash stands in front of.
use iomessage.Prelude.{
  Option-cases, ℕ, zero, suc, ◌+◌, ◌<◌, ◌≡◌, ◌≢◌, refl, [], ◌∷◌, arith, length, drop, Bytes, Option,
  none, some, ◌==◌, Bool-cases, inl, inr, if◌then◌else◌, not, ◌&&◌, length-drop,
}
use iomessage.Text.{
  Cursor, byte_at, prev_byte, advance, strchr, is_escaped, shift, escaped_loop, escaped_strchr,
}

-- One pass over the text, with the byte in front of it in hand.
unfoldable pub find_unescaped : ℕ → Bytes → ℕ → Option ℕ
find_unescaped prev [] ch = none
find_unescaped prev (c ∷ cs) ch =
    if c == ch && not (prev == b'\\') then some 0 else shift 1 (find_unescaped c cs ch)

abbrev at : ℕ → Bytes → Cursor
at prev t = record { before = prev; text = t }

-- What one call of `strchr` says of the search.
find-strchr-none :
    (prev : ℕ) (t : Bytes) (ch : ℕ) → strchr t ch ≡ none → find_unescaped prev t ch ≡ none
unfolding strchr find_unescaped
find-strchr-none prev [] ch h = refl
find-strchr-none prev (c ∷ cs) ch h = ground (arith, find-strchr-none c cs ch)

find-strchr-some :
    (prev : ℕ) (t : Bytes) (ch k : ℕ)
    → strchr t ch ≡ some k
    → (k < length t)
      × (find_unescaped prev t ch ≡ (
          if is_escaped (at prev t) k
          then shift (suc k) (find_unescaped (byte_at t k) (drop (suc k) t) ch)
          else some k))
unfolding strchr find_unescaped
find-strchr-some prev [] ch k h = cc
find-strchr-some prev (c ∷ cs) ch zero h = ground (arith, find-strchr-some c cs ch 0)
find-strchr-some prev (c ∷ cs) ch (suc zero) h = ground (arith, find-strchr-some c cs ch 0)
find-strchr-some prev (c ∷ cs) ch (suc (suc k)) h = ground (arith, find-strchr-some c cs ch (suc k))

escaped_loop-find :
    (fuel : ℕ) (p : Cursor) (ch : ℕ)
    → length p.text < fuel
    → escaped_loop fuel p ch ≡ find_unescaped p.before p.text ch
unfolding escaped_loop
escaped_loop-find zero p ch h = absurd (omega arith)
escaped_loop-find (suc fuel) p ch h = elim (Option-cases (strchr p.text ch)) [
  | inl none_found ↦ ground (arith, find-strchr-none p.before p.text ch none_found)
  | inr (k, found) ↦
      let (lt, e) = find-strchr-some p.before p.text ch k found in
      ground (arith, e, length-drop (suc k) p.text, escaped_loop-find fuel (advance p (suc k)) ch)
]

pub escaped_strchr-find :
    (p : Cursor) (ch : ℕ) → escaped_strchr p ch ≡ find_unescaped p.before p.text ch
unfolding escaped_strchr
escaped_strchr-find p ch = escaped_loop-find (suc (length p.text)) p ch (omega arith)

-- The byte at `p + k` is `ch`, inside the text, with no backslash in front of it.
abbrev pub IsUnescaped : Cursor → ℕ → ℕ → Type 0
IsUnescaped p ch k = (k < length p.text) × (byte_at p.text k ≡ ch) × (prev_byte p k ≢ b'\\')

-- What a search for `ch` from `p` must answer.
abbrev pub Finds : Cursor → ℕ → Option ℕ → Type 0
Finds p ch none = (j : ℕ) → ¬ IsUnescaped p ch j
Finds p ch (some k) = IsUnescaped p ch k × ((j : ℕ) → j < k → ¬ IsUnescaped p ch j)

module _ (prev c ch : ℕ) (cs : Bytes) where
  IsUnescaped-tail :
      (j : ℕ) → IsUnescaped (at prev (c ∷ cs)) ch (suc j) → IsUnescaped (at c cs) ch j
  IsUnescaped-tail zero u = (omega (arith, u.0), u.1, u.2)
  IsUnescaped-tail (suc j) u = (omega (arith, u.0), u.1, u.2)

  IsUnescaped-cons :
      (j : ℕ) → IsUnescaped (at c cs) ch j → IsUnescaped (at prev (c ∷ cs)) ch (suc j)
  IsUnescaped-cons zero u = (omega (arith, u.0), u.1, u.2)
  IsUnescaped-cons (suc j) u = (omega (arith, u.0), u.1, u.2)

  Finds-cons :
      (o : Option ℕ)
      → ¬ IsUnescaped (at prev (c ∷ cs)) ch 0
      → Finds (at c cs) ch o
      → Finds (at prev (c ∷ cs)) ch (shift 1 o)
  Finds-cons none here rest = elim [ zero ↦ here | suc j ↦ λ u. rest j (IsUnescaped-tail j u) ]
  Finds-cons (some k) here rest =
      let e : suc k ≡ 1 + k = omega arith in
      rw (← e) (
        IsUnescaped-cons k rest.0,
        elim [
          | zero ↦ λ lt. here
          | suc j ↦ λ lt u. rest.1 j (omega (arith, lt)) (IsUnescaped-tail j u)
        ],
      )

find-Finds : (prev : ℕ) (t : Bytes) (ch : ℕ) → Finds (at prev t) ch (find_unescaped prev t ch)
unfolding find_unescaped
find-Finds prev [] ch = λ j u. absurd (omega (arith, u.0))
find-Finds prev (c ∷ cs) ch = elim (Bool-cases (c == ch && not (prev == b'\\'))) [
  | inl hit ↦ rw hit ((omega arith, ground arith, ground arith), λ j lt. absurd (omega (arith, lt)))
  | inr miss ↦ rw miss (Finds-cons prev c ch cs _ (λ u. ground (arith, u)) (find-Finds c cs ch))
]

-- `escaped_strchr` returns the first occurrence of the byte that has no backslash in front of it,
-- and NULL exactly when the text has none.
pub escaped_strchr-Finds : (p : Cursor) (ch : ℕ) → Finds p ch (escaped_strchr p ch)
escaped_strchr-Finds p ch = rw escaped_strchr-find (find-Finds p.before p.text ch)
