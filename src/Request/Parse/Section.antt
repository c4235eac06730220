-- ===== src/Request/Parse/Section.antt =====
-- `get_type`, `get_params` and `get_payload`: the text between two braces.
use iomessage.Prelude.{
  ℕ, suc, ◌+◌, ◌%◌, ◌<◌, ◌^◌, ◌≡◌, refl, sym, Option, none, some, [], ◌∷◌, ◌++◌, arith,
  append_assoc, length, drop, get_or-append, Bytes, Option-cases, inl, inr, length-append,
  length-tabulate,
}
use iomessage.Text.{Cursor, sub_size, advance, get_substr, escaped_strchr}
use iomessage.Text.Copy.{IsText, get_substr_lem}
use iomessage.Memory.{Os, fresh_bytes}
use iomessage.Memory.Runs.{Runs, Failed, Later}
use iomessage.Arena.{Arena}
use iomessage.Arena.Valid.{IsArena}
use iomessage.Arena.Calls.{IsSetup, arena_alloc_runs}
use iomessage.Request.Types.{text_of}
use iomessage.Request.Types.Names.{text_of-text}
use iomessage.Request.Parse.{get_type}

-- A text in braces, with something in front of it and something behind.
abbrev pub braced : Bytes → Bytes → Bytes → Bytes
braced pre body rest = pre ++ (b'{' ∷ (body ++ (b'}' ∷ rest)))

drop-braced :
    (pre body rest : Bytes) → drop (suc (length pre)) (braced pre body rest) ≡ body ++ (b'}' ∷ rest)
drop-braced [] body rest = refl
drop-braced (c ∷ pre) body rest = drop-braced pre body rest

drop_behind : (xs : Bytes) (c : ℕ) (ys : Bytes) → drop (suc (length xs)) (xs ++ (c ∷ ys)) ≡ ys
drop_behind [] c ys = refl
drop_behind (x ∷ xs) c ys = drop_behind xs c ys

-- The braced text as one text with the closing brace behind it.
closing : (pre body rest : Bytes) → braced pre body rest ≡ (pre ++ (b'{' ∷ body)) ++ (b'}' ∷ rest)
closing pre body rest = sym (append_assoc pre (b'{' ∷ body) (b'}' ∷ rest))

advance_lem :
    (front : ℕ) (pre body rest : Bytes)
    → advance
        (record { before = front; text = braced pre body rest })
        (suc (length pre + suc (length body)))
      ≡ record { before = b'}'; text = rest }
advance_lem front pre body rest =
    let n : length pre + suc (length body) ≡ length (pre ++ (b'{' ∷ body)) =
      omega (arith, length-append pre (b'{' ∷ body)) in
    let c = closing pre body rest in
    let g = get_or-append (pre ++ (b'{' ∷ body)) b'}' rest _ 0 refl in
    let d = drop_behind (pre ++ (b'{' ∷ body)) b'}' rest in rw (n, c, g, d) refl

-- What a section must come to: NULL, with an allocation of this call that failed and the cursor as it was, or the text,
-- and the cursor at `next`. The arena stays in order.
abbrev pub IsSection :
    (ℕ → ℕ → Option ℕ) → ℕ → Cursor → Bytes → Cursor → Option Bytes → Cursor → Arena → Os → Type 0
IsSection answers from start body next none cursor b os' =
    (cursor ≡ start) × Failed answers from os'.calls × IsArena b × Later answers from os'
IsSection answers from start body next (some text) cursor b os' =
    (text ≡ body) × (cursor ≡ next) × IsArena b × Later answers from os'

module _ (max_align : ℕ) (answers : ℕ → ℕ → Option ℕ) (setup : IsSetup max_align answers) where
  -- Where the first brace that opens and the first that closes, of those not escaped, are those of a
  -- text in braces, `get_type` returns the text and leaves the cursor behind the closing brace, unless
  -- an allocation of its own fails. `get_params` and `get_payload` have the same body.
  pub get_type-IsSection :
      (front : ℕ) (pre body rest : Bytes) (arena : Arena) (os : Os)
      → escaped_strchr (record { before = front; text = braced pre body rest }) b'{'
        ≡ some (length pre)
      → escaped_strchr (record { before = front; text = braced pre body rest }) b'}'
        ≡ some (length pre + suc (length body))
      → IsText body
      → length pre + length body < 2 ^ 59
      → IsArena arena
      → os.answers ≡ answers
      → Runs
          (get_type max_align arena (record { before = front; text = braced pre body rest }) os)
          (λ r.
            IsSection answers os.calls
              (record { before = front; text = braced pre body rest })
              body
              (record { before = b'}'; text = rest })
              r.0
              r.1
              r.2)
  unfolding get_type
  get_type-IsSection front pre body rest arena os opens closes h short v same =
      let n : sub_size (length pre + suc (length body)) (suc (length pre)) ≡ length body =
        omega (arith, short) in
      let m : (length body + 1) % 2 ^ 64 ≡ length body + 1 = omega (arith, short) in
      let ((block, b), os1, run, got) =
        arena_alloc_runs max_align answers setup arena (length body + 1) os v (omega arith)
          (omega (arith, short)) same in
      elim (Option-cases block) [
        | inl e ↦
            let (refused, w, kept) = rw e at got in
            (
              (none, record { before = front; text = braced pre body rest }, b),
              os1,
              ground (arith, opens, closes, n, m, run, e),
              (refl, refused, w, kept),
            )
        | inr (s, e) ↦
            let (w, kept) = rw e at got in
            let t : text_of
                  (get_substr (fresh_bytes s (length body + 1) os1) (body ++ (b'}' ∷ rest))
                    (length body) (length body + 1)).0
                ≡ body =
              rw
                (get_substr_lem (fresh_bytes s (length body + 1) os1) body (b'}' ∷ rest)
                  (length body + 1) h (omega arith)
                  (omega (arith, length-tabulate (length body + 1) (λ i. os1.garbage (s + i)))))
                (text_of-text body _ h) in
            (
              (some body, record { before = b'}'; text = rest }, b),
              os1,
              ground (
                arith,
                opens,
                closes,
                n,
                m,
                run,
                e,
                drop-braced pre body rest,
                t,
                advance_lem front pre body rest,
              ),
              (refl, refl, w, kept),
            )
      ]
