-- ===== src/Text/Escape.antt =====
-- `make_escaped_string` and `make_unescaped_string`: what the new blocks hold, byte by byte.
use iomessage.Prelude.{
  ℕ, zero, suc, ◌+◌, ◌-◌, ◌≤◌, ◌≡◌, ◌≢◌, refl, sym, ap, ◌∙◌, [], ◌∷◌, ◌++◌, append_assoc,
  append-nil, arith, length, set, Bytes, none, some, true, false, length-append, ◌==◌, Bool-cases,
  inl, inr, if◌then◌else◌, tabulate, set-append, length-tabulate,
}
use iomessage.Text.{
  is_special, count_special, escape_loop, make_escaped_string, unescape_extra, unescape_loop,
  make_unescaped_string,
}

-- A backslash in front of each special byte.
abbrev pub escape : Bytes → Bytes
escape [] = []
escape (c ∷ cs) = if is_special c then b'\\' ∷ c ∷ escape cs else c ∷ escape cs

-- A backslash goes, and the byte behind it stays, whatever it is.
pub unescape : Bytes → Bytes
unescape [] = []
unescape (c ∷ []) = if c == b'\\' then [] else c ∷ []
unescape (c ∷ d ∷ cs) = elim (c == b'\\') [ true ↦ d ∷ unescape cs | false ↦ c ∷ unescape (d ∷ cs) ]

pub length-escape : (s : Bytes) → length (escape s) ≡ length s + count_special s
unfolding count_special
length-escape [] = omega arith
length-escape (c ∷ cs) = ground (arith, length-escape cs)

-- One byte more of a block is written, the part in front of it being done.
snoc-set :
    (pre : Bytes) (x : ℕ) (post : Bytes) (j v : ℕ)
    → j ≡ length pre
    → (set (pre ++ (x ∷ post)) j v ≡ (pre ++ (v ∷ [])) ++ post) × (j + 1 ≡ length (pre ++ (v ∷ [])))
snoc-set pre x post j v e = (
  set-append pre x post j v e ∙ sym (append_assoc pre (v ∷ []) post),
  omega (arith, length-append pre (v ∷ [])),
)

-- The loop writes `escape s` over as many bytes of the block.
escape_loop-escape :
    (s pre mid post : Bytes) (j : ℕ)
    → j ≡ length pre
    → length mid ≡ length (escape s)
    → escape_loop s j (pre ++ (mid ++ post)) ≡ pre ++ (escape s ++ post)
unfolding escape_loop
escape_loop-escape [] pre [] post j e h = refl
escape_loop-escape [] pre (x ∷ mid) post j e h = absurd (omega (arith, h))
escape_loop-escape (c ∷ cs) pre [] post j e h = ground arith
escape_loop-escape (c ∷ cs) pre (x ∷ []) post j e h =
    let first = snoc-set pre x post j c e in
    ground (
      arith,
      first,
      append_assoc pre (c ∷ []) (escape cs ++ post),
      escape_loop-escape cs (pre ++ (c ∷ [])) [] post (j + 1) first.1,
    )
escape_loop-escape (c ∷ cs) pre (x ∷ y ∷ mid) post j e h = elim (Bool-cases (is_special c)) [
  | inl special ↦
      let first = snoc-set pre x (y ∷ (mid ++ post)) j b'\\' e in
      let second = snoc-set (pre ++ (b'\\' ∷ [])) y (mid ++ post) (j + 1) c first.1 in
      ground (
        arith,
        first,
        second,
        append_assoc pre (b'\\' ∷ []) (c ∷ (escape cs ++ post)),
        append_assoc (pre ++ (b'\\' ∷ [])) (c ∷ []) (escape cs ++ post),
        escape_loop-escape cs ((pre ++ (b'\\' ∷ [])) ++ (c ∷ [])) mid post (j + 1 + 1) second.1,
      )
  | inr plain ↦
      let first = snoc-set pre x (y ∷ (mid ++ post)) j c e in
      ground (
        arith,
        first,
        append_assoc pre (c ∷ []) (escape cs ++ post),
        escape_loop-escape cs (pre ++ (c ∷ [])) (y ∷ mid) post (j + 1) first.1,
      )
]

tabulate_last : (n : ℕ) (f : ℕ → ℕ) → tabulate (n + 1) f ≡ tabulate n f ++ (f n ∷ [])
tabulate_last zero f = refl
tabulate_last (suc n) f =
    let e : suc n + 1 ≡ suc (n + 1) = omega arith in
    rw e (ap (λ t. f 0 ∷ t) (tabulate_last n (λ i. f (suc i))))

-- `make_escaped_string` fails exactly when `malloc` does. Else its block is one byte longer than the
-- escaped text, and that last byte, where the terminator belongs, is left as `malloc` gave it.
pub make_escaped_string_lem :
    (s : Bytes)
    → (make_escaped_string none s ≡ none)
      × ((f : ℕ → ℕ)
          → make_escaped_string (some f) s ≡ some (escape s ++ (f (length (escape s)) ∷ [])))
unfolding make_escaped_string
make_escaped_string_lem s = (refl, λ f. filled f)
  where
    filled :
        (f : ℕ → ℕ)
        → some (escape_loop s 0 (tabulate (length s + count_special s + 1) f))
          ≡ some (escape s ++ (f (length (escape s)) ∷ []))
    filled f =
        rw (← length-escape s, tabulate_last)
          (ap some (
            escape_loop-escape s [] (tabulate (length (escape s)) f) _ 0 refl
              (length-tabulate _ f)))

pub unescape_extra-le :
    (s : Bytes)
    → (unescape_extra s ≤ length s) × (length (unescape s) ≡ length s - unescape_extra s)
unfolding unescape unescape_extra
unescape_extra-le [] = omega arith
unescape_extra-le (c ∷ []) = ground arith
unescape_extra-le (c ∷ d ∷ cs) = ground (arith, unescape_extra-le cs, unescape_extra-le (d ∷ cs))

length-eq-zero : (s : Bytes) → length s ≡ 0 → s ≡ []
length-eq-zero [] h = refl
length-eq-zero (c ∷ s) h = absurd (omega (arith, h))

-- The loop writes `unescape s` and a NUL over as many bytes of the block.
unescape_loop-unescape :
    (s pre mid post : Bytes) (j : ℕ)
    → j ≡ length pre
    → length mid ≡ suc (length (unescape s))
    → unescape_loop s j (pre ++ (mid ++ post)) ≡ pre ++ (unescape s ++ (0 ∷ post))
unfolding unescape_loop unescape
unescape_loop-unescape s pre [] post j e h = absurd (omega (arith, h))
unescape_loop-unescape [] pre (x ∷ mid) post j e h =
    ground (arith, set-append pre x (mid ++ post) j 0 e, length-eq-zero mid)
unescape_loop-unescape (c ∷ []) pre (x ∷ []) post j e h =
    ground (arith, set-append pre x post j 0 e)
unescape_loop-unescape (c ∷ []) pre (x ∷ y ∷ mid) post j e h =
    let first = snoc-set pre x (y ∷ (mid ++ post)) j c e in
    ground (
      arith,
      set-append pre x (y ∷ (mid ++ post)) j 0 e,
      first,
      set-append (pre ++ (c ∷ [])) y (mid ++ post) (j + 1) 0 first.1,
      append_assoc pre (c ∷ []) (0 ∷ post),
      length-eq-zero mid,
    )
unescape_loop-unescape (c ∷ d ∷ cs) pre (x ∷ mid) post j e h =
    let kept = snoc-set pre x (mid ++ post) j d e in
    let plain = snoc-set pre x (mid ++ post) j c e in
    ground (
      arith,
      kept,
      plain,
      append_assoc pre (c ∷ []) (unescape (d ∷ cs) ++ (0 ∷ post)),
      append_assoc pre (d ∷ []) (unescape cs ++ (0 ∷ post)),
      unescape_loop-unescape (d ∷ cs) (pre ++ (c ∷ [])) mid post (j + 1) plain.1,
      unescape_loop-unescape cs (pre ++ (d ∷ [])) mid post (j + 1) kept.1,
    )

-- A byte that is not special is none of `ESCAPED_CHARS`.
pub not_special :
    (c : ℕ)
    → is_special c ≡ false
    → (c ≢ b'\\') × (c ≢ b'{') × (c ≢ b'}') × (c ≢ b'[') × (c ≢ b']') × (c ≢ b':') × (c ≢ b',')
unfolding is_special
not_special c h = ground arith

unescape-cons : (c : ℕ) (cs : Bytes) → c ≢ b'\\' → unescape (c ∷ cs) ≡ c ∷ unescape cs
unfolding unescape
unescape-cons c [] h = ground arith
unescape-cons c (d ∷ cs) h = ground arith

pub unescape-escape : (s : Bytes) → unescape (escape s) ≡ s
unfolding unescape
unescape-escape [] = refl
unescape-escape (c ∷ cs) = elim (Bool-cases (is_special c)) [
  | inl special ↦ ground (arith, unescape-escape cs)
  | inr plain ↦
      ground (arith, unescape-cons c (escape cs) (not_special c plain).0, unescape-escape cs)
]

-- `make_unescaped_string` fills its block to the last byte, with the text without its backslashes
-- and a terminator.
pub make_unescaped_string_lem :
    (f : ℕ → ℕ) (s : Bytes) → make_unescaped_string (some f) s ≡ some (unescape s ++ (0 ∷ []))
unfolding make_unescaped_string
make_unescaped_string_lem f s = ap some (
    rw (← append-nil (tabulate (length s - unescape_extra s + 1) f)) (
      unescape_loop-unescape s [] _ [] 0 refl
        (omega (arith, unescape_extra-le s, length-tabulate (length s - unescape_extra s + 1) f))))

-- Round trip: once the escaped text is read from the block of `make_escaped_string`, without the
-- byte behind it, `make_unescaped_string` gives back the bytes that were escaped, terminated.
pub unescape-make_escaped_string :
    (f g : ℕ → ℕ) (s : Bytes)
    → (t : Bytes) × (make_escaped_string (some f) s ≡ some (t ++ (f (length t) ∷ [])))
      × (make_unescaped_string (some g) t ≡ some (s ++ (0 ∷ [])))
unescape-make_escaped_string f g s = (
  escape s,
  (make_escaped_string_lem s).1 f,
  make_unescaped_string_lem g (escape s) ∙ ap (λ t. some (t ++ (0 ∷ []))) (unescape-escape s),
)
