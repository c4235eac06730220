-- ===== src/Text/Copy.antt =====
-- What `copy_str` and `get_substr` leave in the whole buffer, and what they return.
use iomessage.Prelude.{
  ℕ, zero, suc, ◌+◌, ◌-◌, ◌^◌, ◌≤◌, ◌<◌, ◌≡◌, refl, List, [], ◌∷◌, ◌++◌, append_assoc, arith,
  length, take, drop, set-append, get_or-append, All, Bytes, length-append,
}
use iomessage.Text.{sub_size, copy_loop, copy_str, substr_loop, get_substr}

-- No byte of a text is NUL.
abbrev pub IsText : Bytes → Type 0
IsText s = All (λ c. 0 < c) s

length-snoc {ℓ} :
    {A : Type ℓ} (pre : List A) (c : A) {i : ℕ} → i ≡ length pre → i + 1 ≡ length (pre ++ (c ∷ []))
length-snoc pre c e = omega (arith, length-append pre (c ∷ []))

copy_loop_lem :
    (n : ℕ) (pre rest src : Bytes) (i : ℕ)
    → i ≡ length pre
    → n < length rest
    → (copy_loop n (pre ++ rest) i src).0
      ≡ pre ++ (take n src ++ (0 ∷ drop (suc (length (take n src))) rest))
unfolding copy_loop
copy_loop_lem n pre [] src i e h = absurd (omega arith)
copy_loop_lem zero pre (x ∷ rest) src i e h = set-append pre x rest i 0 e
copy_loop_lem (suc n) pre (x ∷ rest) [] i e h = set-append pre x rest i 0 e
copy_loop_lem (suc n) pre (x ∷ rest) (c ∷ src) i e h = ground (
  arith,
  set-append pre x rest i c e,
  copy_loop_lem n (pre ++ (c ∷ [])) rest src (i + 1) (length-snoc pre c e) (omega arith),
  append_assoc pre (c ∷ []) rest,
  append_assoc pre (c ∷ []) (take n src ++ (0 ∷ drop (suc (length (take n src))) rest)),
)

-- With room for `len` bytes, `copy_str` leaves the first `len - 1` bytes of the text and a NUL, and
-- no byte behind the NUL changes.
pub copy_str_lem :
    (dst src : Bytes) (len : ℕ)
    → 0 < len
    → len ≤ length dst
    → len < 2 ^ 64
    → (copy_str dst src len).0
      ≡ take (len - 1) src ++ (0 ∷ drop (suc (length (take (len - 1) src))) dst)
unfolding copy_str
copy_str_lem dst src len pos room small =
    let e : sub_size len 1 ≡ len - 1 = omega arith in
    rw e (copy_loop_lem (len - 1) [] dst src 0 refl (omega arith))

substr_loop_lem :
    (r : ℕ) (pre rest front mid back : Bytes) (j i n : ℕ)
    → j ≡ length pre
    → i ≡ length front
    → n ≡ i + length mid
    → IsText mid
    → length mid < r
    → length mid < length rest
    → substr_loop r (pre ++ rest) j (front ++ (mid ++ back)) i n
      ≡ (pre ++ (mid ++ (0 ∷ drop (suc (length mid)) rest)), j + length mid)
unfolding substr_loop
substr_loop_lem r pre [] front mid back j i n ej ei en t hr h = absurd (omega arith)
substr_loop_lem zero pre (x ∷ rest) front mid back j i n ej ei en t hr h = absurd (omega arith)
substr_loop_lem (suc r) pre (x ∷ rest) front [] back j i n ej ei en t hr h =
    ground (arith, set-append pre x rest j 0 ej)
substr_loop_lem (suc r) pre (x ∷ rest) front (c ∷ mid) back j i n ej ei en t hr h = ground (
  arith,
  set-append pre x rest j c ej,
  get_or-append front c (mid ++ back) i 0 ei,
  substr_loop_lem r (pre ++ (c ∷ [])) rest (front ++ (c ∷ [])) mid back (j + 1) (i + 1) n
      (length-snoc pre c ej) (length-snoc front c ei) (omega arith) t.1 (omega arith) (omega arith),
  append_assoc pre (c ∷ []) rest,
  append_assoc front (c ∷ []) (mid ++ back),
  append_assoc pre (c ∷ []) (mid ++ (0 ∷ drop (suc (length mid)) rest)),
)

-- With room for `len` bytes and `n < len`, `get_substr` copies the `n` bytes of the text, writes a
-- NUL behind them, changes no byte behind that, and returns `n`.
pub get_substr_lem :
    (dst mid back : Bytes) (len : ℕ)
    → IsText mid
    → length mid < len
    → len ≤ length dst
    → get_substr dst (mid ++ back) (length mid) len
      ≡ (mid ++ (0 ∷ drop (suc (length mid)) dst), length mid)
unfolding get_substr
get_substr_lem dst mid back len t h room = ground (
  arith,
  substr_loop_lem len [] dst [] mid back 0 0 (length mid) refl refl (omega arith) t h (omega arith),
)

-- Where the text ends before the room does, nothing behind its terminator is written.
copy_loop_stops :
    (n : ℕ) (pre rest src : Bytes) (i : ℕ)
    → i ≡ length pre
    → length src ≤ n
    → length src < length rest
    → (copy_loop n (pre ++ rest) i src).0 ≡ pre ++ (src ++ (0 ∷ drop (suc (length src)) rest))
unfolding copy_loop
copy_loop_stops n pre [] src i e h room = absurd (omega arith)
copy_loop_stops zero pre (x ∷ rest) [] i e h room = set-append pre x rest i 0 e
copy_loop_stops zero pre (x ∷ rest) (c ∷ src) i e h room = absurd (omega arith)
copy_loop_stops (suc n) pre (x ∷ rest) [] i e h room = set-append pre x rest i 0 e
copy_loop_stops (suc n) pre (x ∷ rest) (c ∷ src) i e h room = ground (
  arith,
  set-append pre x rest i c e,
  copy_loop_stops n (pre ++ (c ∷ [])) rest src (i + 1) (length-snoc pre c e) (omega arith)
      (omega arith),
  append_assoc pre (c ∷ []) rest,
  append_assoc pre (c ∷ []) (src ++ (0 ∷ drop (suc (length src)) rest)),
)

-- `copy_str` with more room promised than there is copies a text that fits.
pub copy_str_stops :
    (dst src : Bytes) (len : ℕ)
    → length src < len
    → length src < length dst
    → len < 2 ^ 64
    → (copy_str dst src len).0 ≡ src ++ (0 ∷ drop (suc (length src)) dst)
unfolding copy_str
copy_str_stops dst src len h room small =
    let e : sub_size len 1 ≡ len - 1 = omega (arith, h) in
    rw e (copy_loop_stops (len - 1) [] dst src 0 refl (omega (arith, h)) room)

-- `get_substr` with more room promised than there is copies bytes that fit.
pub get_substr_fits :
    (dst mid back : Bytes) (len : ℕ)
    → IsText mid
    → length mid < len
    → length mid < length dst
    → get_substr dst (mid ++ back) (length mid) len
      ≡ (mid ++ (0 ∷ drop (suc (length mid)) dst), length mid)
unfolding get_substr
get_substr_fits dst mid back len t h room = ground (
  arith,
  substr_loop_lem len [] dst [] mid back 0 0 (length mid) refl refl (omega arith) t h room,
)
