-- ===== src/Text.antt =====
-- The text helpers of server/src/utils.c: `copy_str`, `get_substr`, `is_escaped`, `escaped_strchr`,
-- `make_escaped_string` and `make_unescaped_string`.
-- A text is the list of its bytes, its NUL left off; a buffer is the list of the bytes of a block.
pub mod Copy
pub mod Find
pub mod Escape
pub mod Frame
pub mod Tests
use iomessage.Prelude.{
  ℕ, zero, suc, ◌+◌, ◌-◌, ◌%◌, ◌^◌, Bool, true, false, Option, none, some, List, [], ◌∷◌, ◌==◌,
  if◌then◌else◌, length, get_or, set, drop, Bytes, tabulate,
}

-- `size_t` subtraction wraps.
abbrev pub sub_size : ℕ → ℕ → ℕ
sub_size a b = (a + 2 ^ 64 - b) % 2 ^ 64

-- `s[i]`, the terminator included
abbrev pub byte_at : Bytes → ℕ → ℕ
byte_at s i = get_or s i 0

-- A pointer into a text: the byte in front of it, and the text from it on.
pub record Cursor : Type 0 where
  pub before : ℕ
  pub text : Bytes

-- `p[k - 1]`
abbrev pub prev_byte : Cursor → ℕ → ℕ
prev_byte p zero = p.before
prev_byte p (suc k) = byte_at p.text k

-- `p + k`
abbrev pub advance : Cursor → ℕ → Cursor
advance p k = record { before = prev_byte p k; text = drop k p.text }

-- The rounds left, `len - 1 - i`, bound the loop; `i` is the index that is written next.
pub copy_loop : ℕ → Bytes → ℕ → Bytes → Bytes × ℕ
copy_loop zero dst i src = (set dst i 0, i)
copy_loop (suc n) dst i [] = (set dst i 0, sub_size i 1)
copy_loop (suc n) dst i (c ∷ cs) = copy_loop n (set dst i c) (i + 1) cs

-- The buffer after the call, and what the call returns.
unfoldable pub copy_str : Bytes → Bytes → ℕ → Bytes × ℕ
unfolding copy_loop
copy_str dst src len = copy_loop (sub_size len 1) dst 0 src

abbrev substr_end : ℕ → Bytes → ℕ → Bytes × ℕ
substr_end zero dst j = (set dst (sub_size j 1) 0, sub_size j 1)
substr_end (suc r) dst j = (set dst j 0, j)

-- `src_start + i` runs up to `src_end`, which is `src_start + n`; the rounds left are `len - j`.
pub substr_loop : ℕ → Bytes → ℕ → Bytes → ℕ → ℕ → Bytes × ℕ
substr_loop zero dst j src i n = substr_end zero dst j
substr_loop (suc r) dst j src i n =
    let c = byte_at src i in
    let dst' = set dst j c in
    let rest = substr_loop r dst' (j + 1) src (i + 1) n in
    if i == n then substr_end (suc r) dst j else if c == 0 then (dst', j) else rest

-- `get_substr dst src n len` copies from `src` up to `src + n`.
unfoldable pub get_substr : Bytes → Bytes → ℕ → ℕ → Bytes × ℕ
unfolding substr_loop
get_substr dst src n len = substr_loop len dst 0 src 0 n

-- An offset counted from a place `n` bytes further back; NULL stays NULL.
abbrev pub shift : ℕ → Option ℕ → Option ℕ
shift n none = none
shift n (some k) = some (n + k)

-- `strchr`, as an offset. No caller looks for the terminator.
unfoldable pub strchr : Bytes → ℕ → Option ℕ
strchr [] ch = none
strchr (c ∷ cs) ch = if c == ch then some 0 else shift 1 (strchr cs ch)

-- Whether the byte at `p + k` has a backslash in front of it.
abbrev pub is_escaped : Cursor → ℕ → Bool
is_escaped p k = prev_byte p k == b'\\'

-- Each round leaves at least one byte behind, so that one round more than the bytes is enough.
pub escaped_loop : ℕ → Cursor → ℕ → Option ℕ
unfolding strchr
escaped_loop zero p ch = none
escaped_loop (suc fuel) p ch = elim (strchr p.text ch) [
  | none ↦ none
  | some k ↦
      let rest = escaped_loop fuel (advance p (suc k)) ch in
      if is_escaped p k then shift (suc k) rest else some k
]

-- The offset of what `escaped_strchr` points to.
unfoldable pub escaped_strchr : Cursor → ℕ → Option ℕ
unfolding escaped_loop
escaped_strchr p ch = escaped_loop (suc (length p.text)) p ch

-- `ESCAPED_CHARS`
abbrev pub escaped_chars : Bytes
escaped_chars = b'\\' ∷ b'{' ∷ b'}' ∷ b'[' ∷ b']' ∷ b':' ∷ b',' ∷ []

unfoldable pub is_special : ℕ → Bool
unfolding strchr
is_special c = elim (strchr escaped_chars c) [ none ↦ false | some _ ↦ true ]

pub count_special : Bytes → ℕ
count_special [] = 0
count_special (c ∷ cs) = (if is_special c then 1 else 0) + count_special cs

pub escape_loop : Bytes → ℕ → Bytes → Bytes
escape_loop [] j buf = buf
escape_loop (c ∷ cs) j buf =
    let j' = if is_special c then j + 1 else j in
    let buf' = if is_special c then set buf j b'\\' else buf in
    escape_loop cs (j' + 1) (set buf' j' c)

-- `malloc` returns NULL (`none`) or a block whose byte `i` is `f i`. The result is the block.
unfoldable pub make_escaped_string : Option (ℕ → ℕ) → Bytes → Option Bytes
unfolding count_special escape_loop is_special
make_escaped_string none s = none
make_escaped_string (some f) s =
    some (escape_loop s 0 (tabulate (length s + count_special s + 1) f))

pub unescape_extra : Bytes → ℕ
unescape_extra [] = 0
unescape_extra (c ∷ []) = if c == b'\\' then 1 else 0
unescape_extra (c ∷ d ∷ cs) = elim (c == b'\\') [
  | true ↦ suc (unescape_extra cs)
  | false ↦ unescape_extra (d ∷ cs)
]

pub unescape_loop : Bytes → ℕ → Bytes → Bytes
unescape_loop [] j buf = set buf j 0
unescape_loop (c ∷ []) j buf = if c == b'\\' then set buf j 0 else set (set buf j c) (j + 1) 0
unescape_loop (c ∷ d ∷ cs) j buf = elim (c == b'\\') [
  | true ↦ unescape_loop cs (j + 1) (set buf j d)
  | false ↦ unescape_loop (d ∷ cs) (j + 1) (set buf j c)
]

unfoldable pub make_unescaped_string : Option (ℕ → ℕ) → Bytes → Option Bytes
unfolding unescape_extra unescape_loop
make_unescaped_string none s = none
make_unescaped_string (some f) s =
    some (unescape_loop s 0 (tabulate (length s - unescape_extra s + 1) f))
