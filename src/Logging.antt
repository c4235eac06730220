-- ===== src/Logging.antt =====
-- server/src/utils.c: `src_and_replace`, which the log uses to begin each line with the kind of message.
pub mod Parts
pub mod Replace
pub mod Tests
use iomessage.Prelude.{
  ℕ, zero, suc, ◌+◌, ◌*◌, ◌%◌, ◌^◌, Bool, true, false, ◌&&◌, Option, none, some, [], ◌∷◌, ◌++◌,
  ◌==◌, if◌then◌else◌, length, take, drop, Bytes, tabulate,
}
use iomessage.Text.{sub_size, shift, copy_str, get_substr}
use iomessage.Request.Types.{text_of}

-- `strstr`, as an offset
abbrev pub is_prefix : Bytes → Bytes → Bool
is_prefix [] s = true
is_prefix (c ∷ cs) [] = false
is_prefix (c ∷ cs) (d ∷ ds) = (d == c) && is_prefix cs ds

pub strstr : Bytes → Bytes → Option ℕ
strstr [] needle = if is_prefix needle [] then some 0 else none
strstr (c ∷ cs) needle = if is_prefix needle (c ∷ cs) then some 0 else shift 1 (strstr cs needle)

-- The first `while`; each round goes at least one byte on.
pub count_loop : ℕ → Bytes → Bytes → ℕ
count_loop zero needle found = 0
count_loop (suc fuel) needle found = elim (strstr found needle) [
  | none ↦ 0
  | some k ↦ suc (count_loop fuel needle (drop (suc k) found))
]

-- What a write to `&replaced[used_size]` makes of the block.
abbrev pub at_place : Bytes → ℕ → (Bytes → Bytes) → Bytes
at_place buf used f = take used buf ++ f (drop used buf)

-- The block once the source is copied from `str_start` up to what was found, `n` bytes further on, and then
-- the substitute: `size` is `final_sz + 1`.
abbrev pub copy_part : Bytes → Bytes → ℕ → Bytes → ℕ → ℕ → Bytes
copy_part substr rest size buf used n =
    let buf1 = at_place buf used (λ b. (get_substr b rest n size).0) in
    let used1 = length (text_of buf1) in
    at_place buf1 used1 (λ b. (copy_str b substr (sub_size size used1)).0)

-- The second `while` and the copy behind it. `str_start` and `found` are offsets into `src`.
pub replace_loop : ℕ → Bytes → Bytes → Bytes → ℕ → Bytes → ℕ → ℕ → ℕ → Bytes
replace_loop zero needle substr src size buf used str_start found = buf
replace_loop (suc fuel) needle substr src size buf used str_start found =
    elim (strstr (drop found src) needle) [
      | none ↦ at_place buf used (λ b. (copy_str b (drop str_start src) size).0)
      | some k ↦
          let rest = drop str_start src in
          let n = sub_size (found + k) str_start in
          let buf' = copy_part substr rest size buf used n in
          let copied = (get_substr (drop used buf) rest n size).1 in
          replace_loop fuel needle substr src size buf' (length (text_of buf'))
            (str_start + copied + length needle) (suc (found + k))
    ]

-- `final_sz`, a `size_t`
abbrev pub final_size : Bytes → Bytes → Bytes → ℕ → ℕ
final_size needle substr src n =
    (sub_size (length src) ((length needle * n) % 2 ^ 64) + length substr * n) % 2 ^ 64

-- `malloc` returns NULL (`none`) or a block whose byte `i` is `f i`. The result is the block.
unfoldable pub src_and_replace : Option (ℕ → ℕ) → Bytes → Bytes → Bytes → Option Bytes
unfolding count_loop replace_loop
src_and_replace none needle substr src = none
src_and_replace (some f) needle substr src =
    let size =
      (final_size needle substr src (count_loop (suc (length src)) needle src) + 1) % 2 ^ 64 in
    some (replace_loop (suc (length src)) needle substr src size (tabulate size f) 0 0 0)
