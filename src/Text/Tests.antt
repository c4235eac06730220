-- ===== src/Text/Tests.antt =====
-- Runs of the text helpers, and the theorems about them at concrete texts.
use iomessage.Prelude.{ℕ, ◌≡◌, refl, none, some, [], ◌∷◌, ◌++◌, arith, Bytes, codes}
use iomessage.Text.{
  Cursor, copy_str, get_substr, escaped_strchr, is_special, make_escaped_string,
  make_unescaped_string,
}
use iomessage.Text.Find.{Finds, escaped_strchr-Finds}
use iomessage.Text.Escape.{escape, unescape-make_escaped_string}
use iomessage.Text.Frame.{escaped_strchr-escape_backslash}

abbrev buffer : Bytes
buffer = 9 ∷ 9 ∷ 9 ∷ 9 ∷ 9 ∷ 9 ∷ []

abbrev ones : ℕ → ℕ
ones _ = 1

abbrev after_brace : Bytes → Cursor
after_brace s = record { before = b'{'; text = s }

copy_str_runs : copy_str buffer (codes "abcdef") 4 ≡ (codes "abc" ++ (0 ∷ 9 ∷ 9 ∷ []), 3)
unfolding copy_str
copy_str_runs = refl

-- At the end of the text the count that is returned is one too small.
copy_str_short : copy_str buffer (codes "ab") 6 ≡ (codes "ab" ++ (0 ∷ 9 ∷ 9 ∷ 9 ∷ []), 1)
unfolding copy_str
copy_str_short = refl

get_substr_runs : get_substr buffer (codes "abcdef") 3 6 ≡ (codes "abc" ++ (0 ∷ 9 ∷ 9 ∷ []), 3)
unfolding get_substr
get_substr_runs = refl

escaped_strchr_runs : escaped_strchr (after_brace (codes "a\\}b}")) b'}' ≡ some 4
unfolding escaped_strchr
escaped_strchr_runs = refl

make_escaped_string_runs :
    make_escaped_string (some ones) (codes "a{b") ≡ some (codes "a\\{b" ++ (1 ∷ []))
unfolding make_escaped_string
make_escaped_string_runs = refl

make_unescaped_string_runs :
    make_unescaped_string (some ones) (codes "a\\\\\\{") ≡ some (codes "a\\{" ++ (0 ∷ []))
unfolding make_unescaped_string
make_unescaped_string_runs = refl

escaped_strchr-Finds_example :
    Finds (after_brace (codes "a\\}b}")) b'}' (escaped_strchr (after_brace (codes "a\\}b}")) b'}')
escaped_strchr-Finds_example = escaped_strchr-Finds (after_brace (codes "a\\}b}")) b'}'

unescape-make_escaped_string_example :
    (t : Bytes) × (make_escaped_string (some ones) (codes "\\{") ≡ some (t ++ (1 ∷ [])))
    × (make_unescaped_string (some ones) t ≡ some (codes "\\{" ++ (0 ∷ [])))
unescape-make_escaped_string_example = unescape-make_escaped_string ones ones (codes "\\{")

escaped_strchr-escape_backslash_example :
    escaped_strchr (after_brace (escape (codes "a\\") ++ (b'}' ∷ codes "]"))) b'}' ≡ none
unfolding is_special escaped_strchr
escaped_strchr-escape_backslash_example =
    escaped_strchr-escape_backslash b'{' b'}' (codes "a\\") (codes "]") refl (omega arith) refl
