-- ===== src/Logging/Tests.antt =====
-- Each line of a message gets its kind.
use iomessage.Prelude.{ℕ, ◌≡◌, refl, arith, none, some, ◌∷◌, ◌++◌, codes, List, []}
use iomessage.Text.{copy_str, get_substr}
use iomessage.Logging.{src_and_replace, strstr}
use iomessage.Logging.Replace.{src_and_replace-replace}

abbrev block : ℕ → ℕ
block n = 170

-- "one", a new line, "two"
abbrev message : List ℕ
message = codes "one" ++ (10 ∷ codes "two")

abbrev kind_of_line : List ℕ
kind_of_line = 10 ∷ codes "LOG:" ++ (9 ∷ [])

no_block : src_and_replace none (10 ∷ []) kind_of_line message ≡ none
unfolding src_and_replace
no_block = refl

-- A needle of two bytes that occurs twice, the two apart
two_bytes :
    src_and_replace
      (some block)
      (9 ∷ 32 ∷ [])
      (9 ∷ [])
      (codes "a" ++ (9 ∷ 32 ∷ codes "b" ++ (9 ∷ 32 ∷ [])))
    ≡ some (codes "a" ++ (9 ∷ codes "b" ++ (9 ∷ 0 ∷ [])))
unfolding src_and_replace strstr get_substr copy_str
two_bytes = refl

src_and_replace-replace_example :
    src_and_replace (some block) (10 ∷ []) kind_of_line message
    ≡ some (codes "one" ++ (10 ∷ codes "LOG:" ++ (9 ∷ codes "two" ++ (0 ∷ []))))
src_and_replace-replace_example =
    src_and_replace-replace block 10 kind_of_line message (omega arith) (omega arith) (omega arith)
      (omega arith)
