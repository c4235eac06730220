-- ===== src/Memory/Runs.antt =====
-- Calls that return: what they answer, and what they leave.
use iomessage.Prelude.{ℕ, ◌≤◌, ◌<◌, ◌≡◌, Option, none, arith}
use iomessage.Memory.{Os, Outcome, done}

-- The call returns, and its result and the state behind it are as `P` says.
abbrev pub Runs : {A : Type 0} → Outcome A → (A → Os → Type 0) → Type 0
Runs {A} o P = (a : A) × (os' : Os) × (o ≡ done a os') × P a os'

-- An allocation has failed, of those from number `from` on and before number `end`.
abbrev pub Failed : (ℕ → ℕ → Option ℕ) → ℕ → ℕ → Type 0
Failed answers from end = (k : ℕ) × (n : ℕ) × (from ≤ k) × (k < end) × (answers k n ≡ none)

pub Failed-within :
    (answers : ℕ → ℕ → Option ℕ) (from end from' end' : ℕ)
    → from' ≤ from
    → end ≤ end'
    → Failed answers from end
    → Failed answers from' end'
Failed-within answers from end from' end' lo hi (k, n, below, above, refused) =
    (k, n, omega arith, omega arith, refused)

-- What a call leaves that was made when `from` allocations had been asked for.
abbrev pub Later : (ℕ → ℕ → Option ℕ) → ℕ → Os → Type 0
Later answers from os' = (os'.answers ≡ answers) × (from ≤ os'.calls)
