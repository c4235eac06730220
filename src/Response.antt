-- ===== src/Response.antt =====
-- server/src/response.c and response.h: responses `[{status}{payload}]`.
pub mod Decimal
pub mod Reads
pub mod Tests
use iomessage.Prelude.{
  ℕ, zero, suc, ◌+◌, ◌*◌, ◌/◌, ◌%◌, Bool, true, false, Option, none, some, [], ◌∷◌, ◌++◌,
  if◌then◌else◌, ltb, length, Bytes,
}
use iomessage.Memory.{Os, Outcome, done, M, pure, ◌>>=◌, ◌>>◌, malloc, free}
use iomessage.Text.{count_special, make_escaped_string}
use iomessage.Request.Types.{ℤ, pos, negsuc, text_of}

-- `sizeof(response_t)` on a 64-bit machine
abbrev pub response_struct_size : ℕ
response_struct_size = 16

-- `response_t`. `payload` are the bytes in memory from the pointer on, those behind its block too.
pub record Response : Type 0 where
  pub address : ℕ
  pub status : ℤ
  pub payload_block : ℕ
  pub payload : Bytes

-- The digits of a number, in front of those behind it; an `int` has no more than ten.
pub digits_loop : ℕ → ℕ → Bytes → Bytes
digits_loop zero n out = out
digits_loop (suc fuel) n out =
    let rest = digits_loop fuel (n / 10) ((b'0' + n % 10) ∷ out) in
    if ltb n 10 then (b'0' + n) ∷ out else rest

-- `%d`
unfoldable pub decimal : ℤ → Bytes
unfolding digits_loop
decimal (pos n) = digits_loop 10 n []
decimal (negsuc n) = b'-' ∷ digits_loop 10 (n + 1) []

-- `[{%d}{%s}]`
abbrev pub raw_text : ℤ → Bytes → Bytes
raw_text status payload =
    b'[' ∷ b'{' ∷ (decimal status ++ (b'}' ∷ b'{' ∷ (payload ++ (b'}' ∷ b']' ∷ []))))

-- `behind` are the bytes in memory behind the block of the payload.
unfoldable pub make_resp : Bytes → ℤ → Bytes → M (Option Response)
make_resp behind status payload = do
  made ← malloc response_struct_size
  elim made [
    | none ↦ pure none
    | some res ↦ do
      block ← malloc (length payload + count_special payload + 1)
      elim block [
        | none ↦ do free res; pure none
        | some p ↦ λ os. elim (make_escaped_string (some (λ i. os.garbage (p + i))) payload) [
          | none ↦ (do free res; pure none) os
          | some payload_cpy ↦
              done
                (some (record {
                  address = res;
                  status = status;
                  payload_block = p;
                  payload = payload_cpy ++ behind;
                }))
                os
        ]
      ]
  ]

unfoldable pub destroy_resp : Response → M (Unit {0})
destroy_resp resp = do free resp.payload_block; free resp.address

-- The text that is printed, and the block that it lies in.
unfoldable pub make_raw_resp : Response → M (Option (ℕ × Bytes))
make_raw_resp resp = do
  let text = raw_text resp.status (text_of resp.payload)
  raw ← malloc (length text + 1)
  elim raw [ none ↦ pure none | some a ↦ pure (some (a, text)) ]
