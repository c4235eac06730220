-- ===== src/RecvBuf.antt =====
-- server/src/CommunicationManager.c: the buffer for what was received behind a request, and `recv_req`.
pub mod Fifo
pub mod Returns
pub mod Block
pub mod Stream
pub mod Promise
pub mod Deliver
pub mod Silent
pub mod Tests
use iomessage.Prelude.{
  ℕ, zero, suc, ◌+◌, ◌-◌, ◌*◌, Bool, true, false, not, Option, none, some, List, [], ◌∷◌, ◌++◌,
  ◌==◌, if◌then◌else◌, ltb, leb, min, length, get_or, set, take, drop, Bytes,
}
use iomessage.Text.{Cursor, copy_str, escaped_strchr}
use iomessage.Memory.{
  Os, Outcome, done, aborts, runs_out, M, pure, ◌>>=◌, ◌>>◌, malloc, free, realloc, fresh_bytes,
}
use iomessage.Network.{Conn, recv}
use iomessage.Request.Types.{text_of}

-- `RECV_BLOCK_SZ`, and `sizeof(buf_t)` on a 64-bit machine
abbrev pub recv_block_sz : ℕ
recv_block_sz = 10

abbrev pub buf_struct_size : ℕ
buf_struct_size = 16

-- `buf_t`. `buf` are the bytes of its block; no field ever gets negative.
pub record RecvBuffer : Type 0 where
  pub buf : Bytes
  pub cap : ℕ
  pub len : ℕ

-- `cap` is one more than the bytes of the block.
unfoldable pub create_recv_buf : ℕ → M (Option RecvBuffer)
create_recv_buf cap os =
    if cap == 0
    then aborts
    else (do
      new_buf ← malloc buf_struct_size
      elim new_buf [
        | none ↦ pure none
        | some b ↦ do
          block ← malloc cap
          elim block [
            | none ↦ do free b; pure none
            | some a ↦ λ os'.
                done (some (record { buf = fresh_bytes a cap os'; cap = cap + 1; len = 0 })) os'
          ]
      ])
        os

unfoldable pub buf_empty : RecvBuffer → Bool
buf_empty b = leb b.len 0

-- The `for` that moves every byte one place to the front, from place `i` on.
pub shift_loop : ℕ → ℕ → Bytes → Bytes
shift_loop zero i buf = buf
shift_loop (suc n) i buf = shift_loop n (i + 1) (set buf (i - 1) (get_or buf i 0))

-- `none` is -1.
unfoldable pub get_ch_from_buf : RecvBuffer → Option ℕ × RecvBuffer
unfolding shift_loop
get_ch_from_buf b = if leb b.len 0 then (none, b) else (
  some (get_or b.buf 0 0),
  record b { buf = shift_loop (b.len - 1) 1 b.buf; len = b.len - 1 },
)

abbrev pub byte_of : Option ℕ → ℕ
byte_of none = 255
byte_of (some c) = c

-- The bytes that are written to the front of `str_buf`.
pub get_loop : ℕ → RecvBuffer → Bytes × RecvBuffer
unfolding get_ch_from_buf
get_loop zero b = ([], b)
get_loop (suc n) b =
    let (ch, b') = get_ch_from_buf b in let (rest, b'') = get_loop n b' in (byte_of ch ∷ rest, b'')

unfoldable pub get_from_buf : RecvBuffer → ℕ → Bytes × RecvBuffer
unfolding get_loop
get_from_buf b len = get_loop (min len b.len) b

pub put_loop : Bytes → ℕ → Bytes → Bytes
put_loop [] i buf = buf
put_loop (c ∷ cs) i buf = put_loop cs (i + 1) (set buf i c)

-- The buffer, and how many bytes were put in it.
unfoldable pub put_in_buf : RecvBuffer → Bytes → ℕ → RecvBuffer × ℕ
unfolding put_loop
put_in_buf b str_buf len =
    let n = min len (b.cap - b.len) in
    (record b { buf = put_loop (take n str_buf) b.len b.buf; len = b.len + n }, n)

-- The next bytes: what the buffer holds, or else what the connection gives.
unfoldable pub next_bytes : RecvBuffer → Conn → Bytes × RecvBuffer × Conn
unfolding buf_empty get_from_buf recv
next_bytes recv_buf conn = elim (buf_empty recv_buf) [
  | false ↦ let (bytes, b) = get_from_buf recv_buf recv_block_sz in (bytes, b, conn)
  | true ↦ let (bytes, conn') = recv recv_block_sz conn in (bytes, recv_buf, conn')
]

-- `while(len+received>=cap)cap *= 2`; a capacity that is not 0 is large enough after as many rounds
-- as bytes are needed.
pub double_loop : ℕ → ℕ → ℕ → ℕ
double_loop zero need cap = cap
double_loop (suc n) need cap = if leb cap need then double_loop n need (cap * 2) else cap

-- The request that is read so far: its block, where that lies, and how much of it is filled.
pub record Partial : Type 0 where
  pub req_start : ℕ
  pub block : Bytes
  pub cap : ℕ
  pub len : ℕ

-- The bytes in a larger block, or nothing if `realloc` fails.
abbrev pub move_to : Partial → ℕ → M (Option Partial)
move_to p cap = do
  moved ← realloc p.req_start cap
  elim moved [
    | none ↦ pure none
    | some a ↦ λ os.
        done
          (some (record p {
            req_start = a;
            block = p.block ++ drop (length p.block) (fresh_bytes a cap os);
            cap = cap;
          }))
          os
  ]

-- A block that `received` more bytes fit.
abbrev pub make_room : Partial → ℕ → M (Option Partial)
make_room p received os = elim (leb p.cap (p.len + received)) [
  | false ↦ done (some p) os
  | true ↦ move_to p (double_loop (p.len + received) (p.len + received) p.cap) os
]

-- The block with the bytes copied behind those it holds.
abbrev pub append_bytes : Partial → Bytes → Partial
append_bytes p bytes = record p {
  block =
      take p.len p.block ++ (copy_str (drop p.len p.block) (text_of bytes) (length bytes + 1)).0;
  len = p.len + length bytes;
}

-- The request up to its end, and what is behind it put into the buffer.
unfoldable pub cut_request : Bytes → ℕ → RecvBuffer → Bytes × RecvBuffer
unfolding put_in_buf
cut_request text end recv_buf = elim (drop (suc end) text) [
  | [] ↦ (text, recv_buf)
  | c ∷ cs ↦ (take (suc end) text, (put_in_buf recv_buf (c ∷ cs) (suc (length cs))).0)
]

-- The `while` of `recv_req`. `front` is the byte in memory in front of the block. Every round adds a
-- byte, so that it ends before there are `max_msg_len` of them.
pub recv_loop : ℕ → ℕ → ℕ → Partial → RecvBuffer → Conn → M (Option Bytes × RecvBuffer × Conn)
recv_loop zero max_msg_len front p recv_buf conn os = runs_out
recv_loop (suc fuel) max_msg_len front p recv_buf conn os =
    let (bytes, recv_buf', conn') = next_bytes recv_buf conn in
    elim (length bytes == 0) [
      | true ↦ (do free p.req_start; pure (none, recv_buf', conn')) os
      | false ↦ elim (leb max_msg_len (p.len + length bytes)) [
        | true ↦ (do free p.req_start; pure (none, recv_buf', conn')) os
        | false ↦ elim (make_room p (length bytes) os) [
          | done none os' ↦ (do free p.req_start; pure (none, recv_buf', conn')) os'
          | done (some q) os' ↦
              let r = append_bytes q bytes in
              elim (escaped_strchr (record { before = front; text = text_of r.block }) b']') [
                | none ↦ recv_loop fuel max_msg_len front r recv_buf' conn' os'
                | some end ↦
                    let (request, rest) = cut_request (text_of r.block) end recv_buf' in
                    done (some request, rest, conn') os'
              ]
          | aborts ↦ aborts
          | runs_out ↦ runs_out
        ]
      ]
    ]

unfoldable pub recv_req : ℕ → ℕ → RecvBuffer → Conn → M (Option Bytes × RecvBuffer × Conn)
unfolding recv_loop
recv_req max_msg_len front recv_buf conn = do
  made ← malloc (recv_block_sz + 1)
  elim made [
    | none ↦ pure (none, recv_buf, conn)
    | some a ↦ λ os.
        recv_loop (suc max_msg_len) max_msg_len front
          (record {
            req_start = a;
            block = fresh_bytes a (recv_block_sz + 1) os;
            cap = recv_block_sz + 1;
            len = 0;
          })
          recv_buf conn os
  ]
