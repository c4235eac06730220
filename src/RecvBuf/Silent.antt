-- ===== src/RecvBuf/Silent.antt =====
-- `create_recv_buf` and `recv_req` where memory is there and the client sends nothing.
use iomessage.Prelude.{ℕ, ◌+◌, ◌≡◌, refl, true, Option, none, some, [], ◌∷◌, arith, leb}
use iomessage.Memory.{Os, remove, fresh_bytes}
use iomessage.Memory.Runs.{Runs}
use iomessage.Network.{Conn, recv, recv_failed, wsaetimedout, recv_err, nm_timedout}
use iomessage.RecvBuf.{RecvBuffer, create_recv_buf, buf_empty, next_bytes, recv_loop, recv_req}
use iomessage.RecvBuf.Stream.{Keeps}

-- Every call of `malloc` gives a block.
abbrev pub HasMemory : (ℕ → ℕ → Option ℕ) → Type 0
HasMemory answers = (k n : ℕ) → (a : ℕ) × (answers k n ≡ some a)

abbrev pub IsSilent : Conn → Type 0
IsSilent conn = (k : ℕ) → conn.recvs k ≡ recv_failed wsaetimedout

-- The connection after a call of `recv` that timed out.
abbrev pub timed_out : Conn → Conn
timed_out conn = record conn { recv_calls = conn.recv_calls + 1; error = nm_timedout }

-- The new buffer is empty, and fit for `recv_req`.
pub create_recv_buf_runs :
    (os : Os)
    → HasMemory os.answers
    → Runs
        (create_recv_buf 10 os)
        (λ r os'. (b : RecvBuffer) × (r ≡ some b) × Keeps b [] × (os'.answers ≡ os.answers))
unfolding create_recv_buf
create_recv_buf_runs os memory =
    let (a, e) = memory os.calls 16 in
    let (b, f) = memory (os.calls + 1) 10 in
    let os' : Os = record os { calls = os.calls + 1 + 1; live = b ∷ a ∷ os.live } in
    (
      _,
      os',
      ground (arith, e, f),
      (
        record { buf = fresh_bytes b 10 os'; cap = 11; len = 0 },
        refl,
        record {
          free = fresh_bytes b 10 os';
          buffered = (refl, refl);
          few = omega arith;
          size = refl;
          cap = refl;
        },
        refl,
      ),
    )

pub recv-silent : (conn : Conn) → IsSilent conn → recv 10 conn ≡ ([], timed_out conn)
unfolding recv recv_err
recv-silent conn silent = rw (silent conn.recv_calls) refl

next_bytes-silent :
    (b : RecvBuffer) (conn : Conn)
    → Keeps b []
    → IsSilent conn
    → next_bytes b conn ≡ ([], b, timed_out conn)
unfolding next_bytes buf_empty
next_bytes-silent b conn k silent =
    let e : leb b.len 0 ≡ true = ground (arith, k.buffered.1) in
    ground (arith, e, recv-silent conn silent)

-- The call gives up after one timeout.
pub recv_req-silent :
    (max_msg_len front : ℕ) (b : RecvBuffer) (conn : Conn) (os : Os)
    → Keeps b []
    → IsSilent conn
    → HasMemory os.answers
    → Runs
        (recv_req max_msg_len front b conn os)
        (λ r os'. (r ≡ (none, b, timed_out conn)) × (os'.answers ≡ os.answers))
unfolding recv_req recv_loop
recv_req-silent max_msg_len front b conn os k silent memory =
    let (a, e) = memory os.calls 11 in
    (
      (none, b, timed_out conn),
      record os { calls = os.calls + 1; live = remove a (a ∷ os.live) },
      ground (arith, e, next_bytes-silent b conn k silent),
      (refl, refl),
    )
