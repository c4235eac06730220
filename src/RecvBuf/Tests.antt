-- ===== src/RecvBuf/Tests.antt =====
-- The receive buffer at concrete bytes.
use iomessage.Prelude.{ℕ, zero, suc, ◌+◌, ◌∙◌, ◌≡◌, refl, ap, arith, Option, [], ◌∷◌, Bytes}
use iomessage.Memory.{Os, done}
use iomessage.Memory.Runs.{Runs}
use iomessage.Network.{
  Conn, took, got, recv_failed, wsaetimedout, nm_ok, Received, received_as, recv,
}
use iomessage.RecvBuf.{RecvBuffer, recv_req}
use iomessage.RecvBuf.Returns.{recv_req_returns}
use iomessage.RecvBuf.Stream.{Keeps, IsClean, after_recvs, arrived}
use iomessage.RecvBuf.Deliver.{recv_req-Delivers}
use iomessage.RecvBuf.Promise.{Delivers}
use iomessage.RecvBuf.Silent.{IsSilent, recv-silent, timed_out}
use iomessage.Arena.Tests.{small_os, grants}

abbrev three : RecvBuffer
three = record { buf = 1 ∷ 2 ∷ 3 ∷ 9 ∷ 9 ∷ []; cap = 6; len = 3 }

abbrev peer : Conn
peer = record {
  sends = λ k. took 3;
  recvs = λ k. got (b'[' ∷ b']' ∷ []);
  send_calls = 0;
  recv_calls = 0;
  wire = [];
  error = nm_ok;
}

recv_req_returns_example :
    (r : Option Bytes × RecvBuffer × Conn) × (os' : Os) × (recv_req 100 0 three peer small_os
      ≡ done r os')
recv_req_returns_example = recv_req_returns 100 0 three peer small_os

abbrev pub silent_conn : Conn
silent_conn = record peer { recvs = λ k. recv_failed wsaetimedout }

pub silent-arrived : (n : ℕ) (conn : Conn) → IsSilent conn → arrived n conn ≡ []
silent-arrived zero conn h = refl
silent-arrived (suc n) conn h = rw (recv-silent conn h) (silent-arrived n (timed_out conn) h)

received_as-recvs : (r : Received) (conn : Conn) → (received_as r conn).recvs ≡ conn.recvs
received_as-recvs (got []) conn = refl
received_as-recvs (got (c ∷ cs)) conn = refl
received_as-recvs (recv_failed err) conn = refl

recv-recvs : (conn : Conn) → (recv 10 conn).1.recvs ≡ conn.recvs
unfolding recv
recv-recvs conn =
    received_as-recvs (conn.recvs conn.recv_calls)
      (record conn { recv_calls = conn.recv_calls + 1 })

after_recvs-recvs : (n : ℕ) (conn : Conn) → (after_recvs n conn).recvs ≡ conn.recvs
after_recvs-recvs zero conn = refl
after_recvs-recvs (suc n) conn = after_recvs-recvs n (recv 10 conn).1 ∙ recv-recvs conn

pub silent_conn-IsClean : IsClean silent_conn
silent_conn-IsClean n =
    rw
      (recv-silent (after_recvs n silent_conn)
        (λ k. ap (λ f. f k) (after_recvs-recvs n silent_conn)))
      tt

-- A client that sends the same request again and again.
peer-received :
    (conn : Conn)
    → ((k : ℕ) → conn.recvs k ≡ got (b'[' ∷ b']' ∷ []))
    → (recv 10 conn).0 ≡ b'[' ∷ b']' ∷ []
unfolding recv
peer-received conn h = rw (h conn.recv_calls) refl

peer-IsClean : IsClean peer
peer-IsClean n =
    rw (peer-received (after_recvs n peer) (λ k. ap (λ f. f k) (after_recvs-recvs n peer)))
      (omega arith, (omega arith, tt))

abbrev half : RecvBuffer
half = record { buf = b'[' ∷ b'a' ∷ 0 ∷ 0 ∷ 0 ∷ 0 ∷ 0 ∷ 0 ∷ 0 ∷ 0 ∷ []; cap = 11; len = 2 }

half-Keeps : Keeps half (b'[' ∷ b'a' ∷ [])
half-Keeps = record {
  free = 0 ∷ 0 ∷ 0 ∷ 0 ∷ 0 ∷ 0 ∷ 0 ∷ 0 ∷ [];
  buffered = (refl, refl);
  few = omega arith;
  size = refl;
  cap = refl;
}

recv_req-Delivers_example :
    Runs
      (recv_req 100 0 half peer small_os)
      (λ r os'. Delivers grants 0 os'.calls 100 0 (b'[' ∷ b'a' ∷ []) peer r.0 r.1 r.2)
recv_req-Delivers_example =
    recv_req-Delivers 100 0 (b'[' ∷ b'a' ∷ []) half peer small_os half-Keeps
      (omega arith, (omega arith, tt)) peer-IsClean
