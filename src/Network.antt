-- ===== src/Network.antt =====
-- server/src/win/NetworkManager_win_imp.c: sending and receiving on a connection.
-- What the sockets do is up to the system: it is a parameter of the connection, for each call of
-- `send` or `recv` by its number.
pub mod Send
pub mod Tests
use iomessage.Prelude.{
  ℕ, zero, suc, ◌+◌, ◌-◌, Bool, true, false, Option, none, some, List, [], ◌∷◌, ◌++◌, ◌==◌,
  if◌then◌else◌, ltb, length, take, drop, Bytes, min,
}

-- `enum NM_comm_errs`
pub data CommErr : Type 0 where
  nm_ok : CommErr
  nm_conn_closed : CommErr
  nm_wouldblock : CommErr
  nm_timedout : CommErr
  nm_interrupted : CommErr
  nm_unknown_error : CommErr

-- The codes of `WSAGetLastError` that the program tells apart
pub data WsaErr : Type 0 where
  wsaenotconn : WsaErr
  wsaeconnreset : WsaErr
  wsaewouldblock : WsaErr
  wsaetimedout : WsaErr
  wsaeintr : WsaErr
  wsa_other : WsaErr

-- What `send` returns: the bytes that it took, or SOCKET_ERROR.
pub data Sent : Type 0 where
  took : ℕ → Sent
  send_failed : WsaErr → Sent

-- What `recv` returns: the bytes, none if the peer has closed, or SOCKET_ERROR.
pub data Received : Type 0 where
  got : Bytes → Received
  recv_failed : WsaErr → Received

-- `wire` is what the peer was sent.
pub record Conn : Type 0 where
  pub sends : ℕ → Sent
  pub recvs : ℕ → Received
  pub send_calls : ℕ
  pub recv_calls : ℕ
  pub wire : Bytes
  pub error : CommErr

unfoldable pub set_error : CommErr → Conn → Conn
set_error err conn = record conn { error = err }

-- Reading the error resets it.
unfoldable pub get_error : Conn → CommErr × Conn
get_error conn = (conn.error, record conn { error = nm_ok })

unfoldable pub send_err : WsaErr → CommErr
send_err wsaenotconn = nm_conn_closed
send_err wsaeconnreset = nm_conn_closed
send_err wsaewouldblock = nm_wouldblock
send_err wsaetimedout = nm_timedout
send_err wsaeintr = nm_unknown_error
send_err wsa_other = nm_unknown_error

unfoldable pub recv_err : WsaErr → CommErr
recv_err wsaenotconn = nm_conn_closed
recv_err wsaeconnreset = nm_conn_closed
recv_err wsaewouldblock = nm_wouldblock
recv_err wsaetimedout = nm_timedout
recv_err wsaeintr = nm_interrupted
recv_err wsa_other = nm_unknown_error

-- `send` takes bytes from the front of what is left.
abbrev pub sent_now : ℕ → Bytes → Conn → Conn
sent_now n left conn = record conn {
  send_calls = conn.send_calls + 1;
  wire = conn.wire ++ take n left;
}

-- `send` takes no more than it is given.
abbrev pub send : ℕ → Conn → Sent
send len conn = elim (conn.sends conn.send_calls) [
  | took n ↦ took (min n len)
  | send_failed err ↦ send_failed err
]

-- What the loop comes to: the bytes sent, or -1; or the fuel is used up, by calls that were
-- interrupted again and again.
pub data SendEnd : Type 0 where
  sent_bytes : ℕ → SendEnd
  sent_none : SendEnd
  interrupted : SendEnd

-- The error is set, and read again for the log.
abbrev pub give_up : WsaErr → Conn → SendEnd × Conn
unfolding get_error
give_up err conn = (
  sent_none,
  (get_error (set_error (send_err err) (record conn { send_calls = conn.send_calls + 1 }))).1,
)

-- The `while` of `NM_send_all`: `sent` bytes are sent, `left` are not.
pub send_loop : ℕ → Bytes → ℕ → Conn → SendEnd × Conn
send_loop fuel [] sent conn = (sent_bytes sent, conn)
send_loop zero (c ∷ cs) sent conn = (interrupted, conn)
send_loop (suc fuel) (c ∷ cs) sent conn = elim (send (suc (length cs)) conn) [
  | send_failed wsaeintr ↦
      send_loop fuel (c ∷ cs) sent (record conn { send_calls = conn.send_calls + 1 })
  | send_failed err ↦ give_up err conn
  | took zero ↦ (sent_none, set_error nm_conn_closed (sent_now zero (c ∷ cs) conn))
  | took (suc n) ↦
      send_loop fuel (drop (suc n) (c ∷ cs)) (sent + suc n) (sent_now (suc n) (c ∷ cs) conn)
]

-- The timeout options of the socket are left out: the code only logs when setting them fails.
unfoldable pub send_all : ℕ → Bytes → Conn → SendEnd × Conn
unfolding send_loop
send_all fuel buf conn = send_loop fuel buf 0 conn

abbrev pub received_as : Received → Conn → Conn
received_as (got []) conn = record conn { error = nm_conn_closed }
received_as (got (c ∷ cs)) conn = record conn { error = nm_ok }
received_as (recv_failed err) conn = record conn { error = recv_err err }

-- The bytes in the buffer. They are fewer than one where `NM_recv` returns 0 or -1.
abbrev pub bytes_of : Received → ℕ → Bytes
bytes_of (got bytes) len = take len bytes
bytes_of (recv_failed err) len = []

unfoldable pub recv : ℕ → Conn → Bytes × Conn
recv len conn =
    let r = conn.recvs conn.recv_calls in
    (bytes_of r len, received_as r (record conn { recv_calls = conn.recv_calls + 1 }))
