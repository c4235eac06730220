-- ===== src/Network/Send.antt =====
-- `NM_send_all`: what the peer was sent when it returns, and which error is left.
use iomessage.Prelude.{
  ℕ, zero, suc, ◌+◌, ◌≤◌, ◌<◌, ◌≡◌, ◌⊎◌, refl, sym, ap, ◌∙◌, [], ◌∷◌, ◌++◌, arith, append-nil,
  append_assoc, length, length-append, length-take, take, drop, Bytes, inl, inr, take-append-drop,
  min,
}
use mathlib.Core.Path.{subst}
use iomessage.Network.{
  Conn, Sent, took, send_failed, WsaErr, wsaeintr, wsaenotconn, wsaeconnreset, wsaewouldblock,
  wsaetimedout, wsa_other, nm_ok, nm_conn_closed, set_error, get_error, send, sent_now, give_up,
  SendEnd, sent_bytes, sent_none, interrupted, send_loop, send_all,
}

-- What the loop must come to, with `sent` bytes sent and `left` not.
abbrev pub Ends : ℕ → Bytes → ℕ → Conn → SendEnd → Conn → Type 0
Ends fuel left sent conn (sent_bytes n) conn' =
    (n ≡ sent + length left) × (conn'.wire ≡ conn.wire ++ left)
Ends fuel left sent conn sent_none conn' =
    ((front : Bytes) × (back : Bytes) × (left ≡ front ++ back) × (conn'.wire ≡ conn.wire ++ front))
    × ((conn'.error ≡ nm_ok) ⊎ ((k : ℕ) × (conn.sends k ≡ took 0) × (conn'.error ≡ nm_conn_closed)))
Ends fuel left sent conn interrupted conn' =
    (fuel < length left) ⊎ ((k : ℕ) × (conn.sends k ≡ send_failed wsaeintr))

Sent-cases : (s : Sent) → ((n : ℕ) × (s ≡ took n)) ⊎ ((err : WsaErr) × (s ≡ send_failed err))
Sent-cases (took n) = inl (n, refl)
Sent-cases (send_failed err) = inr (err, refl)

-- One round that sends `front`.
later :
    (fuel : ℕ) (front back : Bytes) (sent : ℕ) (conn mid : Conn) (r : SendEnd) (conn' : Conn)
    → 0 < length front
    → mid.wire ≡ conn.wire ++ front
    → mid.sends ≡ conn.sends
    → Ends fuel back (sent + length front) mid r conn'
    → Ends (suc fuel) (front ++ back) sent conn r conn'
later fuel front back sent conn mid (sent_bytes n) conn' pos wire same (count, all) = (
  omega (arith, count, length-append front back),
  all ∙ ap (λ w. w ++ back) wire ∙ append_assoc conn.wire front back,
)
later fuel front back sent conn mid sent_none conn' pos wire same ((f, b, cut, part), err) = (
  (
    front ++ f,
    b,
    ap (λ t. front ++ t) cut ∙ sym (append_assoc front f b),
    part ∙ ap (λ w. w ++ f) wire ∙ append_assoc conn.wire front f,
  ),
  elim err [
    | inl ok ↦ inl ok
    | inr (k, zero_sent, closed) ↦ inr (k, rw (← same) zero_sent, closed)
  ],
)
later fuel front back sent conn mid interrupted conn' pos wire same h = elim h [
  | inl few ↦ inl (omega (arith, few, pos, length-append front back))
  | inr (k, eintr) ↦ inr (k, rw (← same) eintr)
]

took_zero : (n m : ℕ) → min n (suc m) ≡ zero → n ≡ 0
took_zero n m h = omega (arith, h)

send_answer :
    (conn : Conn) (len n : ℕ)
    → send (suc len) conn ≡ took n
    → (n ≤ suc len) × ((n ≡ 0) → conn.sends conn.send_calls ≡ took 0)
send_answer conn len n e = elim (Sent-cases (conn.sends conn.send_calls)) [
  | inl (m, is) ↦
      let h : took (min m (suc len)) ≡ took n = rw (is, send) at e in
      let same : min m (suc len) ≡ n = cc in
      (omega (arith, same), λ z. is ∙ ap took (omega (arith, z, same)))
  | inr (err, is) ↦ cc (rw (is, send) at e)
]

send_answer_failed :
    (conn : Conn) (len : ℕ) (err : WsaErr)
    → send len conn ≡ send_failed err
    → conn.sends conn.send_calls ≡ send_failed err
send_answer_failed conn len err e = elim (Sent-cases (conn.sends conn.send_calls)) [
  | inl (m, is) ↦ cc (rw (is, send) at e)
  | inr (err', is) ↦ cc (rw (is, send) at e)
]

quits :
    (fuel : ℕ) (left : Bytes) (sent : ℕ) (err : WsaErr) (conn : Conn)
    → Ends fuel left sent conn (give_up err conn).0 (give_up err conn).1
unfolding get_error set_error
quits fuel left sent err conn = (([], left, refl, sym (append-nil conn.wire)), inl refl)

gone :
    (fuel c : ℕ) (cs : Bytes) (sent : ℕ) (conn : Conn) (err : WsaErr)
    → send_loop (suc fuel) (c ∷ cs) sent conn ≡ give_up err conn
    → Ends
        (suc fuel)
        (c ∷ cs)
        sent
        conn
        (send_loop (suc fuel) (c ∷ cs) sent conn).0
        (send_loop (suc fuel) (c ∷ cs) sent conn).1
gone fuel c cs sent conn err e = rw e (quits (suc fuel) (c ∷ cs) sent err conn)

-- What the loop must come to, of its result as a whole.
abbrev IsEnd : ℕ → Bytes → ℕ → Conn → SendEnd × Conn → Type 0
IsEnd fuel left sent conn r = Ends fuel left sent conn r.0 r.1

again :
    (fuel : ℕ) (left : Bytes) (sent k : ℕ) (conn mid : Conn) (r : SendEnd) (conn' : Conn)
    → mid.wire ≡ conn.wire
    → mid.sends ≡ conn.sends
    → conn.sends k ≡ send_failed wsaeintr
    → Ends fuel left sent mid r conn'
    → Ends (suc fuel) left sent conn r conn'
again fuel left sent k conn mid (sent_bytes n) conn' wire same eintr (count, all) =
    (count, rw (← wire) all)
again fuel left sent k conn mid sent_none conn' wire same eintr ((f, b, cut, part), err) = (
  (f, b, cut, rw (← wire) part),
  elim err [
    | inl ok ↦ inl ok
    | inr (j, zero_sent, closed) ↦ inr (j, rw (← same) zero_sent, closed)
  ],
)
again fuel left sent k conn mid interrupted conn' wire same eintr h = inr (k, eintr)

loop-Ends :
    (fuel : ℕ) (left : Bytes) (sent : ℕ) (conn : Conn)
    → IsEnd fuel left sent conn (send_loop fuel left sent conn)
unfolding send_loop get_error set_error
loop-Ends zero [] sent conn = (omega arith, sym (append-nil conn.wire))
loop-Ends (suc fuel) [] sent conn = (omega arith, sym (append-nil conn.wire))
loop-Ends zero (c ∷ cs) sent conn = inl (omega arith)
loop-Ends (suc fuel) (c ∷ cs) sent conn = elim (Sent-cases (send (suc (length cs)) conn)) [
  | inl (zero, e) ↦
      let run : send_loop (suc fuel) (c ∷ cs) sent conn
          ≡ (sent_none, set_error nm_conn_closed (sent_now zero (c ∷ cs) conn)) =
        ground (arith, e) in
      rw run (
        ([], c ∷ cs, refl, refl),
        inr (conn.send_calls, (send_answer conn (length cs) 0 e).1 refl, refl),
      )
  | inl (suc n, e) ↦
      let more : suc n ≤ suc (length cs) = (send_answer conn (length cs) (suc n) e).0 in
      let mid : Conn = sent_now (suc n) (c ∷ cs) conn in
      let l : length (take (suc n) (c ∷ cs)) ≡ suc n =
        omega (arith, length-take (suc n) (c ∷ cs), more) in
      let ends = loop-Ends fuel (drop (suc n) (c ∷ cs)) (sent + suc n) mid in
      let run : send_loop (suc fuel) (c ∷ cs) sent conn
          ≡ send_loop fuel (drop (suc n) (c ∷ cs)) (sent + suc n) mid =
        ground (arith, e) in
      let r = send_loop fuel (drop (suc n) (c ∷ cs)) (sent + suc n) mid in
      let whole =
        later fuel (take (suc n) (c ∷ cs)) (drop (suc n) (c ∷ cs)) sent conn mid r.0 r.1
          (omega (arith, l)) refl refl (rw l ends) in
      rw run (
        subst (λ left. Ends (suc fuel) left sent conn r.0 r.1) (take-append-drop (suc n) (c ∷ cs))
          whole)
  | inr (err, e) ↦
      let is = send_answer_failed conn (suc (length cs)) err e in
      failed fuel c cs sent conn err e is
        (loop-Ends fuel (c ∷ cs) sent (record conn { send_calls = conn.send_calls + 1 }))
]
  where
    failed :
        (fuel c : ℕ) (cs : Bytes) (sent : ℕ) (conn : Conn) (err : WsaErr)
        → send (suc (length cs)) conn ≡ send_failed err
        → conn.sends conn.send_calls ≡ send_failed err
        → IsEnd fuel
            (c ∷ cs)
            sent
            (record conn { send_calls = conn.send_calls + 1 })
            (send_loop fuel (c ∷ cs) sent (record conn { send_calls = conn.send_calls + 1 }))
        → IsEnd (suc fuel) (c ∷ cs) sent conn (send_loop (suc fuel) (c ∷ cs) sent conn)
    failed fuel c cs sent conn wsaeintr e is rest =
        let run : send_loop (suc fuel) (c ∷ cs) sent conn
            ≡ send_loop fuel (c ∷ cs) sent (record conn { send_calls = conn.send_calls + 1 }) =
          ground (arith, e) in
        rw run (
          again fuel (c ∷ cs) sent conn.send_calls conn
            (record conn { send_calls = conn.send_calls + 1 }) _ _ refl refl is rest)
    failed fuel c cs sent conn wsaenotconn e is rest =
        gone fuel c cs sent conn wsaenotconn (ground (arith, e))
    failed fuel c cs sent conn wsaeconnreset e is rest =
        gone fuel c cs sent conn wsaeconnreset (ground (arith, e))
    failed fuel c cs sent conn wsaewouldblock e is rest =
        gone fuel c cs sent conn wsaewouldblock (ground (arith, e))
    failed fuel c cs sent conn wsaetimedout e is rest =
        gone fuel c cs sent conn wsaetimedout (ground (arith, e))
    failed fuel c cs sent conn wsa_other e is rest =
        gone fuel c cs sent conn wsa_other (ground (arith, e))

-- `NM_send_all` returns the number of all bytes only when the peer was sent all of them, in order. It
-- returns -1 after a part of them; then the error that is left is `NM_OK`, whatever had gone wrong, or
-- `NM_CONN_CLOSED` where `send` had taken no byte. As many rounds as bytes are enough, except where
-- `send` is interrupted.
pub send_all-Ends :
    (fuel : ℕ) (buf : Bytes) (conn : Conn)
    → Ends fuel buf 0 conn (send_all fuel buf conn).0 (send_all fuel buf conn).1
unfolding send_all
send_all-Ends fuel buf conn = loop-Ends fuel buf 0 conn
