-- ===== src/RecvBuf/Returns.antt =====
-- `recv_req` returns: the loop adds a byte in each round, and stops before there are too many.
use iomessage.Prelude.{
  ℕ, zero, suc, ◌+◌, ◌*◌, ◌≤◌, ◌<◌, ◌≡◌, ◌⊎◌, refl, Option, none, some, ◌∷◌, ◌++◌, arith, ◌==◌, leb,
  length, drop, Bytes, inl, inr, Bool-cases, Option-cases,
}
use iomessage.Text.{escaped_strchr}
use iomessage.Memory.{Os, done, fresh_bytes, remove}
use iomessage.Memory.Runs.{Runs}
use iomessage.Network.{Conn}
use iomessage.Request.Types.{text_of}
use iomessage.RecvBuf.{
  RecvBuffer, recv_block_sz, next_bytes, double_loop, Partial, make_room, append_bytes, cut_request,
  recv_loop, recv_req,
}

pub double_loop_lem : (n need cap : ℕ) → 0 < cap → need < n + cap → need < double_loop n need cap
unfolding double_loop
double_loop_lem zero need cap pos h = omega (arith, h)
double_loop_lem (suc n) need cap pos h = elim (Bool-cases (leb cap need)) [
  | inl small ↦
      rw small (double_loop_lem n need (cap * 2) (omega (arith, pos)) (omega (arith, h, pos)))
  | inr large ↦ rw large (ground (arith, large))
]

-- Room is made, or `realloc` fails. The length stays, and the capacity is large enough.
make_room_runs :
    (p : Partial) (received : ℕ) (os : Os)
    → 0 < p.cap
    → Runs (make_room p received os) (λ r os'.
      (r ≡ none) ⊎ ((q : Partial) × (r ≡ some q) × (q.len ≡ p.len) × (p.len + received < q.cap)))
make_room_runs p received os pos = elim (Bool-cases (leb p.cap (p.len + received))) [
  | inr fits ↦ (some p, os, ground (arith, fits), inr (p, refl, refl, ground (arith, fits)))
  | inl full ↦
      let cap : ℕ = double_loop (p.len + received) (p.len + received) p.cap in
      elim (Option-cases (os.answers os.calls cap)) [
        | inl e ↦ (none, record os { calls = os.calls + 1 }, ground (arith, full, e), inl refl)
        | inr (a, e) ↦
            let os' : Os = record os {
              calls = os.calls + 1;
              live = a ∷ remove p.req_start os.live;
            } in
            (
              some (record p {
                req_start = a;
                block = p.block ++ drop (length p.block) (fresh_bytes a cap os');
                cap = cap;
              }),
              os',
              ground (arith, full, e),
              inr (
                _,
                refl,
                refl,
                double_loop_lem (p.len + received) (p.len + received) p.cap pos
                    (omega (arith, pos)),
              ),
            )
      ]
]

-- The loop returns if there is a round for each byte that is missing up to the limit.
loop_returns :
    (fuel max_msg_len front : ℕ) (p : Partial) (recv_buf : RecvBuffer) (conn : Conn) (os : Os)
    → 0 < p.cap
    → max_msg_len < fuel + p.len
    → p.len ≤ max_msg_len
    → Runs (recv_loop fuel max_msg_len front p recv_buf conn os) (λ r os'. Unit {0})
unfolding recv_loop
loop_returns zero max_msg_len front p recv_buf conn os pos enough small =
    absurd (omega (arith, enough, small))
loop_returns (suc fuel) max_msg_len front p recv_buf conn os pos enough small =
    let (bytes, recv_buf', conn') = next_bytes recv_buf conn in
    let stopped : (Option Bytes × RecvBuffer × Conn) × (Os → Os) =
      ((none, recv_buf', conn'), λ s. record s { live = remove p.req_start s.live }) in
    elim (Bool-cases (length bytes == 0)) [
      | inl ended ↦ (stopped.0, stopped.1 os, ground (arith, ended), tt)
      | inr some_bytes ↦ elim (Bool-cases (leb max_msg_len (p.len + length bytes))) [
        | inl many ↦ (stopped.0, stopped.1 os, ground (arith, some_bytes, many), tt)
        | inr few ↦
            let (made, os1, run, h) = make_room_runs p (length bytes) os pos in
            elim h [
              | inl e ↦ (stopped.0, stopped.1 os1, ground (arith, some_bytes, few, run, e), tt)
              | inr (q, e, len, room) ↦
                  let r : Partial = append_bytes q bytes in
                  elim (Option-cases
                    (escaped_strchr (record { before = front; text = text_of r.block }) b']')) [
                      | inl no_end ↦
                          let (a, os2, rest, _) =
                            loop_returns fuel max_msg_len front r recv_buf' conn' os1
                              (omega (arith, room)) (ground (arith, enough, some_bytes, len))
                              (ground (arith, few, len)) in
                          (a, os2, ground (arith, some_bytes, few, run, e, no_end, rest), tt)
                      | inr (end, found) ↦
                          let cut = cut_request (text_of r.block) end recv_buf' in
                          (
                            (some cut.0, cut.1, conn'),
                            os1,
                            ground (arith, some_bytes, few, run, e, found),
                            tt,
                          )
                    ]
            ]
      ]
    ]

-- `recv_req` returns, whatever the connection gives and whichever allocations fail: each block of
-- bytes takes it closer to the limit of a message, where it stops.
pub recv_req_returns :
    (max_msg_len front : ℕ) (recv_buf : RecvBuffer) (conn : Conn) (os : Os)
    → (r : Option Bytes × RecvBuffer × Conn) × (os' : Os) × (recv_req max_msg_len front recv_buf
          conn os
        ≡ done r os')
unfolding recv_req
recv_req_returns max_msg_len front recv_buf conn os =
    elim (Option-cases (os.answers os.calls (recv_block_sz + 1))) [
      | inl e ↦ ((none, recv_buf, conn), record os { calls = os.calls + 1 }, ground (arith, e))
      | inr (a, e) ↦
          let os1 : Os = record os { calls = os.calls + 1; live = a ∷ os.live } in
          let p : Partial = record {
            req_start = a;
            block = fresh_bytes a (recv_block_sz + 1) os1;
            cap = recv_block_sz + 1;
            len = 0;
          } in
          let (r, os2, run, _) =
            loop_returns (suc max_msg_len) max_msg_len front p recv_buf conn os1 (omega arith)
              (omega arith) (omega arith) in
          (r, os2, ground (arith, e, run))
    ]
