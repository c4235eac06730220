-- ===== src/RecvBuf/Deliver.antt =====
-- `recv_req` against the stream: all of it.
use iomessage.Prelude.{
  ℕ, zero, suc, ◌+◌, ◌≤◌, ◌<◌, ◌≡◌, ap, append_assoc, append-nil, refl, sym, ◌∙◌, Option, none,
  some, [], ◌∷◌, ◌++◌, arith, ◌==◌, leb, length, Bytes, inl, inr, Bool-cases, Option-cases,
}
use mathlib.Core.Path.{subst}
use iomessage.Text.{escaped_strchr}
use iomessage.Text.Copy.{IsText}
use iomessage.Text.Find.{find_unescaped, escaped_strchr-find}
use iomessage.Memory.{Os, fresh_bytes, remove}
use iomessage.Memory.Runs.{Runs, Failed, Later}
use iomessage.Network.{Conn}
use iomessage.Request.Types.{text_of}
use iomessage.RecvBuf.{RecvBuffer, recv_block_sz, Partial, append_bytes, recv_loop, recv_req}
use iomessage.RecvBuf.Block.{Filled, make_room-Filled, append_bytes-Filled}
use iomessage.RecvBuf.Stream.{
  after_recvs, arrived, IsClean, IsClean-after_recvs, Keeps, next_bytes-Keeps,
}
use iomessage.RecvBuf.Promise.{
  Delivers-within, Delivers, no_bytes, too_long, Delivers-after_recvs, found-Delivers,
}

loop-Delivers :
    (answers : ℕ → ℕ → Option ℕ) (fuel max_msg_len front : ℕ) (p : Partial) (text held : Bytes)
    (b : RecvBuffer) (conn : Conn) (os : Os)
    → Filled p text
    → find_unescaped front text b']' ≡ none
    → Keeps b held
    → IsText held
    → IsClean conn
    → 0 < p.cap
    → max_msg_len < fuel + p.len
    → p.len ≤ max_msg_len
    → os.answers ≡ answers
    → Runs (recv_loop fuel max_msg_len front p b conn os) (λ r os'.
      Delivers answers os.calls os'.calls max_msg_len front (text ++ held) conn r.0 r.1 r.2
      × Later answers os.calls os')
unfolding recv_loop
loop-Delivers answers zero max_msg_len front p text held b conn os f open_end k t clean pos enough
      small same =
    absurd (omega (arith, enough, small))
loop-Delivers answers (suc fuel) max_msg_len front p text held b conn os f open_end k t clean pos
      enough small same =
    let (m, b', next, k', t', short, ends_empty) = next_bytes-Keeps b held conn k t clean in
    let bytes : Bytes = held ++ arrived m conn in
    let conn' : Conn = after_recvs m conn in
    let stopped : Os → Os = λ s. record s { live = remove p.req_start s.live } in
    elim (Bool-cases (length bytes == 0)) [
      | inl ended ↦
          let still_open : find_unescaped front ((text ++ held) ++ arrived m conn) b']' ≡ none =
            ap (λ s. find_unescaped front s b']')
              (append_assoc text held (arrived m conn)
                ∙ ap (λ s. text ++ s) (no_bytes bytes ended)
                ∙ append-nil text)
            ∙ open_end in
          (
            (none, b', conn'),
            stopped os,
            ground (arith, next, ended),
            (
              (
                m,
                [],
                k',
                tt,
                refl,
                inr (inl (0, omega arith, ends_empty (no_bytes bytes ended), still_open)),
              ),
              (same, omega arith),
            ),
          )
      | inr some_bytes ↦ elim (Bool-cases (leb max_msg_len (p.len + length bytes))) [
        | inl many ↦ (
          (none, b', conn'),
          stopped os,
          ground (arith, next, some_bytes, many),
          (
            (
              m,
              [],
              k',
              tt,
              refl,
              inr (inr (too_long p text held (arrived m conn) max_msg_len f many)),
            ),
            (same, omega arith),
          ),
        )
        | inr few ↦
            let (made, os1, run, (same_os, h)) = make_room-Filled p text (length bytes) os f pos in
            elim h [
              | inl (e, refused) ↦ (
                (none, b', conn'),
                stopped os1,
                ground (arith, next, some_bytes, few, run, e),
                (
                  (
                    m,
                    [],
                    k',
                    tt,
                    refl,
                    inl (subst (λ asked. Failed asked os.calls os1.calls) same refused),
                  ),
                  (same_os.0 ∙ same, same_os.1),
                ),
              )
              | inr (q, e, fq, room) ↦
                  let r : Partial = append_bytes q bytes in
                  let room' : q.len + length bytes < q.cap =
                    omega (arith, room, fq.count, f.count) in
                  let (fr, read) =
                    append_bytes-Filled q text bytes fq t' room' (omega (arith, short)) in
                  let same_len : p.len ≡ q.len = omega (arith, fq.count, f.count) in
                  elim (Option-cases
                    (escaped_strchr (record { before = front; text = text_of r.block }) b']')) [
                      | inl no_end ↦
                          let still : find_unescaped front (text ++ bytes) b']' ≡ none =
                            sym (
                              escaped_strchr-find (record { before = front; text = text ++ bytes })
                                b']')
                            ∙ (rw read at no_end) in
                          let (a, os2, rest, (delivers, kept)) =
                            loop-Delivers answers fuel max_msg_len front r (text ++ bytes) [] b'
                              conn' os1 fr still k' tt (IsClean-after_recvs m conn clean)
                              (omega (arith, room')) (ground (arith, enough, some_bytes, same_len))
                              (ground (arith, few, same_len)) (same_os.0 ∙ same) in
                          (
                            a,
                            os2,
                            ground (arith, next, some_bytes, few, run, e, no_end, rest),
                            (
                              Delivers-after_recvs answers os.calls os1.calls os2.calls max_msg_len
                                  front m text held conn a.0 a.1 a.2 same_os.1 delivers,
                              (kept.0, omega (arith, same_os.1, kept.1)),
                            ),
                          )
                      | inr (end, found) ↦
                          let hit : find_unescaped front (text ++ bytes) b']' ≡ some end =
                            sym (
                              escaped_strchr-find (record { before = front; text = text ++ bytes })
                                b']')
                            ∙ (rw read at found) in
                          let (req, left, cut, delivers) =
                            found-Delivers answers os.calls os1.calls max_msg_len front m end text
                              held b' conn fr.no_nul k' open_end hit short in
                          (
                            (some req, left, conn'),
                            os1,
                            ground (arith, next, some_bytes, few, run, e, found, read, cut),
                            (delivers, (same_os.0 ∙ same, same_os.1)),
                          )
                    ]
            ]
      ]
    ]

pub recv_req_runs :
    (max_msg_len front : ℕ) (held : Bytes) (b : RecvBuffer) (conn : Conn) (os : Os)
    → Keeps b held
    → IsText held
    → IsClean conn
    → Runs (recv_req max_msg_len front b conn os) (λ r os'.
      Delivers os.answers os.calls os'.calls max_msg_len front held conn r.0 r.1 r.2
      × Later os.answers os.calls os')
unfolding recv_req find_unescaped
recv_req_runs max_msg_len front held b conn os k t clean =
    elim (Option-cases (os.answers os.calls (recv_block_sz + 1))) [
      | inl e ↦ (
        (none, b, conn),
        record os { calls = os.calls + 1 },
        ground (arith, e),
        (
          (0, held, k, t, refl, inl (os.calls, recv_block_sz + 1, omega arith, omega arith, e)),
          (refl, omega arith),
        ),
      )
      | inr (a, e) ↦
          let os1 : Os = record os { calls = os.calls + 1; live = a ∷ os.live } in
          let block : Bytes = fresh_bytes a (recv_block_sz + 1) os1 in
          let p : Partial = record {
            req_start = a;
            block = block;
            cap = recv_block_sz + 1;
            len = 0;
          } in
          let f : Filled p [] = record {
            junk = block;
            holds = refl;
            count = refl;
            whole = refl;
            no_nul = tt;
          } in
          let (r, os2, run, (delivers, kept)) =
            loop-Delivers os.answers (suc max_msg_len) max_msg_len front p [] held b conn os1 f refl
              k t clean (omega arith) (omega arith) (omega arith) refl in
          (
            r,
            os2,
            ground (arith, e, run),
            (
              Delivers-within os.answers os.calls os1.calls os2.calls max_msg_len front held conn
                  r.0 r.1 r.2 (omega arith) delivers,
              (kept.0, omega (arith, kept.1)),
            ),
          )
    ]

-- `recv_req` against the stream: the bytes that the buffer holds, then those that each call of `recv`
-- gives. If the stream has no NUL and the buffer is as `create_recv_buf` made it, with fewer than a
-- block of bytes, then `recv_req` returns. It gives a request that ends at the first closing bracket not
-- escaped; the request and what is left in the buffer are just the bytes of the stream that were taken,
-- in order: none is lost, none is made up. Or it gives NULL, and then an allocation of its own failed, one
-- of the calls of `recv`, or the next, gave no byte while none of the bytes so far closed a request, or as many bytes came as the largest message has. The buffer is in both cases fit
-- for the next call.
pub recv_req-Delivers :
    (max_msg_len front : ℕ) (held : Bytes) (b : RecvBuffer) (conn : Conn) (os : Os)
    → Keeps b held
    → IsText held
    → IsClean conn
    → Runs
        (recv_req max_msg_len front b conn os)
        (λ r os'. Delivers os.answers os.calls os'.calls max_msg_len front held conn r.0 r.1 r.2)
recv_req-Delivers max_msg_len front held b conn os k t clean =
    let (r, os', run, (delivers, _)) = recv_req_runs max_msg_len front held b conn os k t clean in
    (r, os', run, delivers)
