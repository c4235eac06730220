-- ===== src/Communicator/Silent.antt =====
-- `communicator_main` with a client that sends nothing.
use iomessage.Prelude.{
  ℕ, zero, suc, ◌+◌, ◌*◌, ◌%◌, ◌^◌, ◌≤◌, ◌<◌, ◌≡◌, ◌≢◌, refl, arith, true, false, Bool-cases, inl,
  inr, none, some, List, [], ◌∷◌, ◌⊎◌, Bytes, leb, length,
}
use iomessage.Memory.{Os, remove}
use iomessage.Memory.Runs.{Runs}
use iomessage.Network.{
  Conn, send_failed, wsaeintr, send_all, SendEnd, sent_bytes, sent_none, interrupted, nm_ok,
  get_error,
}
use iomessage.Network.Send.{send_all-Ends}
use iomessage.Request.Types.{ℤ, text_of}
use iomessage.Response.{raw_text, make_raw_resp}
use iomessage.RecvBuf.Stream.{Keeps}
use iomessage.RecvBuf.Silent.{HasMemory, IsSilent, timed_out, create_recv_buf_runs, recv_req-silent}
use iomessage.Config.{
  Property, number, get_num_property, max_client_timeout, max_client_errors, max_message_len,
}
use iomessage.Communicator.{
  World, Comm, LocalExit, no_exit, ungraceful_exit_triggered, ungraceful_status, timed_out_text,
  send_resp, handle_client_errors,
}
use iomessage.Communicator.Run.{
  round, comm_loop, no_request, destroy_conn, finish, run_comm, start_comm, communicator_main,
}
use iomessage.Communicator.Serves.{round-receive}

-- The send that does not run out: no call is interrupted, and there are as many rounds as bytes.
send_all-returns :
    (fuel : ℕ) (text : Bytes) (conn : Conn)
    → ((k : ℕ) → conn.sends k ≢ send_failed wsaeintr)
    → length text ≤ fuel
    → (send_all fuel text conn).0 ≢ interrupted
send_all-returns fuel text conn calm enough e = elim (rw e at (send_all-Ends fuel text conn)) [
  | inl few ↦ absurd (omega (arith, few, enough))
  | inr (k, eintr) ↦ calm k eintr
]

SendEnd-cases : (r : SendEnd) → r ≢ interrupted → ((n : ℕ) × (r ≡ sent_bytes n)) ⊎ (r ≡ sent_none)
SendEnd-cases (sent_bytes n) h = inl (n, refl)
SendEnd-cases sent_none h = inr refl
SendEnd-cases interrupted h = absurd (h refl)

send_resp-returns :
    (fuel : ℕ) (status : ℤ) (payload : Bytes) (conn : Conn) (os : Os)
    → ((k : ℕ) → conn.sends k ≢ send_failed wsaeintr)
    → length (raw_text status (text_of payload)) ≤ fuel
    → HasMemory os.answers
    → Runs (send_resp fuel status payload conn os) (λ r os'. Unit {0})
unfolding send_resp make_raw_resp
send_resp-returns fuel status payload conn os calm enough memory =
    let text : Bytes = raw_text status (text_of payload) in
    let (a, e) = memory os.calls (length text + 1) in
    let os' : Os = record os { calls = os.calls + 1; live = remove a (a ∷ os.live) } in
    elim (SendEnd-cases (send_all fuel text conn).0 (send_all-returns fuel text conn calm enough)) [
      | inl (n, sent) ↦ ((some n, (send_all fuel text conn).1), os', ground (arith, e, sent), tt)
      | inr sent ↦ ((none, (send_all fuel text conn).1), os', ground (arith, e, sent), tt)
    ]

-- The client is silent, memory is there, no call of `send` is interrupted, and no error limit is reached.
pub record IsWaiting (c : Comm) (os : Os) : Type 0 where
  pub keeps : Keeps c.recv_buf []
  pub silent : IsSilent c.conn
  pub calm : (k : ℕ) → c.conn.sends k ≢ send_failed wsaeintr
  pub memory : HasMemory os.answers
  pub few : c.client_errors < c.max_errors

abbrev with_timeout : Comm → Comm
with_timeout c = record c {
  pops = c.pops + 1;
  conn = record (timed_out c.conn) { error = nm_ok };
  client_inactive_time = c.client_inactive_time + 100;
}

-- What the loop must come to: the client is cut off after the time limit, and less than one timeout
-- of `recv` late; nothing was queued.
abbrev pub IsCut : Comm → LocalExit → Comm → Type 0
IsCut c exit c' =
    (exit ≡ ungraceful_exit_triggered)
    × (c.max_timeout ≤ c'.client_inactive_time)
    × (c'.client_inactive_time < c.max_timeout + 100)
    × (c'.queued ≡ c.queued)

-- No response comes, the program does not end, and there is fuel for the sending.
pub record IsQuiet (world : World) : Type 0 where
  pub empty : (k : ℕ) → world.responses k ≡ none
  pub running : (k : ℕ) → world.exit_flag k ≡ false
  pub pops : (n : ℕ) × (world.pop_fuel ≡ suc n)
  pub sends : length (raw_text ungraceful_status (text_of timed_out_text)) ≤ world.send_fuel

module _ (world : World) (quiet : IsQuiet world) where
  IsWaiting-round :
      (c : Comm) (os : Os)
      → IsWaiting c os
      → c.client_inactive_time < c.max_timeout
      → Runs
          (round world c os)
          (λ r os'. (r ≡ (no_exit, with_timeout c)) × IsWaiting (with_timeout c) os')
  unfolding no_request get_error
  IsWaiting-round c os w early =
      rw (round-receive world c os quiet.pops.0 early w.few (quiet.empty c.pops) quiet.pops.1) (
        let (r, os', run, (gave_up, kept)) =
          recv_req-silent c.max_message_len world.front c.recv_buf c.conn os w.keeps w.silent
            w.memory in
        (
          (no_exit, with_timeout c),
          os',
          ground (arith, run, gave_up),
          (
            refl,
            record {
              keeps = w.keeps;
              silent = w.silent;
              calm = w.calm;
              memory = rw kept w.memory;
              few = w.few;
            },
          ),
        ))

  last_round :
      (c : Comm) (os : Os)
      → IsWaiting c os
      → c.max_timeout ≤ c.client_inactive_time
      → c.client_inactive_time < c.max_timeout + 100
      → Runs (round world c os) (λ r os'. IsCut c r.0 r.1)
  unfolding round handle_client_errors
  last_round c os w late soon =
      let e : leb c.max_timeout c.client_inactive_time ≡ true = ground (arith, late) in
      let ((sent, conn), os', run, _) =
        send_resp-returns world.send_fuel ungraceful_status timed_out_text c.conn os w.calm
          quiet.sends w.memory in
      (
        (ungraceful_exit_triggered, record c { conn = conn }),
        os',
        ground (arith, e, run),
        (refl, late, soon, refl),
      )

  loop-IsCut :
      (fuel : ℕ) (c : Comm) (os : Os)
      → IsWaiting c os
      → c.client_inactive_time < c.max_timeout + 100
      → c.max_timeout + 200 ≤ c.client_inactive_time + 100 * fuel
      → Runs (comm_loop world fuel no_exit c os) (λ r os'. IsCut c r.0 r.1)
  unfolding comm_loop
  loop-IsCut zero c os w soon enough = absurd (omega (arith, soon, enough))
  loop-IsCut (suc zero) c os w soon enough = absurd (omega (arith, soon, enough))
  loop-IsCut (suc (suc fuel)) c os w soon enough =
      let c1 : Comm = record c { flag_reads = c.flag_reads + 1 } in
      let w1 : IsWaiting c1 os = record {
        keeps = w.keeps;
        silent = w.silent;
        calm = w.calm;
        memory = w.memory;
        few = w.few;
      } in
      elim (Bool-cases (leb c.max_timeout c.client_inactive_time)) [
        | inl e ↦
            let ((exit, c'), os', run, cut) = last_round c1 os w1 (ground (arith, e)) soon in
            ((exit, c'), os', ground (arith, quiet.running c.flag_reads, run, cut.0), cut)
        | inr e ↦
            let (r, os', run, (stays, w')) = IsWaiting-round c1 os w1 (ground (arith, e)) in
            let (r', os'', run', cut) =
              loop-IsCut (suc fuel) (with_timeout c1) os' w' (ground (arith, e))
                (omega (arith, enough)) in
            (r', os'', ground (arith, quiet.running c.flag_reads, run, stays, run'), cut)
      ]

  run_comm-IsCut :
      (fuel : ℕ) (c : Comm) (os : Os)
      → IsSilent c.conn
      → ((k : ℕ) → c.conn.sends k ≢ send_failed wsaeintr)
      → HasMemory os.answers
      → c.client_errors < c.max_errors
      → c.client_inactive_time < c.max_timeout + 100
      → c.max_timeout + 200 ≤ c.client_inactive_time + 100 * fuel
      → Runs (run_comm world fuel c os) (λ r os'. IsCut c r.0 r.1 × (r.1.closed ≡ true))
  unfolding run_comm finish destroy_conn
  run_comm-IsCut fuel c os silent calm memory few soon enough =
      let (made, os1, run1, (b, e, keeps, kept)) = create_recv_buf_runs os memory in
      let c1 : Comm = record c { recv_buf = b } in
      let w : IsWaiting c1 os1 = record {
        keeps = keeps;
        silent = silent;
        calm = calm;
        memory = rw kept memory;
        few = few;
      } in
      let ((exit, c'), os2, run2, cut) = loop-IsCut fuel c1 os1 w soon enough in
      (
        (exit, record c' { closed = true }),
        record os2 { live = remove c'.conn_block os2.live },
        ground (arith, run1, e, run2),
        (cut, refl),
      )

  -- What `communicator_main` must come to: the client is cut off after the time limit, less than one
  -- timeout late, its connection is closed, and no request was queued.
  abbrev pub IsCutOff : ℕ → LocalExit → Comm → Type 0
  IsCutOff timeout exit c' =
      (exit ≡ ungraceful_exit_triggered)
      × (timeout * 1000 ≤ c'.client_inactive_time)
      × (c'.client_inactive_time < timeout * 1000 + 100)
      × (c'.closed ≡ true)
      × (c'.queued ≡ [])

  -- A silent client is cut off. If every `recv` times out, memory is there, no `send` is interrupted, no
  -- response comes and the program does not end, then `communicator_main` returns, with an ungraceful
  -- exit, once the counted time has reached the configured `MAX_CLIENT_TIMEOUT` seconds, less than 100 ms
  -- late; the connection is closed and nothing was queued. As many rounds as ten for each second, and
  -- two, are enough.
  pub communicator_main-IsCutOff :
      (fuel : ℕ) (properties : List Property) (communicator_id conn_block len timeout errors : ℕ)
      (conn : Conn) (os : Os)
      → get_num_property properties max_message_len ≡ number len
      → get_num_property properties max_client_timeout ≡ number timeout
      → get_num_property properties max_client_errors ≡ number errors
      → timeout < 2 ^ 54
      → 0 < errors
      → IsSilent conn
      → ((k : ℕ) → conn.sends k ≢ send_failed wsaeintr)
      → HasMemory os.answers
      → timeout * 10 + 2 ≤ fuel
      → Runs
          (communicator_main world fuel properties communicator_id conn_block conn os)
          (λ r os'. IsCutOff timeout r.0 r.1)
  unfolding communicator_main
  communicator_main-IsCutOff fuel properties communicator_id conn_block len timeout errors conn os
        el et ee small some_errors silent calm memory enough =
      let fits : (timeout * 1000) % 2 ^ 64 ≡ timeout * 1000 = omega (arith, small) in
      let (r, os', run, ((is_cut, late, soon, none_queued), closed)) =
        run_comm-IsCut fuel (start_comm world communicator_id conn_block conn len timeout errors) os
          silent calm memory some_errors (omega arith) (omega (arith, fits, enough)) in
      rw (el, et, ee)
        (
          r,
          os',
          run,
          (is_cut, omega (arith, late, fits), omega (arith, soon, fits), closed, none_queued),
        )
