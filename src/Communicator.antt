-- ===== src/Communicator.antt =====
-- server/src/CommunicationManager.c and CommunicationManager.h: the thread that serves one client.
-- The two shared queues, the exit flag and the properties are other threads' too: what each access of
-- them finds is a parameter.
pub mod Run
pub mod Silent
pub mod Next
pub mod Serves
pub mod Tests
use iomessage.Prelude.{
  ℕ, zero, suc, ◌+◌, ◌*◌, ◌%◌, ◌^◌, Bool, true, false, Option, none, some, List, [], ◌∷◌, ◌++◌,
  ◌==◌, if◌then◌else◌, leb, get_or, Bytes, codes,
}
use iomessage.Memory.{Os, Outcome, done, aborts, runs_out, M, pure, ◌>>=◌, ◌>>◌, free}
use iomessage.Network.{
  Conn, SendEnd, sent_bytes, sent_none, interrupted, send_all, get_error, CommErr, nm_ok,
  nm_conn_closed, nm_wouldblock, nm_timedout, nm_interrupted, nm_unknown_error,
}
use iomessage.Request.Types.{ℤ, pos, negsuc}
use iomessage.Request.Parse.{Request, make_req, destroy_req}
use iomessage.Response.{Response, make_raw_resp, destroy_resp}
use iomessage.RecvBuf.{RecvBuffer, recv_block_sz, create_recv_buf, recv_req}
use iomessage.Config.{
  Property, Number, number, exits, crashes, get_num_property, max_client_timeout, max_client_errors,
  max_message_len,
}

-- `MAX_RECV_TIMEO`
abbrev pub max_recv_timeo : ℕ
max_recv_timeo = 100

-- `enum communicator_local_exits`, and the value of `enum internal_status_codes` that is mixed into it.
pub data LocalExit : Type 0 where
  no_exit : LocalExit
  graceful_exit_triggered : LocalExit
  ungraceful_exit_triggered : LocalExit
  global_exit_triggered : LocalExit
  ungraceful_exit : LocalExit

-- The statuses `UNGRACEFUL_EXIT` and `GRACEFUL_EXIT`
abbrev pub ungraceful_status : ℤ
ungraceful_status = pos 100

abbrev pub graceful_status : ℤ
graceful_status = pos 200

-- A C string literal: its bytes and its terminator.
abbrev pub timed_out_text : Bytes
timed_out_text = codes "your client timed-out or failed to send heartbeat" ++ (0 ∷ [])

abbrev pub errors_text : Bytes
errors_text = codes "your client generates too many errors/the server is toast" ++ (0 ∷ [])

abbrev pub exited_text : Bytes
exited_text = codes "exited succesfully" ++ (0 ∷ [])

-- What the accesses find, each by its number: whether `push_back` takes the request, what `try_pop`
-- gives, whether the exit flag is set. `front` is the byte in memory in front of the raw requests.
pub record World : Type 0 where
  pub accepts : ℕ → Bool
  pub responses : ℕ → Option Response
  pub exit_flag : ℕ → Bool
  pub front : ℕ
  pub max_align : ℕ
  pub send_fuel : ℕ
  pub pop_fuel : ℕ

-- The locals of `communicator_main`, and how many accesses there were. `queued` are the requests that
-- the queue took.
pub record Comm : Type 0 where
  pub communicator_id : ℕ
  pub conn_block : ℕ
  pub conn : Conn
  pub closed : Bool
  pub recv_buf : RecvBuffer
  pub client_inactive_time : ℕ
  pub client_errors : ℕ
  pub max_message_len : ℕ
  pub max_timeout : ℕ
  pub max_errors : ℕ
  pub pushes : ℕ
  pub pops : ℕ
  pub flag_reads : ℕ
  pub queued : List Request

-- What `NM_send_all` returned, once the text is freed; `none` is -1.
abbrev pub sent_as : ℕ → SendEnd × Conn → M (Option ℕ × Conn)
sent_as raw (sent_bytes n, conn) = do free raw; pure (some n, conn)
sent_as raw (sent_none, conn) = do free raw; pure (none, conn)
sent_as raw (interrupted, conn) = λ os. runs_out

abbrev pub local_response : ℤ → Bytes → Response
local_response status payload = record {
  address = 0;
  status = status;
  payload_block = 0;
  payload = payload;
}

unfoldable pub send_resp : ℕ → ℤ → Bytes → Conn → M (Option ℕ × Conn)
send_resp fuel status payload conn = do
  made ← make_raw_resp (local_response status payload)
  elim made [ none ↦ pure (none, conn) | some (raw, text) ↦ sent_as raw (send_all fuel text conn) ]

module _ (world : World) where
  -- The rounds of `send_all_resps`; the fuel bounds how many responses are in the queue.
  pub resps_loop : ℕ → ℤ → Comm → M (ℤ × Comm)
  unfolding send_resp
  resps_loop zero ret c os = runs_out
  resps_loop (suc fuel) ret c os = elim (world.responses c.pops) [
    | none ↦ done (ret, record c { pops = c.pops + 1 }) os
    | some resp ↦
        (do
          (sent, conn) ← send_resp world.send_fuel resp.status resp.payload c.conn
          elim sent [
            | some n ↦ do
              destroy_resp resp
              resps_loop fuel ret (record c { pops = c.pops + 1; conn = conn })
            | none ↦
                let (err, conn') = get_error conn in
                elim err [
                  | nm_conn_closed ↦ do
                    destroy_resp resp
                    pure (pos 1, record c { pops = c.pops + 1; conn = conn' })
                  | _ ↦ do
                    destroy_resp resp
                    resps_loop fuel (negsuc 0) (record c { pops = c.pops + 1; conn = conn' })
                ]
          ])
          os
  ]

  unfoldable pub send_all_resps : Comm → M (ℤ × Comm)
  unfolding resps_loop
  send_all_resps c = resps_loop world.pop_fuel (pos 0) c

  -- What `send_resp` returns is not looked at.
  abbrev pub tell : ℤ → Bytes → LocalExit → Comm → M (LocalExit × Comm)
  unfolding send_resp
  tell status payload loc_exit c = do
    (_, conn) ← send_resp world.send_fuel status payload c.conn
    pure (loc_exit, record c { conn = conn })

  unfoldable pub handle_client_errors : Comm → M (LocalExit × Comm)
  handle_client_errors c = elim (leb c.max_timeout c.client_inactive_time) [
    | true ↦ tell ungraceful_status timed_out_text ungraceful_exit_triggered c
    | false ↦ elim (leb c.max_errors c.client_errors) [
      | true ↦ tell ungraceful_status errors_text ungraceful_exit_triggered c
      | false ↦ pure (no_exit, c)
    ]
  ]

  -- A request for the server: what `push_back` returns, and after a refusal the exit flag.
  abbrev pub queue_request : Request → Comm → M (LocalExit × Comm)
  queue_request request c = elim (world.accepts c.pushes) [
    | true ↦ pure (no_exit, record c { pushes = c.pushes + 1; queued = c.queued ++ (request ∷ []) })
    | false ↦ do
      destroy_req request
      pure (
        if world.exit_flag c.flag_reads then global_exit_triggered else no_exit,
        record c { pushes = c.pushes + 1; flag_reads = c.flag_reads + 1 },
      )
  ]

  abbrev pub handle_type : ℤ → Request → Comm → M (LocalExit × Comm)
  handle_type (pos zero) request c = do destroy_req request; pure (no_exit, c)
  handle_type (pos (suc zero)) request c = do
    destroy_req request
    tell graceful_status exited_text graceful_exit_triggered c
  handle_type type request c = queue_request request c

  unfoldable pub handle_request : Request → Comm → M (LocalExit × Comm)
  handle_request request c = handle_type request.request_type request c
