-- ===== src/Communicator/Run.antt =====
-- server/src/CommunicationManager.c: the rounds of the communicator, and `communicator_main`.
use iomessage.Prelude.{
  ℕ, zero, suc, ◌+◌, ◌*◌, ◌%◌, ◌^◌, true, false, none, some, List, [], get_or, Bytes,
}
use iomessage.Memory.{done, aborts, runs_out, M, pure, ◌>>=◌, ◌>>◌, free}
use iomessage.Network.{Conn, get_error, CommErr, nm_conn_closed, nm_timedout}
use iomessage.Request.Types.{ℤ, pos}
use iomessage.Request.Parse.{make_req}
use iomessage.RecvBuf.{RecvBuffer, recv_block_sz, create_recv_buf, recv_req}
use iomessage.Config.{
  Property, Number, number, exits, crashes, get_num_property, max_client_timeout, max_client_errors,
  max_message_len,
}
use iomessage.Communicator.{
  max_recv_timeo, send_all_resps, handle_client_errors, handle_request, World, Comm, LocalExit,
  no_exit, ungraceful_exit_triggered, ungraceful_exit,
}

module _ (world : World) where
  -- No request: the error of the connection says what it means.
  abbrev pub note_error : CommErr → Comm → LocalExit × Comm
  note_error nm_conn_closed c = (ungraceful_exit_triggered, c)
  note_error nm_timedout c =
      (no_exit, record c { client_inactive_time = c.client_inactive_time + max_recv_timeo })
  note_error _ c = (no_exit, record c { client_errors = c.client_errors + 1 })

  unfoldable pub no_request : Comm → M (LocalExit × Comm)
  unfolding get_error
  no_request c =
      let (err, conn) = get_error c.conn in pure (note_error err (record c { conn = conn }))

  -- Where the raw request lies: no block was allocated behind it.
  abbrev pub newest_block : M ℕ
  newest_block os = done (get_or os.live 0 0) os

  abbrev pub handle_raw : Bytes → Comm → M (LocalExit × Comm)
  unfolding handle_request
  handle_raw raw c = do
    block ← newest_block
    made ← make_req world.max_align world.front raw c.communicator_id
    free block
    elim made [
      | none ↦
          pure (no_exit, record c { client_inactive_time = 0; client_errors = c.client_errors + 1 })
      | some request ↦
          handle_request world request (record c { client_inactive_time = 0; client_errors = 0 })
    ]

  abbrev pub receive : Comm → M (LocalExit × Comm)
  unfolding no_request
  receive c = do
    (raw, recv_buf, conn) ← recv_req c.max_message_len world.front c.recv_buf c.conn
    elim raw [
      | none ↦ no_request (record c { recv_buf = recv_buf; conn = conn })
      | some text ↦ handle_raw text (record c { recv_buf = recv_buf; conn = conn })
    ]

  -- `status` is the value of the comparison `send_all_resps(...) != 0`; 1 is `NM_CONN_CLOSED`.
  abbrev pub after_responses : ℤ → Comm → M (LocalExit × Comm)
  after_responses (pos zero) c = receive c
  after_responses _ c = pure (ungraceful_exit, c)

  -- The body of the `while`.
  unfoldable pub round : Comm → M (LocalExit × Comm)
  unfolding handle_client_errors send_all_resps
  round c = do
    (loc_exit, c1) ← handle_client_errors world c
    elim loc_exit [
      | no_exit ↦ do (ret, c2) ← send_all_resps world c1; after_responses ret c2
      | e ↦ pure (e, c1)
    ]

  -- The `while`: the fuel bounds the rounds that a client keeps it going for.
  unfoldable pub comm_loop : ℕ → LocalExit → Comm → M (LocalExit × Comm)
  unfolding round
  comm_loop zero exit c os = runs_out
  comm_loop (suc fuel) exit c os = elim exit [
    | no_exit ↦ elim (world.exit_flag c.flag_reads) [
      | true ↦ done (no_exit, record c { flag_reads = c.flag_reads + 1 }) os
      | false ↦
          (do (e, c') ← round (record c { flag_reads = c.flag_reads + 1 }); comm_loop fuel e c') os
    ]
    | e ↦ done (e, c) os
  ]

  -- `NM_destroy_conn`
  unfoldable pub destroy_conn : Comm → M (Unit {0} × Comm)
  destroy_conn c = do free c.conn_block; pure (tt, record c { closed = true })

  unfoldable pub finish : LocalExit × Comm → M (LocalExit × Comm)
  unfolding destroy_conn
  finish (loc_exit, c) = do (_, c') ← destroy_conn c; pure (loc_exit, c')

  -- A number of the configuration. `abort_error` ends the program, and so does a NULL that is followed.
  abbrev pub with_num : Number → (ℕ → M (LocalExit × Comm)) → M (LocalExit × Comm)
  with_num (number n) k = k n
  with_num exits k = λ os. aborts
  with_num crashes k = λ os. aborts

  abbrev pub no_buffer : RecvBuffer
  no_buffer = record { buf = []; cap = 0; len = 0 }

  abbrev pub start_comm : ℕ → ℕ → Conn → ℕ → ℕ → ℕ → Comm
  start_comm communicator_id conn_block conn len timeout errors = record {
    communicator_id = communicator_id;
    conn_block = conn_block;
    conn = conn;
    closed = false;
    recv_buf = no_buffer;
    client_inactive_time = 0;
    client_errors = 0;
    max_message_len = (len * 1024) % 2 ^ 64;
    max_timeout = (timeout * 1000) % 2 ^ 64;
    max_errors = errors;
    pushes = 0;
    pops = 0;
    flag_reads = 0;
    queued = [];
  }

  unfoldable pub run_comm : ℕ → Comm → M (LocalExit × Comm)
  unfolding comm_loop finish
  run_comm fuel c = do
    made ← create_recv_buf recv_block_sz
    elim made [
      | none ↦ finish (ungraceful_exit, c)
      | some recv_buf ↦ do
        ended ← comm_loop fuel no_exit (record c { recv_buf = recv_buf })
        finish ended
    ]

  unfoldable pub communicator_main : ℕ → List Property → ℕ → ℕ → Conn → M (LocalExit × Comm)
  unfolding run_comm
  communicator_main fuel properties communicator_id conn_block conn =
      with_num (get_num_property properties max_message_len) (λ len.
        with_num (get_num_property properties max_client_timeout) (λ timeout.
          with_num (get_num_property properties max_client_errors) (λ errors.
            run_comm fuel (start_comm communicator_id conn_block conn len timeout errors))))
