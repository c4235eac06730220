-- ===== src/Main/Sessions.antt =====
-- The life of a session: the arguments, the thread and the connection of a communicator.
use iomessage.Prelude.{
  ℕ, zero, suc, ◌+◌, ◌<◌, ◌≡◌, refl, arith, true, false, Bool-cases, inl, inr, Option, none, some,
  ◌∷◌, ◌++◌, [], List, ◌↔◌, ◌⊎◌, ◌&&◌,
}
use iomessage.Setup.{
  Kind, thread, block, socket, Windows, System, Ran, returned, ended, S, pure, ◌>>=◌, ◌>>◌, release,
  obtain, by_copy_str, Connection,
}
use iomessage.Setup.Server.{destroy_conn}
use iomessage.Threads.{Thread, create_thread, routine_end, destroy_thread}

-- The blocks of a `shared_queue_t`.
pub record QueueBlocks : Type 0 where
  pub shq : ℕ
  pub queue : ℕ

-- `struct communicator_args`, without what all communicators share.
pub record CommArgs : Type 0 where
  pub address : ℕ
  pub conn : Connection
  pub communicator_id : ℕ
  pub response_queue : QueueBlocks

module _ (windows : Windows) where
  -- `make_shared_queue`, by what it holds.
  unfoldable pub make_queue : ℕ → S (Option QueueBlocks)
  make_queue zero = pure none
  make_queue (suc cap) = do
    made ← obtain windows block
    elim made [
      | none ↦ pure none
      | some shq ↦ do
        cells ← obtain windows block
        elim cells [
          | none ↦ do release block shq; pure none
          | some queue ↦ pure (some (record { shq = shq; queue = queue }))
        ]
    ]

  -- `destroy_shared_queue`, by what it holds: no element is destroyed.
  unfoldable pub destroy_queue : QueueBlocks → S (Unit {0})
  destroy_queue q = do release block q.queue; release block q.shq

  -- `cap` is `RESPONSE_QUEUE_CAP`.
  unfoldable pub create_args_for_comm : ℕ → ℕ → Connection → S (Option CommArgs)
  unfolding make_queue destroy_queue
  create_args_for_comm cap communicator_id conn = do
    response_queue ← make_queue cap
    elim response_queue [
      | none ↦ pure none
      | some q ↦ do
        args ← obtain windows block
        elim args [
          | none ↦ do destroy_queue q; pure none
          | some a ↦ pure (
              some (record {
                address = a;
                conn = conn;
                communicator_id = communicator_id;
                response_queue = q;
              }))
        ]
    ]

  unfoldable pub destroy_args_for_comm : CommArgs → S (Unit {0})
  unfolding destroy_queue
  destroy_args_for_comm args = do destroy_queue args.response_queue; release block args.address

  unfoldable pub create_communicator : ℕ → ℕ → Connection → S (Option (Thread CommArgs))
  unfolding create_args_for_comm destroy_args_for_comm create_thread destroy_conn
  create_communicator cap communicator_id conn = do
    made ← create_args_for_comm cap communicator_id conn
    elim made [
      | none ↦ do destroy_conn by_copy_str windows conn; pure none
      | some args ↦ do
        begun ← create_thread windows args
        elim begun [
          | none ↦ do destroy_args_for_comm args; destroy_conn by_copy_str windows conn; pure none
          | some th ↦ pure (some th)
        ]
    ]

  unfoldable pub destroy_communicator : Thread CommArgs → S (Unit {0})
  unfolding destroy_args_for_comm destroy_thread
  destroy_communicator comm = do destroy_args_for_comm comm.args; destroy_thread comm

  -- `create_recv_buf`, by what it holds: the struct and its bytes.
  unfoldable pub obtain_recv_buf : S (Option (ℕ × ℕ))
  obtain_recv_buf = do
    made ← obtain windows block
    elim made [
      | none ↦ pure none
      | some new_buf ↦ do
        bytes ← obtain windows block
        elim bytes [
          | none ↦ do release block new_buf; pure none
          | some buf ↦ pure (some (new_buf, buf))
        ]
    ]

  recv_buf-cases :
      (s : System)
      → ((k : ℕ) × (obtain_recv_buf s ≡ returned none (record { calls = k; held = s.held }))
          × ((windows.succeeds s.calls && windows.succeeds (s.calls + 1)) ≡ false))
        ⊎ ((obtain_recv_buf s
              ≡ returned (some (s.calls, s.calls + 1)) (record {
                calls = s.calls + 1 + 1;
                held = (block, s.calls + 1) ∷ (block, s.calls) ∷ s.held;
              }))
            × ((windows.succeeds s.calls && windows.succeeds (s.calls + 1)) ≡ true))
  unfolding obtain_recv_buf
  recv_buf-cases s = elim (Bool-cases (windows.succeeds s.calls)) [
    | inr no_buf ↦ inl (s.calls + 1, ground (arith, no_buf), ground (arith, no_buf))
    | inl has_buf ↦ elim (Bool-cases (windows.succeeds (s.calls + 1))) [
      | inr no_bytes ↦
          inl
            (s.calls + 1 + 1, ground (arith, has_buf, no_bytes), ground (arith, has_buf, no_bytes))
      | inl has_bytes ↦ inr (ground (arith, has_buf, has_bytes), ground (arith, has_buf, has_bytes))
    ]
  ]

  -- The end of `communicator_main` and of the routine around it: nobody frees the receive buffer.
  unfoldable pub thread_ends : Thread CommArgs → S (Thread CommArgs)
  unfolding destroy_conn routine_end
  thread_ends th = do destroy_conn by_copy_str windows th.args.conn; routine_end th

  -- What is still held of the receive buffer.
  abbrev pub leaked : Option (ℕ × ℕ) → List (Kind × ℕ)
  leaked none = []
  leaked (some (new_buf, buf)) = (block, buf) ∷ (block, new_buf) ∷ []

  -- What becomes of a thread that begins in the state `s'`, ends, and is destroyed: just the receive buffer
  -- is left, where there was memory for it.
  abbrev pub IsLeftover : System → Thread CommArgs → System → Type 0
  IsLeftover t th s' =
      (buf : Option (ℕ × ℕ)) × (r : System) × (u : System) × (v : System) × (obtain_recv_buf s'
        ≡ returned buf r)
      × (thread_ends th r ≡ returned (record th { exited = true }) u)
      × (destroy_communicator (record th { exited = true }) u ≡ returned tt v)
      × (v.held ≡ leaked buf ++ t.held)
      × ((buf ≡ none) ↔ ((windows.succeeds s'.calls && windows.succeeds (s'.calls + 1)) ≡ false))

  -- What `create_communicator` must come to, with the connection held: nothing of the session is held any
  -- more; or a thread that waits to be run, with what is left of it in the end.
  abbrev pub IsSession : System → Ran (Option (Thread CommArgs)) → Type 0
  IsSession t (returned none s') = s'.held ≡ t.held
  IsSession t (returned (some th) s') = (th.exited ≡ false) × IsLeftover t th s'
  IsSession t (ended s') = ⊥

  -- The thread that `create_communicator` begins from the state `s`, and the state behind it.
  abbrev begun_thread : ℕ → Connection → System → Thread CommArgs
  begun_thread communicator_id conn s = record {
    address = s.calls + 1 + 1 + 1;
    handle = s.calls + 1 + 1 + 1 + 1 + 1;
    wrapper = s.calls + 1 + 1 + 1 + 1;
    exited = false;
    args = record {
      address = s.calls + 1 + 1;
      conn = conn;
      communicator_id = communicator_id;
      response_queue = record { shq = s.calls; queue = s.calls + 1 };
    };
  }

  abbrev begun_system : System → System
  begun_system s = record {
    calls = s.calls + 1 + 1 + 1 + 1 + 1 + 1;
    held =
        (thread, s.calls + 1 + 1 + 1 + 1 + 1)
        ∷ (block, s.calls + 1 + 1 + 1 + 1)
        ∷ (block, s.calls + 1 + 1 + 1)
        ∷ (block, s.calls + 1 + 1)
        ∷ (block, s.calls + 1)
        ∷ (block, s.calls)
        ∷ s.held;
  }

  begun-IsLeftover :
      (communicator_id : ℕ) (conn : Connection) (s t : System)
      → s.held ≡ (socket, conn.n_sock) ∷ (block, conn.address) ∷ t.held
      → conn.address < s.calls
      → IsLeftover t (begun_thread communicator_id conn s) (begun_system s)
  unfolding destroy_queue destroy_args_for_comm destroy_conn routine_end destroy_communicator
      destroy_thread thread_ends
  begun-IsLeftover communicator_id conn s t e lt = elim (recv_buf-cases (begun_system s)) [
    | inl (k, run, fails) ↦
        (none, _, _, _, run, refl, refl, ground (arith, e, lt), (λ x. fails, λ x. refl))
    | inr (run, works) ↦
        (some _, _, _, _, run, refl, refl, ground (arith, e, lt), (λ x. cc, λ x. cc))
  ]

  -- If the accepted connection is held, `create_communicator` returns NULL only with the connection closed
  -- and freed, and all that it had obtained given back; or a thread. When the thread has obtained its
  -- receive buffer and come to its end, and `destroy_communicator` has run, then the connection, the queue,
  -- the arguments, both structs and the handle are given back, and just the receive buffer is left: its
  -- two blocks leak, unless one of them could not be allocated.
  pub create_communicator-IsSession :
      (cap communicator_id : ℕ) (conn : Connection) (s t : System)
      → s.held ≡ (socket, conn.n_sock) ∷ (block, conn.address) ∷ t.held
      → conn.address < s.calls
      → IsSession t (create_communicator cap communicator_id conn s)
  unfolding create_communicator create_args_for_comm make_queue destroy_queue destroy_args_for_comm
      create_thread destroy_conn routine_end destroy_communicator destroy_thread thread_ends
  create_communicator-IsSession zero communicator_id conn s t e lt = ground (arith, e)
  create_communicator-IsSession (suc cap) communicator_id conn s t e lt =
      elim (Bool-cases (windows.succeeds s.calls)) [
        | inr no_queue ↦ rw (no_queue, create_communicator, IsSession) (ground (arith, e, lt))
        | inl has_queue ↦
            rw (has_queue, create_communicator, IsSession)
              (elim (Bool-cases (windows.succeeds (s.calls + 1))) [
                | inr no_cells ↦ rw (no_cells, IsSession) (ground (arith, e, lt))
                | inl has_cells ↦
                    rw (has_cells, IsSession)
                      (elim (Bool-cases (windows.succeeds (s.calls + 1 + 1))) [
                        | inr no_args ↦ rw (no_args, IsSession) (ground (arith, e, lt))
                        | inl has_args ↦
                            rw (has_args, IsSession)
                              (elim (Bool-cases (windows.succeeds (s.calls + 1 + 1 + 1))) [
                                | inr no_thread ↦ rw (no_thread, IsSession) (ground (arith, e, lt))
                                | inl has_thread ↦
                                    rw (has_thread, IsSession)
                                      (elim (Bool-cases
                                        (windows.succeeds (s.calls + 1 + 1 + 1 + 1))) [
                                          | inr no_wrapper ↦
                                              rw (no_wrapper, IsSession) (ground (arith, e, lt))
                                          | inl has_wrapper ↦
                                              rw (has_wrapper, IsSession)
                                                (elim (Bool-cases (
                                                  windows.succeeds (s.calls + 1 + 1 + 1 + 1 + 1))) [
                                                    | inr not_begun ↦
                                                        rw (not_begun, IsSession)
                                                          (ground (arith, e, lt))
                                                    | inl begins ↦
                                                        rw (begins, IsSession)
                                                          (
                                                            refl,
                                                            begun-IsLeftover communicator_id conn s
                                                            t e lt,
                                                          )
                                                  ])
                                        ])
                              ])
                      ])
              ])
      ]
