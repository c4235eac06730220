-- ===== src/Setup/Client.antt =====
-- `NM_init_client` and `NM_client_destroy`, and that they balance.
use iomessage.Prelude.{
  ℕ, ◌+◌, ◌≡◌, ◌⊎◌, refl, arith, true, false, Bool-cases, inl, inr, none, some, List, [], ◌∷◌,
  Bytes,
}
use iomessage.Setup.{
  ip_len_max, port_len_max, loopback, Kind, block, winsock, addr_info, socket, Windows, System, Ran,
  returned, ended, S, pure, ◌>>=◌, ◌>>◌, release, ask, obtain, Copier, array_of, port_of,
  ClientContext, give_up,
}

module _ (copy : Copier) (windows : Windows) where
  -- All that a context holds, in the order in which `bind` and `connect` give it back.
  abbrev all_of : ClientContext → List (Kind × ℕ)
  all_of ctx =
      (addr_info, ctx.src_addr)
      ∷ (addr_info, ctx.dest_addr)
      ∷ (block, ctx.connection.address)
      ∷ (socket, ctx.n_sock)
      ∷ (block, ctx.address)
      ∷ (winsock, ctx.started)
      ∷ []

  -- The socket is bound and connected, or all is given back.
  unfoldable pub connect_on : ClientContext → S ClientContext
  connect_on ctx = do
    reusable ← ask windows
    bound ← ask windows
    elim bound [
      | false ↦ give_up (all_of ctx)
      | true ↦ do
        connected ← ask windows
        elim connected [ false ↦ give_up (all_of ctx) | true ↦ pure ctx ]
    ]

  -- The context, once there are the blocks, the start of Winsock, the addresses and the socket.
  abbrev context_of : Bytes → Bytes → Bytes → ℕ → ℕ → ℕ → ℕ → ℕ → ℕ → ClientContext
  context_of dst_port src_port ip ctx conn started src dest n_sock = record {
    address = ctx;
    n_sock = n_sock;
    dest_addr = dest;
    src_addr = src;
    string_ip = array_of copy windows (ctx + port_len_max) ip_len_max loopback;
    port = port_of copy windows ctx src_port;
    connection = record {
      address = conn;
      n_sock = n_sock;
      string_ip = array_of copy windows (conn + port_len_max) ip_len_max ip;
      port = port_of copy windows conn dst_port;
    };
    started = started;
  }

  -- From the start of Winsock on, with both structs allocated.
  unfoldable pub start_client : Bytes → Bytes → Bytes → ℕ → ℕ → S ClientContext
  unfolding connect_on
  start_client dst_port src_port ip ctx conn = do
    startup ← obtain windows winsock
    elim startup [
      | none ↦ give_up ((block, ctx) ∷ [])
      | some started ↦ do
        version ← ask windows
        elim version [
          | false ↦ give_up ((block, conn) ∷ (block, ctx) ∷ (winsock, started) ∷ [])
          | true ↦ do
            src_info ← obtain windows addr_info
            elim src_info [
              | none ↦ give_up ((block, conn) ∷ (block, ctx) ∷ (winsock, started) ∷ [])
              | some src ↦ do
                dest_info ← obtain windows addr_info
                elim dest_info [
                  | none ↦
                      give_up
                        ((block, conn) ∷ (addr_info, src) ∷ (block, ctx) ∷ (winsock, started) ∷ [])
                  | some dest ↦ do
                    sock ← obtain windows socket
                    elim sock [
                      | none ↦ give_up (
                          (addr_info, src) ∷ (block, conn) ∷ (block, ctx) ∷ (winsock, started) ∷ [])
                      | some n_sock ↦
                          connect_on
                            (context_of dst_port src_port ip ctx conn started src dest n_sock)
                    ]
                ]
            ]
        ]
    ]

  -- The context, or the end of the program.
  unfoldable pub init_client : Bytes → Bytes → Bytes → S ClientContext
  unfolding start_client
  init_client dst_port src_port ip = do
    made ← obtain windows block
    elim made [
      | none ↦ give_up []
      | some ctx ↦ do
        connection ← obtain windows block
        elim connection [
          | none ↦ give_up ((block, ctx) ∷ [])
          | some conn ↦ start_client dst_port src_port ip ctx conn
        ]
    ]

  unfoldable pub client_destroy : ClientContext → S (Unit {0})
  client_destroy ctx = do
    release addr_info ctx.dest_addr
    release addr_info ctx.src_addr
    release socket ctx.n_sock
    release block ctx.connection.address
    release block ctx.address
    release winsock ctx.started

  -- What `NM_init_client` must come to: a context that `NM_client_destroy` gives back whole; or the end of
  -- the program, with nothing left, or with the one thing that the code forgets.
  abbrev pub IsClientBalanced : System → Ran ClientContext → Type 0
  IsClientBalanced s (returned ctx s') =
      (t : System) × (client_destroy ctx s' ≡ returned tt t) × (t.held ≡ s.held)
  IsClientBalanced s (ended t) =
      (t.held ≡ s.held)
      ⊎ (((t.held ≡ (block, s.calls + 1) ∷ s.held) × (windows.succeeds (s.calls + 1 + 1) ≡ false))
          ⊎ ((t.held ≡ (addr_info, s.calls + 1 + 1 + 1 + 1 + 1) ∷ s.held)
              × (windows.succeeds (s.calls + 1 + 1 + 1 + 1 + 1 + 1) ≡ false)))

  -- What is held behind `start_client` and `connect_on`, in the order in which it was obtained.
  abbrev Holds : ClientContext → System → System → Type 0
  Holds ctx s t =
      (s.held
        ≡ (socket, ctx.n_sock)
          ∷ (addr_info, ctx.dest_addr)
          ∷ (addr_info, ctx.src_addr)
          ∷ (winsock, ctx.started)
          ∷ (block, ctx.connection.address)
          ∷ (block, ctx.address)
          ∷ t.held)
      × (ctx.dest_addr ≡ ctx.src_addr + 1)
      × (ctx.connection.address ≡ ctx.address + 1)

  connect_on-IsClientBalanced :
      (ctx : ClientContext) (s t : System) → Holds ctx s t → IsClientBalanced t (connect_on ctx s)
  unfolding connect_on client_destroy
  connect_on-IsClientBalanced ctx s t (e, d, c) =
      elim (Bool-cases (windows.succeeds (s.calls + 1))) [
        | inr no_bind ↦ rw (no_bind, IsClientBalanced) (inl (ground (arith, e, d, c)))
        | inl bound ↦
            rw (bound, IsClientBalanced)
              (elim (Bool-cases (windows.succeeds (s.calls + 1 + 1))) [
                | inr no_connect ↦ rw (no_connect, IsClientBalanced) (inl (ground (arith, e, d, c)))
                | inl connects ↦ rw (connects, IsClientBalanced) (_, refl, ground (arith, e, d, c))
              ])
      ]

  -- The state with both structs allocated.
  abbrev with_blocks : System → System
  with_blocks t = record {
    calls = t.calls + 1 + 1;
    held = (block, t.calls + 1) ∷ (block, t.calls) ∷ t.held;
  }

  start_client-IsClientBalanced :
      (dst_port src_port ip : Bytes) (t : System)
      → IsClientBalanced t (start_client dst_port src_port ip t.calls (t.calls + 1) (with_blocks t))
  unfolding start_client
  start_client-IsClientBalanced dst_port src_port ip t =
      elim (Bool-cases (windows.succeeds (t.calls + 1 + 1))) [
        | inr no_start ↦
            rw (no_start, start_client, IsClientBalanced) (inr (inl (ground arith, no_start)))
        | inl starts ↦
            rw (starts, start_client, IsClientBalanced)
              (elim (Bool-cases (windows.succeeds (t.calls + 1 + 1 + 1))) [
                | inr old ↦ rw (old, IsClientBalanced) (inl (ground arith))
                | inl new ↦
                    rw (new, IsClientBalanced)
                      (elim (Bool-cases (windows.succeeds (t.calls + 1 + 1 + 1 + 1))) [
                        | inr no_src ↦ rw (no_src, IsClientBalanced) (inl (ground arith))
                        | inl has_src ↦
                            rw (has_src, IsClientBalanced)
                              (elim (Bool-cases (windows.succeeds (t.calls + 1 + 1 + 1 + 1 + 1))) [
                                | inr no_dest ↦ rw (no_dest, IsClientBalanced) (inl (ground arith))
                                | inl has_dest ↦
                                    rw (has_dest, IsClientBalanced)
                                      (elim (Bool-cases
                                        (windows.succeeds (t.calls + 1 + 1 + 1 + 1 + 1 + 1))) [
                                          | inr no_socket ↦
                                              rw (no_socket, IsClientBalanced)
                                                (inr (inr (ground arith, no_socket)))
                                          | inl has_socket ↦
                                              rw (has_socket, IsClientBalanced)
                                                (connect_on-IsClientBalanced _ _ t
                                                  (refl, refl, refl))
                                        ])
                              ])
                      ])
              ])
      ]

  -- `NM_init_client` and `NM_client_destroy` balance. A context that `NM_init_client` returns holds just
  -- what `NM_client_destroy` gives back. Where it ends the program, it has given back all that it
  -- obtained, but for two cases: if `WSAStartup` fails, the connection is not freed, and if `socket`
  -- fails, the addresses of the destination are not.
  pub init_client-IsClientBalanced :
      (dst_port src_port ip : Bytes) (s : System)
      → IsClientBalanced s (init_client dst_port src_port ip s)
  unfolding init_client
  init_client-IsClientBalanced dst_port src_port ip s =
      elim (Bool-cases (windows.succeeds s.calls)) [
        | inr no_block ↦ rw (no_block, init_client, IsClientBalanced) (inl refl)
        | inl has_block ↦
            rw (has_block, init_client, IsClientBalanced)
              (elim (Bool-cases (windows.succeeds (s.calls + 1))) [
                | inr no_conn ↦ rw (no_conn, init_client, IsClientBalanced) (inl (ground arith))
                | inl has_conn ↦
                    rw (has_conn, init_client, IsClientBalanced)
                      (start_client-IsClientBalanced dst_port src_port ip s)
              ])
      ]
