-- ===== src/Setup/Server.antt =====
-- `NM_init_server`, `NM_accept_conn`, `NM_srv_destroy` and `NM_destroy_conn`, and that they balance.
use iomessage.Prelude.{
  ℕ, ◌+◌, ◌-◌, ◌%◌, ◌<◌, ◌^◌, ◌≡◌, ◌⊎◌, refl, arith, true, false, Bool-cases, inl, inr, Option,
  none, some, [], ◌∷◌, Bytes, codes, take, take_all,
}
use iomessage.Config.{strtol, long}
use iomessage.Request.Types.{pos}
use iomessage.Response.{decimal}
use iomessage.Response.Decimal.{length-decimal}
use iomessage.Config.Numbers.{strtol-decimal}
use iomessage.Setup.{
  ip_len_max, port_len_max, loopback, block, winsock, addr_info, socket, Windows, System, Ran,
  returned, ended, S, pure, ◌>>=◌, ◌>>◌, release, ask, obtain, Copier, array_of, port_of,
  Connection, ServerContext, give_up,
}

port_text : (n : ℕ) → strtol (take 5 (decimal (pos (n % 2 ^ 16)))) ≡ long (pos (n % 2 ^ 16))
port_text n =
    let small : n % 2 ^ 16 < 2 ^ 16 = omega arith in
    rw (take_all 5 (decimal (pos (n % 2 ^ 16))) (length-decimal (n % 2 ^ 16) small))
      (strtol-decimal (pos (n % 2 ^ 16)) (omega (arith, small)))

-- The block, the start of Winsock, the addresses and the socket, or the end of the program.
unfoldable pub obtain_parts : Windows → S (ℕ × ℕ × ℕ × ℕ)
obtain_parts windows = do
  made ← obtain windows block
  elim made [
    | none ↦ give_up []
    | some ctx ↦ do
      startup ← obtain windows winsock
      elim startup [
        | none ↦ give_up ((block, ctx) ∷ [])
        | some started ↦ do
          version ← ask windows
          elim version [
            | false ↦ give_up ((block, ctx) ∷ (winsock, started) ∷ [])
            | true ↦ do
              info ← obtain windows addr_info
              elim info [
                | none ↦ give_up ((block, ctx) ∷ [])
                | some addr ↦ do
                  sock ← obtain windows socket
                  elim sock [
                    | none ↦ give_up ((addr_info, addr) ∷ (block, ctx) ∷ (winsock, started) ∷ [])
                    | some n_sock ↦ pure (ctx, started, addr, n_sock)
                  ]
              ]
          ]
      ]
  ]

module _ (copy : Copier) (windows : Windows) where
  -- The socket is bound and listens, or all is given back.
  unfoldable pub serve_on : ServerContext → S ServerContext
  serve_on ctx = do
    reusable ← ask windows
    bound ← ask windows
    elim bound [
      | false ↦ give_up (
          (addr_info, ctx.addr)
          ∷ (socket, ctx.n_sock)
          ∷ (block, ctx.address)
          ∷ (winsock, ctx.started)
          ∷ [])
      | true ↦ do
        listening ← ask windows
        elim listening [
          | false ↦ give_up (
              (addr_info, ctx.addr)
              ∷ (socket, ctx.n_sock)
              ∷ (block, ctx.address)
              ∷ (winsock, ctx.started)
              ∷ [])
          | true ↦ pure ctx
        ]
    ]

  -- The context, once there are the block, the start of Winsock, the addresses and the socket.
  abbrev pub context_of : Bytes → ℕ → ℕ → ℕ → ℕ → ServerContext
  context_of port ctx started addr n_sock = record {
    address = ctx;
    n_sock = n_sock;
    addr = addr;
    string_ip = array_of copy windows (ctx + port_len_max) ip_len_max loopback;
    port = port_of copy windows ctx port;
    started = started;
  }

  -- The context, or the end of the program.
  unfoldable pub init_server : Bytes → S ServerContext
  unfolding obtain_parts serve_on
  init_server port = do
    (ctx, started, addr, n_sock) ← obtain_parts windows
    serve_on (context_of port ctx started addr n_sock)

  unfoldable pub srv_destroy : ServerContext → S (Unit {0})
  srv_destroy ctx = do
    release addr_info ctx.addr
    release socket ctx.n_sock
    release block ctx.address
    release winsock ctx.started

  -- What `NM_init_server` must come to: a context that `NM_srv_destroy` gives back whole; or the end of the
  -- program, with nothing left, or with Winsock started where `getaddrinfo` failed.
  abbrev pub IsBalanced : System → Ran ServerContext → Type 0
  IsBalanced s (returned ctx s') =
      (t : System) × (srv_destroy ctx s' ≡ returned tt t) × (t.held ≡ s.held)
  IsBalanced s (ended t) =
      (t.held ≡ s.held)
      ⊎ ((t.held ≡ (winsock, s.calls + 1) ∷ s.held)
          × (windows.succeeds (s.calls + 1 + 1 + 1) ≡ false))

  serve_on-IsBalanced :
      (ctx : ServerContext) (s t : System)
      → s.held
        ≡ (socket, ctx.n_sock)
          ∷ (addr_info, ctx.addr)
          ∷ (winsock, ctx.started)
          ∷ (block, ctx.address)
          ∷ t.held
      → IsBalanced t (serve_on ctx s)
  unfolding serve_on srv_destroy
  serve_on-IsBalanced ctx s t e = elim (Bool-cases (windows.succeeds (s.calls + 1))) [
    | inr no_bind ↦ rw no_bind (inl (ground (arith, e)))
    | inl bound ↦ rw bound (elim (Bool-cases (windows.succeeds (s.calls + 1 + 1))) [
      | inr no_listen ↦ rw no_listen (inl (ground (arith, e)))
      | inl listens ↦ rw listens (_, refl, ground (arith, e))
    ])
  ]

  -- `NM_init_server` and `NM_srv_destroy` balance. A context that `NM_init_server` returns holds just what
  -- `NM_srv_destroy` gives back: the block, the start of Winsock, the addresses and the socket. Where it
  -- ends the program, it has given back all that it obtained, but for one case: if `getaddrinfo` fails,
  -- `WSACleanup` is not called.
  pub init_server-IsBalanced : (port : Bytes) (s : System) → IsBalanced s (init_server port s)
  unfolding init_server obtain_parts
  init_server-IsBalanced port s = elim (Bool-cases (windows.succeeds s.calls)) [
    | inr no_block ↦ rw (no_block, init_server, obtain_parts, IsBalanced) (inl refl)
    | inl has_block ↦
        rw (has_block, init_server, obtain_parts, IsBalanced)
          (elim (Bool-cases (windows.succeeds (s.calls + 1))) [
            | inr no_start ↦
                rw (no_start, init_server, obtain_parts, IsBalanced) (inl (ground arith))
            | inl starts ↦
                rw (starts, init_server, obtain_parts, IsBalanced)
                  (elim (Bool-cases (windows.succeeds (s.calls + 1 + 1))) [
                    | inr old ↦ rw (old, init_server, obtain_parts, IsBalanced) (inl (ground arith))
                    | inl new ↦
                        rw (new, init_server, obtain_parts, IsBalanced)
                          (elim (Bool-cases (windows.succeeds (s.calls + 1 + 1 + 1))) [
                            | inr no_info ↦
                                rw (no_info, init_server, obtain_parts, IsBalanced)
                                  (inr (ground arith, no_info))
                            | inl has_info ↦
                                rw (has_info, init_server, obtain_parts, IsBalanced)
                                  (elim (Bool-cases (windows.succeeds (s.calls + 1 + 1 + 1 + 1))) [
                                    | inr no_socket ↦
                                        rw (no_socket, init_server, obtain_parts, IsBalanced)
                                          (inl (ground arith))
                                    | inl has_socket ↦
                                        rw (has_socket, init_server, obtain_parts, IsBalanced)
                                          (serve_on-IsBalanced _ _ s refl)
                                  ])
                          ])
                  ])
          ])
  ]

  -- `NM_accept_conn`: a connection, or NULL. The port of the peer is printed with `%d`, cut to its array.
  unfoldable pub accept_conn : ServerContext → S (Option Connection)
  accept_conn ctx = do
    made ← obtain windows block
    elim made [
      | none ↦ pure none
      | some conn ↦ do
        accepted ← obtain windows socket
        elim accepted [
          | none ↦ do release block conn; pure none
          | some n_sock ↦ pure (
              some (record {
                address = conn;
                n_sock = n_sock;
                string_ip = elim (windows.peer_ip n_sock) [
                  | none ↦ codes "ERR"
                  | some ip ↦ take (ip_len_max - 1) ip
                ];
                port = record {
                  string_port =
                      take (port_len_max - 1) (decimal (pos (windows.peer_port n_sock % 2 ^ 16)));
                  num_port = pos (windows.peer_port n_sock % 2 ^ 16);
                };
              }))
        ]
    ]

  unfoldable pub destroy_conn : Connection → S (Unit {0})
  destroy_conn conn = do release socket conn.n_sock; release block conn.address

  -- What `NM_accept_conn` must come to: NULL, with nothing left, or a connection that `NM_destroy_conn`
  -- gives back whole and whose port text is the number of its port.
  abbrev pub IsAccepted : System → Ran (Option Connection) → Type 0
  IsAccepted s (returned none t) = t.held ≡ s.held
  IsAccepted s (returned (some conn) s') =
      (strtol conn.port.string_port ≡ long conn.port.num_port)
      × ((t : System) × (destroy_conn conn s' ≡ returned tt t) × (t.held ≡ s.held))
  IsAccepted s (ended t) = ⊥

  -- `NM_accept_conn` always returns. It gives NULL only with all given back; a connection that it gives
  -- back holds just what `NM_destroy_conn` gives back, and its port is in both forms the same number.
  pub accept_conn-IsAccepted : (ctx : ServerContext) (s : System) → IsAccepted s (accept_conn ctx s)
  unfolding accept_conn destroy_conn
  accept_conn-IsAccepted ctx s = elim (Bool-cases (windows.succeeds s.calls)) [
    | inr no_block ↦ rw (no_block, accept_conn, IsAccepted) refl
    | inl has_block ↦
        rw (has_block, accept_conn, IsAccepted)
          (elim (Bool-cases (windows.succeeds (s.calls + 1))) [
            | inr no_socket ↦ rw (no_socket, accept_conn, IsAccepted) (ground arith)
            | inl has_socket ↦
                rw (has_socket, accept_conn, IsAccepted)
                  (port_text (windows.peer_port (s.calls + 1)), (_, refl, ground arith))
          ])
  ]
