-- ===== src/Setup/Copies.antt =====
-- client/src/win/NetworkManager_win_imp.c: the client's copy of the file, which copies texts by `strncpy`.
use iomessage.Prelude.{
  ℕ, zero, suc, ◌+◌, ◌-◌, ◌<◌, ◌^◌, ◌≡◌, ◌⊎◌, refl, sym, ap, ◌∙◌, arith, Bool-cases, inl, inr, [],
  ◌∷◌, ◌++◌, length, take, drop, set, replicate, Bytes, length-take, length-tabulate, tabulate,
}
use iomessage.Text.Copy.{IsText, copy_str_lem}
use iomessage.Request.Types.{text_of}
use iomessage.Config.Lines.{text_of-set, IsText-take}
use iomessage.Setup.{
  loopback, Windows, System, Ran, returned, ended, S, by_copy_str, by_strncpy, copied_to, array_of,
  port_of, Port, Copier, atoi, ServerContext, ClientContext,
}
use iomessage.Setup.Server.{init_server, obtain_parts, serve_on, context_of}
use iomessage.Setup.Client.{init_client}

-- `NM_init_server` and `NM_init_client` of the client's program.
unfoldable pub client_side_init_server : Windows → Bytes → S ServerContext
client_side_init_server windows port = init_server by_strncpy windows port

unfoldable pub client_side_init_client : Windows → Bytes → Bytes → Bytes → S ClientContext
client_side_init_client windows dst_port src_port ip =
    init_client by_strncpy windows dst_port src_port ip

Ran-cases :
    {A : Type 0} (r : Ran A)
    → ((a : A) × (t : System) × (r ≡ returned a t)) ⊎ ((t : System) × (r ≡ ended t))
Ran-cases (returned a t) = inl (a, t, refl)
Ran-cases (ended t) = inr (t, refl)

by_copy_str-text :
    (junk text : Bytes) (n : ℕ)
    → IsText text
    → length junk ≡ suc n
    → suc n < 2 ^ 64
    → text_of (copied_to by_copy_str junk (suc n) text) ≡ take n text
unfolding copied_to by_copy_str
by_copy_str-text junk text n h l small =
    let e : suc n - 1 ≡ n = omega arith in
    rw (copy_str_lem junk text (suc n) (omega arith) (omega (arith, l)) small) (
      rw e
        (text_of-set (take n text) _ n (IsText-take n text h) (omega (arith, length-take n text))))

-- `strncpy` and the terminator: the front of the text and NULs.
strncpy_set :
    (text rest : Bytes) (n m : ℕ)
    → IsText text
    → n < m
    → text_of (set (take (suc n) (text ++ replicate m 0) ++ rest) n 0) ≡ take n text
strncpy_set text rest n zero h lt = absurd (omega arith)
strncpy_set [] rest zero (suc m) h lt = refl
strncpy_set [] rest (suc n) (suc m) h lt = refl
strncpy_set (c ∷ text) rest zero (suc m) h lt = refl
strncpy_set (c ∷ text) rest (suc n) (suc m) h lt =
    ground (arith, h.0, strncpy_set text rest n (suc m) h.1 (omega (arith, lt)))

by_strncpy-text :
    (junk text : Bytes) (n : ℕ)
    → IsText text
    → text_of (copied_to by_strncpy junk (suc n) text) ≡ take n text
unfolding copied_to by_strncpy
by_strncpy-text junk text n h =
    let e : suc n - 1 ≡ n = omega arith in
    rw e (strncpy_set text (drop (suc n) junk) n (suc n) h (omega arith))

module _ (windows : Windows) where
  array-same :
      (start n : ℕ) (text : Bytes)
      → IsText text
      → suc n < 2 ^ 64
      → text_of (array_of by_strncpy windows start (suc n) text)
        ≡ text_of (array_of by_copy_str windows start (suc n) text)
  unfolding array_of
  array-same start n text h small =
      let junk : Bytes = tabulate (suc n) (λ i. windows.garbage (start + i)) in
      by_strncpy-text junk text n h
      ∙ sym (
          by_copy_str-text junk text n h
            (length-tabulate (suc n) (λ i. windows.garbage (start + i))) small)

  -- The two ports are the same to a reader of texts and numbers.
  abbrev pub SamePort : Port → Port → Type 0
  SamePort p q = (text_of p.string_port ≡ text_of q.string_port) × (p.num_port ≡ q.num_port)

  port-same :
      (start : ℕ) (text : Bytes)
      → IsText text
      → SamePort (port_of by_strncpy windows start text) (port_of by_copy_str windows start text)
  unfolding port_of
  port-same start text h =
      let same = array-same start 5 text h (omega arith) in (same, ap atoi same)

  -- The same end, or contexts that hold the same, with the same texts and port.
  abbrev pub SameServer : Ran ServerContext → Ran ServerContext → Type 0
  SameServer (returned c s) (returned d t) =
      (s ≡ t)
      × ((c.address ≡ d.address)
          × (c.n_sock ≡ d.n_sock)
          × (c.addr ≡ d.addr)
          × (c.started ≡ d.started))
      × (text_of c.string_ip ≡ text_of d.string_ip)
      × SamePort c.port d.port
  SameServer (ended s) (ended t) = s ≡ t
  SameServer _ _ = ⊥

  serve_on-same :
      (c d : ServerContext) (s : System)
      → ((c.address ≡ d.address)
          × (c.n_sock ≡ d.n_sock)
          × (c.addr ≡ d.addr)
          × (c.started ≡ d.started))
      → text_of c.string_ip ≡ text_of d.string_ip
      → SamePort c.port d.port
      → SameServer (serve_on by_strncpy windows c s) (serve_on by_copy_str windows d s)
  unfolding serve_on
  serve_on-same c d s h ip port = elim (Bool-cases (windows.succeeds (s.calls + 1))) [
    | inr no_bind ↦ rw (no_bind, SameServer) (ground (arith, h.0, h.1, h.2, h.3))
    | inl bound ↦
        rw (bound, SameServer)
          (elim (Bool-cases (windows.succeeds (s.calls + 1 + 1))) [
            | inr no_listen ↦ rw (no_listen, SameServer) (ground (arith, h.0, h.1, h.2, h.3))
            | inl listens ↦ rw (listens, SameServer) (refl, h, ip, port)
          ])
  ]

  init_on :
      (copy : Copier) (port : Bytes) (s : System) (p : ℕ × ℕ × ℕ × ℕ) (t : System)
      → obtain_parts windows s ≡ returned p t
      → init_server copy windows port s
        ≡ serve_on copy windows (context_of copy windows port p.0 p.1 p.2 p.3) t
  unfolding init_server
  init_on copy port s p t e = ground (arith, e)

  init_ends :
      (copy : Copier) (port : Bytes) (s t : System)
      → obtain_parts windows s ≡ ended t
      → init_server copy windows port s ≡ ended t
  unfolding init_server
  init_ends copy port s t e = ground (arith, e)

  loopback-IsText : IsText loopback
  loopback-IsText = ground arith

  -- The client's `NM_init_server`, which copies by `strncpy`, and the server's, which copies by `copy_str`,
  -- are the same: on every system, for every port text, they end in the same state, or they return
  -- contexts that hold the same and whose texts and port number are the same.
  pub client_side_init_server-same :
      (port : Bytes) (s : System)
      → IsText port
      → SameServer (client_side_init_server windows port s) (init_server by_copy_str windows port s)
  unfolding client_side_init_server
  client_side_init_server-same port s h = elim (Ran-cases (obtain_parts windows s)) [
    | inl (p, t, e) ↦
        rw (init_on by_strncpy port s p t e, init_on by_copy_str port s p t e)
          (serve_on-same (context_of by_strncpy windows port p.0 p.1 p.2 p.3)
            (context_of by_copy_str windows port p.0 p.1 p.2 p.3) t (refl, refl, refl, refl)
            (array-same (p.0 + 6) 15 loopback loopback-IsText (omega arith)) (port-same p.0 port h))
    | inr (t, e) ↦ rw (init_ends by_strncpy port s t e, init_ends by_copy_str port s t e) refl
  ]
