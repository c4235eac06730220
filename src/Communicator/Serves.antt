-- ===== src/Communicator/Serves.antt =====
-- A request of the client, from the bytes of the connection to the queue of the server.
use iomessage.Prelude.{
  ℕ, zero, suc, ◌+◌, ◌≤◌, ◌<◌, ◌^◌, ◌≡◌, ◌≢◌, ◌⊎◌, refl, sym, ap, ◌∙◌, arith, true, false, Option,
  none, some, List, [], ◌∷◌, ◌++◌, length, All, Bytes, inl, inr, Option-cases, leb, get_or,
}
use mathlib.Core.Path.{subst}
use iomessage.Text.Copy.{IsText}
use iomessage.Text.Find.{escaped_strchr-find}
use iomessage.Text.Escape.{escape}
use iomessage.Text.Frame.{last_byte}
use iomessage.Memory.{Os, remove}
use iomessage.Memory.Runs.{Runs, Failed, Failed-within}
use iomessage.Network.{
  Conn, CommErr, nm_ok, nm_conn_closed, nm_wouldblock, nm_timedout, nm_interrupted,
  nm_unknown_error, get_error,
}
use iomessage.Arena.Calls.{IsSetup}
use iomessage.Request.Types.{ℤ, pos, negsuc, string_type_to_int}
use iomessage.Request.Params.Pairs.{IsPair}
use iomessage.Request.Parse.{Request}
use iomessage.Request.Parse.Braces.{print_req}
use iomessage.Request.Parse.Made.{IsMade, IsMade-within, make_req-IsMade}
use iomessage.RecvBuf.Stream.{after_recvs, IsClean, IsClean-after_recvs, Keeps}
use iomessage.RecvBuf.Deliver.{recv_req_runs}
use iomessage.RecvBuf.Promise.{IsDropped}
use iomessage.Communicator.Next.{Carries, delivered_next, print_req-end}
use iomessage.Communicator.{
  World, Comm, LocalExit, no_exit, ungraceful_exit_triggered, handle_type, handle_request,
  queue_request, send_all_resps, handle_client_errors, resps_loop,
}
use iomessage.Communicator.Run.{note_error, no_request, receive, round, handle_raw}

-- The types that the communicator does not answer itself.
abbrev pub IsServerType : ℤ → Type 0
IsServerType (pos zero) = ⊥
IsServerType (pos (suc zero)) = ⊥
IsServerType _ = Unit

-- What `NM_get_error` leaves of a connection.
abbrev pub cleared : Conn → Conn
cleared conn = record conn { error = nm_ok }

-- What a round comes to that gets no request: the client is gone, or one of the two counters goes up.
abbrev pub IsNoted : LocalExit → Comm → Comm → Type 0
IsNoted exit c c' =
    (exit ≡ ungraceful_exit_triggered)
    ⊎ ((exit ≡ no_exit)
        × (((c'.client_inactive_time ≡ c.client_inactive_time + 100)
              × (c'.client_errors ≡ c.client_errors))
            ⊎ ((c'.client_inactive_time ≡ c.client_inactive_time)
                × (c'.client_errors ≡ c.client_errors + 1))))

note_error-IsNoted :
    (world : World) (err : CommErr) (c : Comm)
    → IsNoted (note_error world err c).0 c (note_error world err c).1
      × ((note_error world err c).1.queued ≡ c.queued)
      × ((note_error world err c).1.conn ≡ c.conn)
note_error-IsNoted world nm_ok c = (inr (refl, inr (refl, refl)), refl, refl)
note_error-IsNoted world nm_conn_closed c = (inl refl, refl, refl)
note_error-IsNoted world nm_wouldblock c = (inr (refl, inr (refl, refl)), refl, refl)
note_error-IsNoted world nm_timedout c = (inr (refl, inl (refl, refl)), refl, refl)
note_error-IsNoted world nm_interrupted c = (inr (refl, inr (refl, refl)), refl, refl)
note_error-IsNoted world nm_unknown_error c = (inr (refl, inr (refl, refl)), refl, refl)

handle_type-queue :
    (world : World) (type : ℤ) (request : Request) (c : Comm)
    → IsServerType type
    → handle_type world type request c ≡ queue_request world request c
handle_type-queue world (pos zero) request c h = absurd h
handle_type-queue world (pos (suc zero)) request c h = absurd h
handle_type-queue world (pos (suc (suc n))) request c h = refl
handle_type-queue world (negsuc n) request c h = refl

-- A round in which no limit is reached and no response waits only receives.
pub round-receive :
    (world : World) (c : Comm) (os : Os) (n : ℕ)
    → c.client_inactive_time < c.max_timeout
    → c.client_errors < c.max_errors
    → world.responses c.pops ≡ none
    → world.pop_fuel ≡ suc n
    → round world c os ≡ receive world (record c { pops = c.pops + 1 }) os
unfolding round handle_client_errors send_all_resps resps_loop
round-receive world c os n early few empty fuel =
    let e : leb c.max_timeout c.client_inactive_time ≡ false = ground (arith, early) in
    let f : leb c.max_errors c.client_errors ≡ false = ground (arith, few) in
    ground (arith, e, f, empty, fuel)

module _ (world : World) (answers : ℕ → ℕ → Option ℕ)
    (setup : IsSetup world.max_align answers) where
  module _ (type : Bytes) (ps : List (Bytes × Bytes)) (payload : Bytes) (type_text : IsText type)
      (payload_text : IsText payload) (some_type : 0 < length type)
      (type_end : last_byte b'{' type ≢ b'\\') (payload_end : last_byte b'{' payload ≢ b'\\')
      (good : All IsPair ps) (short : length (print_req type ps payload) < 2 ^ 58) where
    -- The last of the queued requests is the one of the text, and the buffer and the connection carry
    -- what the client sent behind it.
    abbrev IsQueued : ℕ → Comm → Bytes → LocalExit → Comm → Os → Type 0
    IsQueued from c more exit c' os' =
        (exit ≡ no_exit)
        × (c'.client_inactive_time ≡ 0)
        × (c'.client_errors ≡ 0)
        × ((request : Request) × (c'.queued ≡ c.queued ++ (request ∷ []))
            × IsMade world.max_align answers setup type ps payload type_text payload_text some_type
                type_end payload_end good short from c.communicator_id (some request) os')
        × ((left : Bytes) × Keeps c'.recv_buf left
            × IsText left
            × IsClean c'.conn
            × Carries left c'.conn more)

    -- The request is queued, or nothing is queued, since an allocation failed that was asked for from number
    -- `from` on.
    abbrev IsHandled : ℕ → Comm → Bytes → LocalExit → Comm → Os → Type 0
    IsHandled from c more exit c' os' =
        IsQueued from c more exit c' os'
        ⊎ (Failed answers from os'.calls
            × (exit ≡ no_exit)
            × (c'.client_errors ≡ c.client_errors + 1)
            × (c'.queued ≡ c.queued))

    -- What a round must come to in which this request is the next: no request yet, for a reason, and
    -- nothing is queued; or the request is handled.
    abbrev pub IsServed : ℕ → Comm → Bytes → Bytes → LocalExit → Comm → Os → Type 0
    IsServed from c held more exit c' os' =
        (((n : ℕ) × IsDropped answers from os'.calls c.max_message_len world.front held c.conn n
            × (c'.conn ≡ cleared (after_recvs n c.conn)))
          × IsNoted exit c c'
          × (c'.queued ≡ c.queued))
        ⊎ IsHandled from c more exit c' os'

    handle_raw-IsHandled :
        (from : ℕ) (c : Comm) (more left : Bytes) (os : Os)
        → from ≤ os.calls
        → os.answers ≡ answers
        → world.accepts c.pushes ≡ true
        → IsServerType (string_type_to_int (escape type))
        → Keeps c.recv_buf left
        → IsText left
        → IsClean c.conn
        → Carries left c.conn more
        → Runs
            (handle_raw world (print_req type ps payload) c os)
            (λ r os'. IsHandled from c more r.0 r.1 os')
    unfolding handle_request
    handle_raw-IsHandled from c more left os le same accepts server k t clean carries =
        let (made, os1, run, h) =
          make_req-IsMade world.max_align answers setup type ps payload type_text payload_text
            some_type type_end payload_end good short world.front c.communicator_id os same in
        let cut : Os = record os1 { live = remove (get_or os.live 0 0) os1.live } in
        let c' : Comm = record c { client_inactive_time = 0; client_errors = 0 } in
        elim (Option-cases made) [
          | inl e ↦ (
            (no_exit, record c { client_inactive_time = 0; client_errors = c.client_errors + 1 }),
            cut,
            ground (arith, run, e),
            inr (
              Failed-within answers os.calls os1.calls from os1.calls le (omega arith) (rw e at h),
              refl,
              refl,
              refl,
            ),
          )
          | inr (request, e) ↦
              let holds = rw e at h in
              let queue : handle_type world request.request_type request c' cut
                  ≡ queue_request world request c' cut =
                ap (λ m. m cut)
                  (handle_type-queue world request.request_type request c' (rw holds.1 server)) in
              (
                (no_exit, record c' { pushes = c.pushes + 1; queued = c.queued ++ (request ∷ []) }),
                cut,
                ground (arith, run, e, queue, accepts),
                inl (
                  refl,
                  refl,
                  refl,
                  (
                    request,
                    refl,
                    IsMade-within world.max_align answers setup type ps payload type_text
                        payload_text some_type type_end payload_end good short os.calls from
                        c.communicator_id request os1 cut le refl holds,
                  ),
                  (left, k, t, clean, carries),
                ),
              )
        ]

    -- Let a request `[{type}{name:value,...}{payload}]` for the server be the next of what the buffer holds
    -- and the client sends, with any bytes `more` behind it. If no limit is reached, no response waits and
    -- the queue takes a request, then a round of the communicator returns. Either just that request is
    -- queued, behind those before, with its type, named values and payload, both counters start again,
    -- and what comes next is `more`. Or no request comes, since a call of `recv` gave no byte while the bytes so far closed no request, as many bytes
    -- came as the largest message has, or an allocation of this round failed; then nothing is queued, and
    -- the client is gone, or its time without a request or its errors go up. Or an allocation of this round
    -- failed when the request was made: then nothing is queued and the errors go up by one, or the
    -- request that is queued may have lost values.
    pub round-IsServed :
        (c : Comm) (held more : Bytes) (os : Os) (n : ℕ)
        → os.answers ≡ answers
        → c.client_inactive_time < c.max_timeout
        → c.client_errors < c.max_errors
        → world.responses c.pops ≡ none
        → world.pop_fuel ≡ suc n
        → world.accepts c.pushes ≡ true
        → IsServerType (string_type_to_int (escape type))
        → Keeps c.recv_buf held
        → IsText held
        → IsClean c.conn
        → Carries held c.conn (print_req type ps payload ++ more)
        → Runs (round world c os) (λ r os'. IsServed os.calls c held more r.0 r.1 os')
    unfolding no_request get_error
    round-IsServed c held more os n same early few empty fuel accepts server k t clean carries =
        rw (round-receive world c os n early few empty fuel) (
          let ((raw, b, conn), os1, run, (delivers, kept)) =
            recv_req_runs c.max_message_len world.front held c.recv_buf c.conn os k t clean in
          elim (Option-cases raw) [
            | inl e ↦
                let (m, left, keeps, clean_left, conns, why) = rw e at delivers in
                let c' : Comm = record c {
                  pops = c.pops + 1;
                  recv_buf = b;
                  conn = record conn { error = nm_ok };
                } in
                (
                  note_error world conn.error c',
                  os1,
                  ground (arith, run, e),
                  inl (
                    (
                      m,
                      subst
                          (λ asked.
                            IsDropped asked os.calls os1.calls c.max_message_len world.front held
                              c.conn m)
                          same why,
                      (note_error-IsNoted world conn.error c').2 ∙ ap cleared conns,
                    ),
                    (note_error-IsNoted world conn.error c').0,
                    (note_error-IsNoted world conn.error c').1,
                  ),
                )
            | inr (req, e) ↦
                let (m, left, stream, keeps, clean_left, conns, ends) = rw e at delivers in
                let (is_next, carries') =
                  delivered_next world.front held (print_req type ps payload) more req c.conn conn m
                    left (print_req-end world.front type ps payload)
                    (sym (escaped_strchr-find _ b']') ∙ ends) carries stream conns in
                let c' : Comm = record c { pops = c.pops + 1; recv_buf = b; conn = conn } in
                let (r, os2, run2, served) =
                  handle_raw-IsHandled os.calls c' more left os1 kept.1 (kept.0 ∙ same) accepts
                    server keeps clean_left (rw conns (IsClean-after_recvs m c.conn clean))
                    carries' in
                (r, os2, ground (arith, run, e, is_next, run2), inr served)
          ])
