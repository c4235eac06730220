-- ===== src/CommList/Loop/Once.antt =====
-- Each thread that `main` makes is destroyed once, and never two live with one id.
use iomessage.Prelude.{
  ℕ, ◌≡◌, refl, sym, ap, ◌∙◌, arith, Bool, false, Bool-cases, inl, inr, none, some, List, [], ◌∷◌,
  ◌++◌, replicate,
}
use iomessage.CommList.{
  Communicator, CommArray, remove_stale_communicators, wait_for_all_communicators, accept_step,
}
use iomessage.CommList.Free.{search_free_lem}
use iomessage.CommList.Loop.{
  Happening, ends, no_connection, connection, Event, made, end_thread, gone_all, made_by,
  accept_loop, serve_clients,
}
use iomessage.CommList.Loop.Replay.{
  replay, lives, IsNumbered, replay-append, replay-made, remove_stale-replays, end_thread-same,
  set-IsNumbered, free_all, wait-removes,
}

-- What a connection does to the list is what its events do to the ids.
accept_step-replays :
    (can_create : Bool) (m : ℕ) (cs : CommArray) (es : List Event)
    → IsNumbered 0 m cs
    → (replay
          (gone_all (remove_stale_communicators cs).1
            ++ (made_by (accept_step can_create cs).0 ++ es))
          (lives cs)
        ≡ replay es (lives (accept_step can_create cs).1))
      × IsNumbered 0 m (accept_step can_create cs).1
unfolding accept_step
accept_step-replays can_create m cs es h =
    let fresh : CommArray = (remove_stale_communicators cs).0 in
    let (gone_so, num) = remove_stale-replays [] 0 m cs refl h in
    let start : (fs : List Event)
        → replay (gone_all (remove_stale_communicators cs).1 ++ fs) (lives cs)
          ≡ replay fs (lives fresh) =
      λ fs.
        replay-append (gone_all (remove_stale_communicators cs).1) fs (lives cs) (lives fresh)
          gone_so in
    elim (search_free_lem fresh) [
      | inl (used, e, f) ↦ rw f (start es, num)
      | inr (i, (here, before), e, f) ↦
          let c : Communicator = record { communicator_id = i; exited = false } in
          let (free, live, num') = set-IsNumbered i 0 m c fresh here (omega arith) num in
          rw (f, e)
            (elim (Bool-cases can_create) [
              | inl can ↦ rw can (
                start (made i ∷ es)
                    ∙ replay-made es (lives fresh) i free
                    ∙ ap (replay es) (sym live),
                num',
              )
              | inr cannot ↦ rw cannot (start es, num)
            ])
    ]

accept_loop-replays :
    (hs : List Happening) (m : ℕ) (cs : CommArray)
    → IsNumbered 0 m cs
    → (replay (accept_loop hs cs).1 (lives cs) ≡ some (lives (accept_loop hs cs).0))
      × IsNumbered 0 m (accept_loop hs cs).0
unfolding accept_loop
accept_loop-replays [] m cs h = (refl, h)
accept_loop-replays (ends i ∷ hs) m cs h =
    let (same, num) = end_thread-same i 0 m cs h in
    let (again, num') = accept_loop-replays hs m (end_thread i cs) num in
    (ap (replay (accept_loop hs (end_thread i cs)).1) (sym same) ∙ again, num')
accept_loop-replays (no_connection ∷ hs) m cs h = accept_loop-replays hs m cs h
accept_loop-replays (connection can_create ∷ hs) m cs h =
    let cs' : CommArray = (accept_step can_create cs).1 in
    let (step, num) = accept_step-replays can_create m cs (accept_loop hs cs').1 h in
    let (again, num') = accept_loop-replays hs m cs' num in (step ∙ again, num')

-- Whatever connections come and threads end in whatever order until `glob_exit` is set: `main` never
-- makes a thread with an id, below MAX_CLIENTS, whose last thread it has not destroyed, never destroys one
-- that is not there, and has at the end destroyed each that it made, with all cells of the list NULL.
pub serve_clients-replays :
    (max_clients : ℕ) (hs : List Happening)
    → ((serve_clients max_clients hs).0 ≡ replicate max_clients none)
      × (replay (serve_clients max_clients hs).1 (replicate max_clients false)
          ≡ some (replicate max_clients false))
unfolding serve_clients
serve_clients-replays max_clients hs =
    let m : ℕ = max_clients in
    let (start, none_live) = free_all 0 m in
    let cs : CommArray = (accept_loop hs (replicate m none)).0 in
    let (loop, num) = accept_loop-replays hs m (replicate m none) start in
    let (empty, num', live) = wait-removes 0 m cs num in
    let (last, num'') = remove_stale-replays [] 0 m (wait_for_all_communicators cs) refl num' in
    let removed : List Event =
      gone_all (remove_stale_communicators (wait_for_all_communicators cs)).1 in
    (
      empty,
      ap (replay ((accept_loop hs (replicate m none)).1 ++ removed)) (sym none_live)
          ∙ replay-append (accept_loop hs (replicate m none)).1 removed (lives (replicate m none))
              (lives cs) loop
          ∙ ap (replay removed) (sym live)
          ∙ last
          ∙ ap some (ap lives empty ∙ none_live),
    )
