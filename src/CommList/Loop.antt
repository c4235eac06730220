-- ===== src/CommList/Loop.antt =====
-- server/src/main.c: what the accept loop of `main`, and `main` behind it, do to the communicators.
pub mod Replay
pub mod Once
use iomessage.Prelude.{
  ℕ, zero, suc, Bool, true, false, Option, none, some, List, [], ◌∷◌, ◌++◌, if◌then◌else◌,
  get_elem?, set, replicate,
}
use iomessage.CommList.{
  Communicator, CommArray, remove_stale_communicators, wait_for_all_communicators, Verdict, refused,
  failed, served, accept_step,
}

-- What can come next while `glob_exit` is not set: the thread in a cell ends, or `NM_accept_conn` fails,
-- or it returns a connection, for which a thread can be made or not.
pub data Happening : Type 0 where
  ends : ℕ → Happening
  no_connection : Happening
  connection : Bool → Happening

-- A thread is made, or destroyed, with this id.
pub data Event : Type 0 where
  made : ℕ → Event
  gone : ℕ → Event

-- The thread sets `exited`.
unfoldable pub end_thread : ℕ → CommArray → CommArray
end_thread i [] = []
end_thread zero (none ∷ cs) = none ∷ cs
end_thread zero (some c ∷ cs) = some (record c { exited = true }) ∷ cs
end_thread (suc i) (c ∷ cs) = c ∷ end_thread i cs

abbrev pub gone_all : List Communicator → List Event
gone_all [] = []
gone_all (c ∷ cs) = gone c.communicator_id ∷ gone_all cs

abbrev pub made_by : Verdict → List Event
made_by refused = []
made_by failed = []
made_by (served i) = made i ∷ []

-- The loop, up to where `glob_exit` is set: the list, and what happened to threads in order.
unfoldable pub accept_loop : List Happening → CommArray → CommArray × List Event
unfolding accept_step remove_stale_communicators
accept_loop [] cs = (cs, [])
accept_loop (ends i ∷ hs) cs = accept_loop hs (end_thread i cs)
accept_loop (no_connection ∷ hs) cs = accept_loop hs cs
accept_loop (connection can_create ∷ hs) cs =
    let (verdict, cs') = accept_step can_create cs in
    let (last, events) = accept_loop hs cs' in
    (last, gone_all (remove_stale_communicators cs).1 ++ (made_by verdict ++ events))

-- The list is allocated cleared, and all threads are waited for and removed at the end.
unfoldable pub serve_clients : ℕ → List Happening → CommArray × List Event
unfolding accept_loop wait_for_all_communicators remove_stale_communicators
serve_clients max_clients hs =
    let (cs, events) = accept_loop hs (replicate max_clients none) in
    let (left, removed) = remove_stale_communicators (wait_for_all_communicators cs) in
    (left, events ++ gone_all removed)
