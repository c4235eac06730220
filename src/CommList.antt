-- ===== src/CommList.antt =====
-- server/src/main.c: the list of communicator threads, by its cells.
pub mod Free
pub mod Loop
pub mod Tests
use iomessage.Prelude.{
  ℕ, zero, suc, ◌+◌, Bool, true, false, not, Option, none, some, List, [], ◌∷◌, if◌then◌else◌,
  length, get_or, set,
}

-- What the list needs of a `TM_thread_t`: who it is, and `exited`.
pub record Communicator : Type 0 where
  pub communicator_id : ℕ
  pub exited : Bool

-- `TM_thread_t**`: NULL, or a thread. `max` is the length.
abbrev pub CommArray : Type 0
CommArray = List (Option Communicator)

unfoldable pub is_comm_list_full : CommArray → Bool
is_comm_list_full [] = true
is_comm_list_full (none ∷ cs) = false
is_comm_list_full (some c ∷ cs) = is_comm_list_full cs

abbrev pub free_from : ℕ → CommArray → Option ℕ
free_from i [] = none
free_from i (none ∷ cs) = some i
free_from i (some c ∷ cs) = free_from (i + 1) cs

-- `none` is -1.
unfoldable pub search_free : CommArray → Option ℕ
search_free comm_array = free_from 0 comm_array

-- The list, and the communicators that are destroyed, in order.
unfoldable pub remove_stale_communicators : CommArray → CommArray × List Communicator
remove_stale_communicators [] = ([], [])
remove_stale_communicators (none ∷ cs) =
    let rest = remove_stale_communicators cs in (none ∷ rest.0, rest.1)
remove_stale_communicators (some c ∷ cs) =
    let rest = remove_stale_communicators cs in
    if c.exited then (none ∷ rest.0, c ∷ rest.1) else (some c ∷ rest.0, rest.1)

-- A join returns once the thread has ended, which is when `exited` is set.
unfoldable pub wait_for_all_communicators : CommArray → CommArray
wait_for_all_communicators [] = []
wait_for_all_communicators (none ∷ cs) = none ∷ wait_for_all_communicators cs
wait_for_all_communicators (some c ∷ cs) =
    some (record c { exited = true }) ∷ wait_for_all_communicators cs

-- What becomes of a connection.
pub data Verdict : Type 0 where
  refused : Verdict
  failed : Verdict
  served : ℕ → Verdict

-- The part of the accept loop behind an accepted connection. Whether a thread can be made is up to
-- the system.
unfoldable pub accept_step : Bool → CommArray → Verdict × CommArray
unfolding is_comm_list_full search_free remove_stale_communicators
accept_step can_create communicator_list =
    let fresh = (remove_stale_communicators communicator_list).0 in
    if is_comm_list_full fresh then (refused, fresh) else elim (search_free fresh) [
      | none ↦ (failed, fresh)
      | some communicator_id ↦
          if can_create
          then (
            served communicator_id,
            set fresh communicator_id
                (some (record { communicator_id = communicator_id; exited = false })),
          )
          else (failed, fresh)
    ]
