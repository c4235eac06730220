-- ===== src/Queue.antt =====
-- server/src/shared_queue.c and shared_queue.h: a bounded queue of pointers over a ring of cells,
-- shared under a mutex and a condition variable.
-- Every operation holds the mutex from its start to its return, but for the time that it sleeps in
-- `TM_cond_wait`; so each piece between two sleeps is one function here. `none` is a failed assert.
-- `pub mod` children prove what holds of it: Valid (the ring), Refine (the order of the elements),
-- Monitor and Safety (threads that sleep and wake), Destroy.
pub mod Valid
pub mod Refine
pub mod Monitor
pub mod Pieces
pub mod Inv
pub mod Safety
pub mod Destroy
mod Tests
use iomessage.Prelude.{
  ℕ, zero, suc, ◌+◌, ◌-◌, Bool, true, false, not, ◌&&◌, ◌||◌, Option, none, some, List, [], ◌∷◌,
  ◌==◌, if◌then◌else◌, leb, ltb, length, get_or, set, replicate,
}

-- `struct shared_queue`. A cell holds an element or NULL; `head` and `tail` are the indices that the
-- pointers stand for, `queue_end` is the index `capacity`. `external_exit_state` points outside: its
-- flag is an argument of the operations that read it.
pub record SharedQueue (A : Type 0) : Type 0 where
  pub queue : List (Option A)
  pub tail : ℕ
  pub head : ℕ
  pub size : ℕ
  pub capacity : ℕ
  pub waiting : ℕ
  pub exit_state : Bool

-- What a piece of an operation comes to: it sleeps in `TM_cond_wait`, or it returns a value, after a
-- broadcast or without one.
pub data Turn (A R : Type 0) : Type 0 where
  sleeps : SharedQueue A → Turn A R
  returns : R → (broadcast : Bool) → SharedQueue A → Turn A R

module _ {A : Type 0} where
  -- The flags say whether the two allocations succeed.
  unfoldable pub make_shared_queue : Bool → Bool → ℕ → Option (SharedQueue A)
  make_shared_queue shq_made cells_made cap =
      if cap == 0
      then none
      else if not shq_made
      then none
      else if not cells_made
      then none
      else some (record {
        queue = replicate cap none;
        tail = 0;
        head = 0;
        size = 0;
        capacity = cap;
        waiting = 0;
        exit_state = false;
      })

  unfoldable pub shared_queue_len : SharedQueue A → ℕ
  shared_queue_len q = q.size

  unfoldable pub shared_queue_cap : SharedQueue A → ℕ
  shared_queue_cap q = q.capacity

  -- `p++; if(p == queue_end) p = queue;`
  abbrev pub next_cell : SharedQueue A → ℕ → ℕ
  next_cell q p = if p + 1 == q.capacity then 0 else p + 1

  -- What `push_back_el` and `pop_el` make of the queue.
  abbrev pub with_pushed : A → SharedQueue A → SharedQueue A
  with_pushed el q = record q {
    queue = set q.queue q.tail (some el);
    tail = next_cell q q.tail;
    size = q.size + 1;
  }

  abbrev pub without_head : SharedQueue A → SharedQueue A
  without_head q = record q {
    queue = set q.queue q.head none;
    head = next_cell q q.head;
    size = q.size - 1;
  }

  unfoldable pub push_back_el : A → SharedQueue A → Option (SharedQueue A)
  push_back_el el q = if ltb q.size q.capacity then some (with_pushed el q) else none

  unfoldable pub pop_el : SharedQueue A → Option (Option A × SharedQueue A)
  pop_el q = if ltb 0 q.size then some (get_or q.queue q.head none, without_head q) else none

  abbrev pub enter_wait : SharedQueue A → SharedQueue A
  enter_wait q = record q { waiting = q.waiting + 1 }

  abbrev pub leave_wait : SharedQueue A → SharedQueue A
  leave_wait q = record q { waiting = q.waiting - 1 }

  abbrev pub pushed : Option (SharedQueue A) → Option (Turn A ℕ)
  pushed none = none
  pushed (some q) = some (returns 0 true q)

  abbrev pub popped : Option (Option A × SharedQueue A) → Option (Turn A (Option A))
  popped none = none
  popped (some (el, q)) = some (returns el true q)

  -- `push_back` from the test of its `while` on: its start goes on with it, and so does each wake-up.
  -- The flag is `*external_exit_state`.
  unfoldable pub push_back_test : Bool → A → SharedQueue A → Option (Turn A ℕ)
  push_back_test ext el q =
      if leb q.capacity q.size && (not q.exit_state && not ext)
      then some (sleeps q)
      else if q.exit_state || ext
      then some (returns 1 true (leave_wait q))
      else pushed (push_back_el el (leave_wait q))

  unfoldable pub push_back : Bool → A → SharedQueue A → Option (Turn A ℕ)
  unfolding push_back_test
  push_back ext el q = push_back_test ext el (enter_wait q)

  unfoldable pub try_push_back : A → SharedQueue A → Option (Turn A ℕ)
  try_push_back el q =
      if leb q.capacity q.size then some (returns 1 false q) else pushed (push_back_el el q)

  -- `pop` from the test of its `while` on.
  unfoldable pub pop_test : Bool → SharedQueue A → Option (Turn A (Option A))
  pop_test ext q =
      if q.size == 0 && (not q.exit_state && not ext)
      then some (sleeps q)
      else if q.exit_state || ext
      then some (returns none true (leave_wait q))
      else popped (pop_el (leave_wait q))

  unfoldable pub pop : Bool → SharedQueue A → Option (Turn A (Option A))
  unfolding pop_test
  pop ext q = pop_test ext (enter_wait q)

  unfoldable pub try_pop : SharedQueue A → Option (Turn A (Option A))
  try_pop q = if q.size == 0 then some (returns none false q) else popped (pop_el q)

  -- `destroy_shared_queue`: the flag is set, and the caller sleeps, after a broadcast, as long as a
  -- thread waits.
  unfoldable pub destroy_begin : SharedQueue A → SharedQueue A
  destroy_begin q = record q { exit_state = true }

  unfoldable pub destroy_test : SharedQueue A → Turn A (Unit {0})
  destroy_test q = if q.waiting == 0 then returns tt false q else sleeps q

  -- `while((el = pop(shq)) != NULL)`: the elements that are handed to the destructor, and the queue.
  -- A `pop` that sleeps here sleeps for good, since no thread is left to wake it.
  unfoldable pub destroy_drain : ℕ → Bool → SharedQueue A → Option (List A × SharedQueue A)
  unfolding pop pop_test
  destroy_drain zero ext q = none
  destroy_drain (suc fuel) ext q = elim (pop ext q) [
    | none ↦ none
    | some (sleeps q') ↦ none
    | some (returns none woke q') ↦ some ([], q')
    | some (returns (some el) woke q') ↦ elim (destroy_drain fuel ext q') [
      | none ↦ none
      | some (els, q'') ↦ some (el ∷ els, q'')
    ]
  ]
