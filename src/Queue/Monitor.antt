-- ===== src/Queue/Monitor.antt =====
-- Threads that share one queue: each call of `push_back`, `pop`, `try_push_back` and `try_pop` as
-- the pieces between its sleeps, in any order. A broadcast wakes every sleeper; a sleeper may also
-- wake by itself.
use iomessage.Prelude.{
  ℕ, ◌≡◌, Bool, true, Option, none, some, List, [], ◌∷◌, ◌++◌, ◌==◌, if◌then◌else◌, get_elem?, set,
}
use iomessage.Queue.{
  SharedQueue, Turn, sleeps, returns, push_back, push_back_test, try_push_back, pop, pop_test,
  try_pop, destroy_begin,
}

-- A blocking call with its argument.
pub data Task (A : Type 0) : Type 0 where
  push : A → Task A
  take_one : Task A

pub data Thread (A : Type 0) : Type 0 where
  idle : Thread A
  asleep : Task A → Thread A
  awake : Task A → Thread A

-- What a piece does to the shared state: the thread sleeps, or returns, perhaps with a broadcast,
-- and then with the elements that it put in and took out.
pub data Effect (A : Type 0) : Type 0 where
  stays : SharedQueue A → Effect A
  leaves : SharedQueue A → (broadcast : Bool) → (entered left : List A) → Effect A

-- `entered` and `left` are records of the proof: all elements that calls have put in and taken out.
pub record System (A : Type 0) : Type 0 where
  pub shared : SharedQueue A
  pub ext : Bool
  pub threads : List (Thread A)
  pub entered : List A
  pub left : List A

module _ {A : Type 0} where
  abbrev push_effect : A → Option (Turn A ℕ) → Option (Effect A)
  push_effect el none = none
  push_effect el (some (sleeps q)) = some (stays q)
  push_effect el (some (returns status b q)) =
      some (leaves q b (if status == 0 then el ∷ [] else []) [])

  abbrev pop_effect : Option (Turn A (Option A)) → Option (Effect A)
  pop_effect none = none
  pop_effect (some (sleeps q)) = some (stays q)
  pop_effect (some (returns none b q)) = some (leaves q b [] [])
  pop_effect (some (returns (some el) b q)) = some (leaves q b [] (el ∷ []))

  -- The piece of a blocking call from its start, and from a wake-up.
  unfoldable pub start : Bool → Task A → SharedQueue A → Option (Effect A)
  start ext (push el) q = push_effect el (push_back ext el q)
  start ext take_one q = pop_effect (pop ext q)

  unfoldable pub resume : Bool → Task A → SharedQueue A → Option (Effect A)
  resume ext (push el) q = push_effect el (push_back_test ext el q)
  resume ext take_one q = pop_effect (pop_test ext q)

  -- The call that does not block.
  unfoldable pub attempt : Task A → SharedQueue A → Option (Effect A)
  attempt (push el) q = push_effect el (try_push_back el q)
  attempt take_one q = pop_effect (try_pop q)

  abbrev pub wake : Thread A → Thread A
  wake idle = idle
  wake (asleep t) = awake t
  wake (awake t) = awake t

  abbrev pub wake_all : List (Thread A) → List (Thread A)
  wake_all [] = []
  wake_all (t ∷ ts) = wake t ∷ wake_all ts

  abbrev pub after : System A → ℕ → Task A → Effect A → System A
  after s i t (stays q) = record s { shared = q; threads = set s.threads i (asleep t) }
  after s i t (leaves q b entered left) = record s {
    shared = q;
    threads = if b then wake_all (set s.threads i idle) else set s.threads i idle;
    entered = s.entered ++ entered;
    left = s.left ++ left;
  }

  -- One step of one thread, or of the world: `stop` raises the flag that `external_exit_state`
  -- points to, and wakes nobody; `close` is the start of `destroy_shared_queue`.
  pub data Step (s : System A) : System A → Type 0 where
    call :
        (i : ℕ) (t : Task A) (e : Effect A)
        → get_elem? s.threads i ≡ some idle
        → start s.ext t s.shared ≡ some e
        → Step s (after s i t e)
    retry :
        (i : ℕ) (t : Task A) (e : Effect A)
        → get_elem? s.threads i ≡ some (awake t)
        → resume s.ext t s.shared ≡ some e
        → Step s (after s i t e)
    try :
        (i : ℕ) (t : Task A) (e : Effect A)
        → get_elem? s.threads i ≡ some idle
        → attempt t s.shared ≡ some e
        → Step s (after s i t e)
    spurious :
        (i : ℕ) (t : Task A)
        → get_elem? s.threads i ≡ some (asleep t)
        → Step s (record s { threads = set s.threads i (awake t) })
    stop : Step s (record s { ext = true })
    close : Step s (record s { shared = destroy_begin s.shared; threads = wake_all s.threads })

  pub data Reach (start : System A) : System A → Type 0 where
    here : Reach start start
    next : {s t : System A} → Reach start s → Step s t → Reach start t
