-- ===== src/Queue/Safety.antt =====
-- What holds of a shared queue in every reachable state of its threads.
use iomessage.Prelude.{
  ℕ, zero, suc, ◌+◌, ◌≤◌, ◌≡◌, ◌∙◌, sym, refl, ◌≢◌, true, false, none, some, List, [], ◌++◌, arith,
  length, get_elem?, replicate, All,
}
use iomessage.Queue.{SharedQueue, make_shared_queue, enter_wait}
use iomessage.Queue.Valid.{make_shared_queue-IsValid}
use iomessage.Queue.Refine.{Represents}
use iomessage.Queue.Pieces.{
  Blocked, count_waiting, resume-IsRight, attempt-IsPrompt, start-resume, waiting-Represents,
}
use iomessage.Queue.Monitor.{
  Task, push, take_one, idle, asleep, awake, System, start, resume, attempt, Reach, here, next,
}
use iomessage.Queue.Inv.{Inv, All_elem, count-set, Step-Inv}

count-replicate : (A : Type 0) (n : ℕ) → count_waiting {A = A} (replicate n idle) ≡ 0
count-replicate A zero = refl
count-replicate A (suc n) = omega (arith, count-replicate A n)

module _ {A : Type 0} where
  -- `n` threads that have called nothing yet, over a queue that holds nothing.
  abbrev pub initial : SharedQueue A → ℕ → System A
  initial q n = record {
    shared = q;
    ext = false;
    threads = replicate n idle;
    entered = [];
    left = [];
  }

  replicate-Blocked : (q : SharedQueue A) (n : ℕ) → All (Blocked q) (replicate n idle)
  replicate-Blocked q zero = tt
  replicate-Blocked q (suc n) = (tt, replicate-Blocked q n)

  initial-Inv :
      (cap n : ℕ) (q : SharedQueue A)
      → make_shared_queue true true cap ≡ some q
      → Inv cap (initial q n)
  initial-Inv cap n q made =
      let (valid, size, capacity, waiting, _) =
        (make_shared_queue-IsValid true true cap).1 q made in
      record {
        contents = [];
        ring = record { valid = valid; elements = tt; count = size };
        capacity_is = capacity;
        fifo = refl;
        counted = waiting ∙ sym (count-replicate A n);
        blocked = replicate-Blocked q n;
      }

module _ {A : Type 0} (cap n : ℕ) (q : SharedQueue A)
    (made : make_shared_queue true true cap ≡ some q) where
  pub Reach-Inv : {s : System A} → Reach (initial q n) s → Inv cap s
  Reach-Inv here = initial-Inv cap n q made
  Reach-Inv (next r st) = Step-Inv st (Reach-Inv r)

  -- In every reachable state the elements that calls have taken out are the first that went in, in
  -- their order, the rest is what the ring holds, and that is never more than the capacity.
  pub first_in_first_out :
      {s : System A}
      → Reach (initial q n) s
      → (xs : List A) × (s.entered ≡ s.left ++ xs) × Represents s.shared xs × (length xs ≤ cap)
  first_in_first_out r =
      let inv = Reach-Inv r in
      (
        inv.contents,
        inv.fifo,
        inv.ring,
        omega (arith, inv.ring.count, inv.ring.valid.size_le, inv.capacity_is),
      )

  -- In every reachable state each operation that a thread may start, and each that it may go on
  -- with, returns or sleeps: none of the asserts in it fails.
  pub asserts_hold :
      {s : System A} (i : ℕ) (t : Task A)
      → Reach (initial q n) s
      → (start s.ext t s.shared ≢ none)
        × (attempt t s.shared ≢ none)
        × (get_elem? s.threads i ≡ some (awake t) → resume s.ext t s.shared ≢ none)
  asserts_hold {s} i t r =
      let inv = Reach-Inv r in
      let held = inv.ring in
      (
        λ e.
            let q' = enter_wait s.shared in
            let (_, run, _) =
              resume-IsRight s.ext t q' inv.contents
                (waiting-Represents (s.shared.waiting + 1) s.shared inv.contents held)
                (omega arith) in
            cc (run, start-resume s.ext t s.shared),
        λ e. let (_, run, _) = attempt-IsPrompt t s.shared inv.contents held in cc run,
        λ at e.
            let (_, run, _) =
              resume-IsRight s.ext t s.shared inv.contents held
                (omega (arith, inv.counted, count-set s.threads i (awake t) idle at)) in
            cc run,
      )

  -- In every reachable state a thread that sleeps has its reason: in `push_back` the ring is full, in
  -- `pop` it is empty, and in both the queue has not begun to be destroyed. So nobody sleeps on behind a change of these; the
  -- exit flag outside, which wakes nobody when it is set, is not counted among them.
  pub sleeper_has_reason :
      {s : System A} (i : ℕ) (t : Task A)
      → Reach (initial q n) s
      → get_elem? s.threads i ≡ some (asleep t)
      → Blocked s.shared (asleep t)
  sleeper_has_reason i t r at = let inv = Reach-Inv r in All_elem _ _ i inv.blocked at

  -- No state is reachable in which one thread sleeps in `push_back` and another in `pop`.
  pub no_mutual_sleep :
      {s : System A} (i j : ℕ) (el : A)
      → Reach (initial q n) s
      → get_elem? s.threads i ≡ some (asleep (push el))
      → ¬ (get_elem? s.threads j ≡ some (asleep take_one))
  no_mutual_sleep i j el r at at' =
      let inv = Reach-Inv r in
      absurd (
        omega (
          arith,
          sleeper_has_reason i (push el) r at,
          sleeper_has_reason j take_one r at',
          inv.ring.valid.head_in,
        ))
