-- ===== src/Queue/Inv.antt =====
-- The invariant of a shared queue and its threads, and that every step keeps it.
use iomessage.Prelude.{
  ℕ, zero, suc, ◌+◌, ◌≡◌, ◌∙◌, sym, ap, refl, ◌⊎◌, Bool, true, false, some, List, [], ◌∷◌, ◌++◌,
  arith, get_elem?, set, inl, inr, if◌then◌else◌, All, append_assoc,
}
use mathlib.Core.Path.{subst}
use iomessage.Queue.{SharedQueue, enter_wait, destroy_begin}
use iomessage.Queue.Refine.{Represents}
use iomessage.Queue.Pieces.{
  Blocked, waits, count_waiting, IsRight, IsPrompt, resume-IsRight', attempt-IsPrompt',
  start-resume, waiting-Represents, close-Represents,
}
use iomessage.Queue.Monitor.{
  Task, push, take_one, Thread, idle, asleep, awake, Effect, stays, leaves, System, wake_all, after,
  Step, call, retry, try, spurious, stop, close,
}

module _ {A : Type 0} where
  All-set :
      (P : Thread A → Type 0) (ts : List (Thread A)) (i : ℕ) (t : Thread A)
      → All P ts
      → P t
      → All P (set ts i t)
  All-set P [] i t h p = tt
  All-set P (x ∷ ts) zero t h p = (p, h.1)
  All-set P (x ∷ ts) (suc i) t h p = (h.0, All-set P ts i t h.1 p)

  pub All_elem :
      (P : Thread A → Type 0) (ts : List (Thread A)) {t : Thread A} (i : ℕ)
      → All P ts
      → get_elem? ts i ≡ some t
      → P t
  All_elem P [] {t = t} i h e = cc
  All_elem P (x ∷ ts) {t = t} zero h e = let same : x ≡ t = cc in subst P same h.0
  All_elem P (x ∷ ts) (suc i) h e = All_elem P ts i h.1 e

  wake_all-Blocked : (q : SharedQueue A) (ts : List (Thread A)) → All (Blocked q) (wake_all ts)
  wake_all-Blocked q [] = tt
  wake_all-Blocked q (idle ∷ ts) = (tt, wake_all-Blocked q ts)
  wake_all-Blocked q (asleep t ∷ ts) = (tt, wake_all-Blocked q ts)
  wake_all-Blocked q (awake t ∷ ts) = (tt, wake_all-Blocked q ts)

  count-wake_all : (ts : List (Thread A)) → count_waiting (wake_all ts) ≡ count_waiting ts
  count-wake_all [] = refl
  count-wake_all (t ∷ ts) = ground (arith, count-wake_all ts)

  pub count-set :
      (ts : List (Thread A)) (i : ℕ) (t t' : Thread A)
      → get_elem? ts i ≡ some t
      → count_waiting (set ts i t') + waits t ≡ count_waiting ts + waits t'
  count-set [] i t t' e = cc
  count-set (x ∷ ts) zero t t' e = ground arith
  count-set (x ∷ ts) (suc i) t t' e = ground (arith, count-set ts i t t' e)

  -- The queue is a valid ring; what went in is what came out, in order, and then what it holds;
  -- `waiting` counts the threads inside a wait; and no thread sleeps without its reason.
  pub record Inv (cap : ℕ) (s : System A) : Type 0 where
    pub contents : List A
    pub ring : Represents s.shared contents
    pub capacity_is : s.shared.capacity ≡ cap
    pub fifo : s.entered ≡ s.left ++ contents
    pub counted : s.shared.waiting ≡ count_waiting s.threads
    pub blocked : All (Blocked s.shared) s.threads

  -- The reasons do not depend on how many threads wait.
  Blocked-same :
      (q q' : SharedQueue A) (ts : List (Thread A))
      → q'.capacity ≡ q.capacity
      → q'.size ≡ q.size
      → q'.exit_state ≡ q.exit_state
      → All (Blocked q) ts
      → All (Blocked q') ts
  Blocked-same q q' [] c z x h = tt
  Blocked-same q q' (idle ∷ ts) c z x h = (tt, Blocked-same q q' ts c z x h.1)
  Blocked-same q q' (awake t ∷ ts) c z x h = (tt, Blocked-same q q' ts c z x h.1)
  Blocked-same q q' (asleep (push el) ∷ ts) c z x h =
      ((omega (arith, h.0.0), x ∙ h.0.1), Blocked-same q q' ts c z x h.1)
  Blocked-same q q' (asleep take_one ∷ ts) c z x h =
      ((z ∙ h.0.0, x ∙ h.0.1), Blocked-same q q' ts c z x h.1)

  -- The logs after a return: what the queue held with what came in is what came out with the rest.
  logs-append :
      (done out xs ys entered left : List A)
      → done ≡ out ++ xs
      → xs ++ entered ≡ left ++ ys
      → done ++ entered ≡ (out ++ left) ++ ys
  logs-append done out xs ys entered left e f =
      rw e (append_assoc out xs entered ∙ ap (λ t. out ++ t) f ∙ sym (append_assoc out left ys))

  -- A thread that was counted `1 - w` times goes on with a piece of a blocking call.
  after-Inv :
      {cap : ℕ} {s : System A} (inv : Inv cap s) (i : ℕ) (t : Task A) (e : Effect A) (w : ℕ)
      (old : Thread A)
      → get_elem? s.threads i ≡ some old
      → waits old + w ≡ 1
      → IsRight (record s.shared { waiting = s.shared.waiting + w }) inv.contents t e
      → Inv cap (after s i t e)
  after-Inv {s = s} inv i t (stays q) w old at own (same, why) = rw same (record {
    contents = inv.contents;
    ring = waiting-Represents _ s.shared inv.contents inv.ring;
    capacity_is = inv.capacity_is;
    fifo = inv.fifo;
    counted = omega (arith, inv.counted, count-set s.threads i old (asleep t) at);
    blocked =
        All-set (Blocked (record s.shared { waiting = s.shared.waiting + w })) s.threads i
          (asleep t)
          (Blocked-same s.shared (record s.shared { waiting = s.shared.waiting + w }) s.threads refl
            refl refl inv.blocked)
          why;
  })
  after-Inv {s = s} inv i t (leaves q b entered left) w old at own
        (ys, held, moved, less, woke, size) =
      rw woke (record {
        contents = ys;
        ring = held;
        capacity_is = size ∙ inv.capacity_is;
        fifo = logs-append s.entered s.left inv.contents ys entered left inv.fifo moved;
        counted = omega (
          arith,
          inv.counted,
          count-set s.threads i old idle at,
          count-wake_all (set s.threads i idle),
        );
        blocked = wake_all-Blocked q (set s.threads i idle);
      })

  prompt-Blocked :
      (q q' : SharedQueue A) (b : Bool) (ts : List (Thread A))
      → (b ≡ true) ⊎ (q' ≡ q)
      → All (Blocked q) ts
      → All (Blocked q') (if b then wake_all ts else ts)
  prompt-Blocked q q' true ts woke h = wake_all-Blocked q' ts
  prompt-Blocked q q' false ts (inl woke) h = absurd (cc)
  prompt-Blocked q q' false ts (inr same) h = rw same h

  count_if :
      (b : Bool) (ts : List (Thread A))
      → count_waiting (if b then wake_all ts else ts) ≡ count_waiting ts
  count_if true ts = count-wake_all ts
  count_if false ts = refl

  try-Inv :
      {cap : ℕ} {s : System A} (inv : Inv cap s) (i : ℕ) (t : Task A) (e : Effect A)
      → get_elem? s.threads i ≡ some idle
      → IsPrompt s.shared inv.contents t e
      → Inv cap (after s i t e)
  try-Inv inv i t (stays q) at never = absurd never
  try-Inv {s = s} inv i t (leaves q b entered left) at (ys, held, moved, same, woke, size, _) =
      record {
        contents = ys;
        ring = held;
        capacity_is = size ∙ inv.capacity_is;
        fifo = logs-append s.entered s.left inv.contents ys entered left inv.fifo moved;
        counted = omega (
          arith,
          same,
          inv.counted,
          count-set s.threads i idle idle at,
          count_if b (set s.threads i idle),
        );
        blocked =
            prompt-Blocked s.shared q b (set s.threads i idle) woke
              (All-set (Blocked s.shared) s.threads i idle inv.blocked tt);
      }

  -- Every step of every thread keeps the invariant.
  pub Step-Inv : {cap : ℕ} {s t : System A} → Step s t → Inv cap s → Inv cap t
  unfolding destroy_begin
  Step-Inv {s = s} (call i t e at run) inv = after-Inv inv i t e 1 idle at (omega arith) (
      resume-IsRight' s.ext t (enter_wait s.shared) inv.contents
        (waiting-Represents _ s.shared inv.contents inv.ring) (omega arith) e
        (start-resume s.ext t s.shared ∙ run))
  Step-Inv {s = s} (retry i t e at run) inv = after-Inv inv i t e 0 (awake t) at (omega arith) (
      let z : s.shared.waiting + 0 ≡ s.shared.waiting = omega arith in
      rw z (
        resume-IsRight' s.ext t s.shared inv.contents inv.ring
          (omega (arith, inv.counted, count-set s.threads i (awake t) idle at)) e run))
  Step-Inv {s = s} (try i t e at run) inv =
      try-Inv inv i t e at (attempt-IsPrompt' t s.shared inv.contents inv.ring e run)
  Step-Inv {s = s} (spurious i t at) inv = record {
    contents = inv.contents;
    ring = inv.ring;
    capacity_is = inv.capacity_is;
    fifo = inv.fifo;
    counted = omega (arith, inv.counted, count-set s.threads i (asleep t) (awake t) at);
    blocked = All-set (Blocked s.shared) s.threads i (awake t) inv.blocked tt;
  }
  Step-Inv {s = s} stop inv = record {
    contents = inv.contents;
    ring = inv.ring;
    capacity_is = inv.capacity_is;
    fifo = inv.fifo;
    counted = inv.counted;
    blocked = inv.blocked;
  }
  Step-Inv {s = s} close inv = record {
    contents = inv.contents;
    ring = close-Represents s.shared inv.contents inv.ring;
    capacity_is = inv.capacity_is;
    fifo = inv.fifo;
    counted = omega (arith, inv.counted, count-wake_all s.threads);
    blocked = wake_all-Blocked (destroy_begin s.shared) s.threads;
  }
