-- ===== src/Queue/Pieces.antt =====
-- What each piece of a queue operation does to the ring, on every branch; no assert fails.
use iomessage.Prelude.{
  ℕ, ◌+◌, ◌-◌, ◌≤◌, ◌<◌, ◌≡◌, refl, ◌⊎◌, Bool, true, false, some, List, [], ◌∷◌, ◌++◌, arith,
  Bool-cases, inl, inr, append-nil, leb, ◌||◌,
}
use mathlib.Core.Path.{subst}
use iomessage.Queue.{
  SharedQueue, with_pushed, without_head, push_back_test, push_back, try_push_back, pop_test, pop,
  try_pop, enter_wait, leave_wait, destroy_begin,
}
use iomessage.Queue.Refine.{Represents, push_back_el_refines, pop_el_refines}
use iomessage.Queue.Monitor.{
  Task, push, take_one, Thread, idle, asleep, Effect, stays, leaves, start, resume, attempt,
}

module _ {A : Type 0} where
  -- The reason for which a thread sleeps still holds.
  abbrev pub Blocked : SharedQueue A → Thread A → Type 0
  Blocked q (asleep (push el)) = (q.capacity ≤ q.size) × (q.exit_state ≡ false)
  Blocked q (asleep take_one) = (q.size ≡ 0) × (q.exit_state ≡ false)
  Blocked q _ = Unit

  abbrev pub waits : Thread A → ℕ
  waits idle = 0
  waits _ = 1

  -- Threads inside the wait of a blocking call.
  abbrev pub count_waiting : List (Thread A) → ℕ
  count_waiting [] = 0
  count_waiting (t ∷ ts) = waits t + count_waiting ts

  -- What an effect must be, on a queue that holds `xs`.
  abbrev pub IsRight : SharedQueue A → List A → Task A → Effect A → Type 0
  IsRight q xs t (stays q') = (q' ≡ q) × Blocked q (asleep t)
  IsRight q xs t (leaves q' b entered left) =
      (ys : List A) × Represents q' ys
      × (xs ++ entered ≡ left ++ ys)
      × (q'.waiting + 1 ≡ q.waiting)
      × (b ≡ true)
      × (q'.capacity ≡ q.capacity)

  -- How many threads wait does not matter to the ring, nor does the flag of its end.
  pub waiting-Represents :
      (w : ℕ) (q : SharedQueue A) (xs : List A)
      → Represents q xs
      → Represents (record q { waiting = w }) xs
  waiting-Represents w q xs r = record {
    valid = ground (arith, r.valid);
    elements = r.elements;
    count = r.count;
  }

  pub close-Represents :
      (q : SharedQueue A) (xs : List A) → Represents q xs → Represents (destroy_begin q) xs
  unfolding destroy_begin
  close-Represents q xs r = record {
    valid = ground (arith, r.valid);
    elements = r.elements;
    count = r.count;
  }

  leave-Represents :
      (q : SharedQueue A) (xs : List A) → Represents q xs → Represents (leave_wait q) xs
  leave-Represents q = waiting-Represents (q.waiting - 1) q

  -- On a ring that represents some elements, with the caller counted as waiting, each piece of a
  -- blocking call fails no assert. It sleeps only where the ring is full or empty and the queue not at
  -- its end, with nothing changed; else it returns, no longer counted, puts its element behind the
  -- others or takes the first, or neither, and wakes the others.
  pub resume-IsRight :
      (ext : Bool) (t : Task A) (q : SharedQueue A) (xs : List A)
      → Represents q xs
      → 0 < q.waiting
      → (e : Effect A) × (resume ext t q ≡ some e) × IsRight q xs t e
  unfolding resume push_back_test pop_test
  resume-IsRight ext (push el) q xs r w = elim (Bool-cases (q.exit_state || ext)) [
    | inl out ↦ (
      leaves (leave_wait q) true [] [],
      ground arith,
      (xs, leave-Represents q xs r, append-nil xs, omega arith, refl, refl),
    )
    | inr on ↦ elim (Bool-cases (leb q.capacity q.size)) [
      | inl full ↦ (stays q, ground arith, (refl, ground arith))
      | inr room ↦
          let (made, held) =
            (push_back_el_refines el (leave_wait q) xs (leave-Represents q xs r)).0
              (ground arith) in
          (
            leaves (with_pushed el (leave_wait q)) true (el ∷ []) [],
            ground (arith, made),
            (xs ++ (el ∷ []), held, refl, omega arith, refl, refl),
          )
    ]
  ]
  resume-IsRight ext take_one q xs r w = elim (Bool-cases (q.exit_state || ext)) [
    | inl out ↦ (
      leaves (leave_wait q) true [] [],
      ground arith,
      (xs, leave-Represents q xs r, append-nil xs, omega arith, refl, refl),
    )
    | inr on ↦ take_elements xs r on
  ]
    where
      take_elements :
          (zs : List A)
          → Represents q zs
          → q.exit_state || ext ≡ false
          → (e : Effect A) × (resume ext take_one q ≡ some e) × IsRight q zs take_one e
      take_elements [] held on = (stays q, ground arith, (refl, ground arith))
      take_elements (z ∷ zs) held on =
          let (made, rest) =
            pop_el_refines (leave_wait q) z zs (leave-Represents q (z ∷ zs) held) in
          (
            leaves (without_head (leave_wait q)) true [] (z ∷ []),
            ground (arith, made),
            (zs, rest, append-nil (z ∷ zs), omega arith, refl, refl),
          )

  -- A push is refused just where the ring is full, a pop just where it is empty.
  abbrev pub IsTried : SharedQueue A → List A → Task A → Bool → List A → List A → Type 0
  IsTried q xs (push el) b entered left =
      ((q.capacity ≤ q.size) × (b ≡ false) × (entered ≡ []) × (left ≡ []))
      ⊎ ((q.size < q.capacity) × (b ≡ true) × (entered ≡ el ∷ []) × (left ≡ []))
  IsTried q xs take_one b entered left =
      ((xs ≡ []) × (b ≡ false) × (entered ≡ []) × (left ≡ []))
      ⊎ ((x : A) × (rest : List A) × (xs ≡ x ∷ rest)
          × (b ≡ true)
          × (entered ≡ [])
          × (left ≡ x ∷ []))

  -- What an attempt must be: the same, but that it may return at once and changes nothing then.
  abbrev pub IsPrompt : SharedQueue A → List A → Task A → Effect A → Type 0
  IsPrompt q xs t (stays q') = ⊥
  IsPrompt q xs t (leaves q' b entered left) =
      (ys : List A) × Represents q' ys
      × (xs ++ entered ≡ left ++ ys)
      × (q'.waiting ≡ q.waiting)
      × ((b ≡ true) ⊎ (q' ≡ q))
      × (q'.capacity ≡ q.capacity)
      × IsTried q xs t b entered left

  -- On a ring that represents some elements a call that does not block fails no assert and does not
  -- sleep. A push puts its element behind the others just where there is room, a pop takes the first
  -- just where there is one; the others are then woken. Else the queue is left as it was, and no thread is
  -- woken.
  pub attempt-IsPrompt :
      (t : Task A) (q : SharedQueue A) (xs : List A)
      → Represents q xs
      → (e : Effect A) × (attempt t q ≡ some e) × IsPrompt q xs t e
  unfolding attempt try_push_back try_pop
  attempt-IsPrompt (push el) q xs r = elim (Bool-cases (leb q.capacity q.size)) [
    | inl full ↦ (
      leaves q false [] [],
      ground arith,
      (xs, r, append-nil xs, refl, inr refl, refl, inl (ground arith, refl, refl, refl)),
    )
    | inr room ↦
        let (made, held) = (push_back_el_refines el q xs r).0 (ground arith) in
        (
          leaves (with_pushed el q) true (el ∷ []) [],
          ground (arith, made),
          (xs ++ (el ∷ []), held, refl, refl, inl refl, refl, inr (ground arith, refl, refl, refl)),
        )
  ]
  attempt-IsPrompt take_one q [] r = (
    leaves q false [] [],
    ground arith,
    ([], r, refl, refl, inr refl, refl, inl (refl, refl, refl, refl)),
  )
  attempt-IsPrompt take_one q (x ∷ xs) r =
      let (made, rest) = pop_el_refines q x xs r in
      (
        leaves (without_head q) true [] (x ∷ []),
        ground (arith, made),
        (xs, rest, append-nil (x ∷ xs), refl, inl refl, refl, inr (x, xs, refl, refl, refl, refl)),
      )

  -- The same of the effect that a step has.
  pub resume-IsRight' :
      (ext : Bool) (t : Task A) (q : SharedQueue A) (xs : List A)
      → Represents q xs
      → 0 < q.waiting
      → (e : Effect A) → resume ext t q ≡ some e
      → IsRight q xs t e
  resume-IsRight' ext t q xs r w e run =
      let (e', run', right) = resume-IsRight ext t q xs r w in
      let same : e' ≡ e = cc in subst (IsRight q xs t) same right

  pub attempt-IsPrompt' :
      (t : Task A) (q : SharedQueue A) (xs : List A)
      → Represents q xs
      → (e : Effect A) → attempt t q ≡ some e
      → IsPrompt q xs t e
  attempt-IsPrompt' t q xs r e run =
      let (e', run', prompt) = attempt-IsPrompt t q xs r in
      let same : e' ≡ e = cc in subst (IsPrompt q xs t) same prompt

  -- A blocking call starts as it goes on, but that it counts itself first.
  pub start-resume :
      (ext : Bool) (t : Task A) (q : SharedQueue A) → resume ext t (enter_wait q) ≡ start ext t q
  unfolding start resume push_back pop
  start-resume ext (push el) q = refl
  start-resume ext take_one q = refl
