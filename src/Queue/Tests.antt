-- ===== src/Queue/Tests.antt =====
-- Runs of the queue, and the theorems about it at a queue of two cells.
use iomessage.Prelude.{
  ℕ, ◌≤◌, ◌<◌, inr, ◌≡◌, refl, ◌≢◌, true, false, none, some, List, [], ◌∷◌, ◌++◌, arith, length,
  get_elem?,
}
use iomessage.Queue.{
  SharedQueue, sleeps, returns, make_shared_queue, with_pushed, without_head, push_back_el, pop_el,
  push_back, pop, try_push_back, try_pop, destroy_begin, destroy_drain,
}
use iomessage.Queue.Refine.{Represents, push_back_el_refines, pop_el_refines}
use iomessage.Queue.Monitor.{
  push, take_one, asleep, awake, Effect, stays, leaves, System, start, resume, attempt, call, try,
  Reach, here, next, after,
}
use iomessage.Queue.Pieces.{IsRight, IsPrompt, resume-IsRight, attempt-IsPrompt}
use iomessage.Queue.Safety.{
  initial, first_in_first_out, asserts_hold, sleeper_has_reason, no_mutual_sleep,
}
use iomessage.Queue.Destroy.{destroy_drain_nothing}

abbrev empty_two : SharedQueue ℕ
empty_two = record {
  queue = none ∷ none ∷ [];
  tail = 0;
  head = 0;
  size = 0;
  capacity = 2;
  waiting = 0;
  exit_state = false;
}

-- 7, then 8, round the end of the cells
abbrev full_two : SharedQueue ℕ
full_two = record {
  queue = some 8 ∷ some 7 ∷ [];
  tail = 1;
  head = 1;
  size = 2;
  capacity = 2;
  waiting = 0;
  exit_state = false;
}

abbrev one_left : SharedQueue ℕ
one_left = record full_two { queue = some 8 ∷ none ∷ []; head = 0; size = 1 }

made_two : make_shared_queue {A = ℕ} true true 2 ≡ some empty_two
unfolding make_shared_queue
made_two = refl

full_two-Represents : Represents full_two (7 ∷ 8 ∷ [])
full_two-Represents = record {
  valid = record {
    cells = refl;
    head_in = omega arith;
    size_le = omega arith;
    tail_is = (omega arith, inr (omega arith));
  };
  elements = (refl, (refl, tt));
  count = refl;
}

try_pop_runs : try_pop full_two ≡ some (returns (some 7) true one_left)
unfolding try_pop pop_el
try_pop_runs = refl

push_back_sleeps : push_back false 9 full_two ≡ some (sleeps (record full_two { waiting = 1 }))
unfolding push_back
push_back_sleeps = refl

-- Both elements stay behind.
destroy_drain_runs :
    destroy_drain 5 false (destroy_begin full_two) ≡ some ([], destroy_begin full_two)
unfolding destroy_drain destroy_begin
destroy_drain_runs = refl

push_back_el_refines_example :
    (one_left.size < one_left.capacity
      → (push_back_el 9 one_left ≡ some (with_pushed 9 one_left))
        × Represents (with_pushed 9 one_left) (8 ∷ 9 ∷ []))
    × (one_left.capacity ≤ one_left.size → push_back_el 9 one_left ≡ none)
push_back_el_refines_example =
    push_back_el_refines 9 one_left (8 ∷ [])
      (pop_el_refines full_two 7 (8 ∷ []) full_two-Represents).1

pop_el_refines_example :
    (pop_el full_two ≡ some (some 7, without_head full_two))
    × Represents (without_head full_two) (8 ∷ [])
pop_el_refines_example = pop_el_refines full_two 7 (8 ∷ []) full_two-Represents

abbrev waiting_two : SharedQueue ℕ
waiting_two = record full_two { waiting = 1 }

waiting_two-Represents : Represents waiting_two (7 ∷ 8 ∷ [])
waiting_two-Represents = record {
  valid = record {
    cells = refl;
    head_in = omega arith;
    size_le = omega arith;
    tail_is = (omega arith, inr (omega arith));
  };
  elements = (refl, (refl, tt));
  count = refl;
}

resume-IsRight_example :
    (e : Effect ℕ) × (resume false take_one waiting_two ≡ some e)
    × IsRight waiting_two (7 ∷ 8 ∷ []) take_one e
resume-IsRight_example =
    resume-IsRight false take_one waiting_two (7 ∷ 8 ∷ []) waiting_two-Represents (omega arith)

attempt-IsPrompt_example :
    (e : Effect ℕ) × (attempt (push 9) full_two ≡ some e)
    × IsPrompt full_two (7 ∷ 8 ∷ []) (push 9) e
attempt-IsPrompt_example = attempt-IsPrompt (push 9) full_two (7 ∷ 8 ∷ []) full_two-Represents

-- Thread 0 sleeps in `pop` on the new queue, and thread 1 has called nothing.
abbrev sleeping : System ℕ
sleeping = after (initial empty_two 2) 0 take_one (stays (record empty_two { waiting = 1 }))

sleeping_reached : Reach (initial empty_two 2) sleeping
unfolding start pop
sleeping_reached = next here (call 0 take_one (stays (record empty_two { waiting = 1 })) refl refl)

first_in_first_out_example :
    (xs : List ℕ) × ([] ≡ [] ++ xs) × Represents sleeping.shared xs × (length xs ≤ 2)
first_in_first_out_example = first_in_first_out 2 2 empty_two made_two sleeping_reached

asserts_hold_example :
    (start false (push 4) sleeping.shared ≢ none)
    × (attempt (push 4) sleeping.shared ≢ none)
    × (get_elem? sleeping.threads 1 ≡ some (awake (push 4))
        → resume false (push 4) sleeping.shared ≢ none)
asserts_hold_example = asserts_hold 2 2 empty_two made_two 1 (push 4) sleeping_reached

sleeper_has_reason_example : (◌≡◌ {A = ℕ} 0 0) × (false ≡ false)
sleeper_has_reason_example =
    sleeper_has_reason 2 2 empty_two made_two 0 take_one sleeping_reached refl

destroy_drain_nothing_example :
    destroy_drain 5 false (destroy_begin full_two) ≡ some ([], destroy_begin full_two)
destroy_drain_nothing_example = destroy_drain_nothing 4 false full_two

-- One cell: thread 0 puts 5 in, and then sleeps in `push_back` of 6.
abbrev empty_one : SharedQueue ℕ
empty_one = record empty_two { queue = none ∷ []; capacity = 1 }

made_one : make_shared_queue {A = ℕ} true true 1 ≡ some empty_one
unfolding make_shared_queue
made_one = refl

abbrev holding : System ℕ
holding = after (initial empty_one 2) 0 (push 5) (leaves (with_pushed 5 empty_one) true (5 ∷ []) [])

abbrev pusher_sleeps : System ℕ
pusher_sleeps = after holding 0 (push 6) (stays (record (with_pushed 5 empty_one) { waiting = 1 }))

pusher_sleeps_reached : Reach (initial empty_one 2) pusher_sleeps
unfolding start push_back attempt try_push_back push_back_el
pusher_sleeps_reached =
    next (next here (try 0 (push 5) (leaves (with_pushed 5 empty_one) true (5 ∷ []) []) refl refl))
      (call 0 (push 6) (stays (record (with_pushed 5 empty_one) { waiting = 1 })) refl refl)

no_mutual_sleep_example : ¬ (get_elem? pusher_sleeps.threads 1 ≡ some (asleep take_one))
no_mutual_sleep_example = no_mutual_sleep 1 2 empty_one made_one 0 1 6 pusher_sleeps_reached refl
