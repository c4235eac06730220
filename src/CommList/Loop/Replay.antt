-- ===== src/CommList/Loop/Replay.antt =====
-- What happens to the threads, replayed on which ids live: `remove_stale_communicators`, a new thread,
-- the end of a thread, and the wait for all.
use iomessage.Prelude.{
  ℕ, zero, suc, ◌+◌, ◌≡◌, refl, sym, ap, ◌∙◌, arith, Bool, true, false, Bool-cases, Option-cases,
  inl, inr, Option, none, some, List, [], ◌∷◌, ◌++◌, append_assoc, if◌then◌else◌, length,
  length-append, get_elem?, set, set-append, replicate,
}
use iomessage.CommList.{
  Communicator, CommArray, remove_stale_communicators, wait_for_all_communicators,
}
use iomessage.CommList.Loop.{Event, made, gone, end_thread, gone_all}

-- Which ids live. An id may be made only if it does not live, and destroyed only if it does.
abbrev pub replay_event : Event → List Bool → Option (List Bool)
replay_event (made i) live = elim (get_elem? live i) [
  | none ↦ none
  | some b ↦ if b then none else some (set live i true)
]
replay_event (gone i) live = elim (get_elem? live i) [
  | none ↦ none
  | some b ↦ if b then some (set live i false) else none
]

abbrev pub replay : List Event → List Bool → Option (List Bool)
replay [] live = some live
replay (e ∷ es) live = elim (replay_event e live) [ none ↦ none | some after ↦ replay es after ]

abbrev is_used : Option Communicator → Bool
is_used none = false
is_used (some c) = true

abbrev pub lives : CommArray → List Bool
lives [] = []
lives (c ∷ cs) = is_used c ∷ lives cs

-- A list of `m` cells from cell `n` on, where each communicator has the number of its cell.
abbrev pub IsNumbered : ℕ → ℕ → CommArray → Type 0
IsNumbered n zero [] = Unit
IsNumbered n (suc m) (none ∷ cs) = IsNumbered (suc n) m cs
IsNumbered n (suc m) (some c ∷ cs) = (c.communicator_id ≡ n) × IsNumbered (suc n) m cs
IsNumbered n zero (c ∷ cs) = ⊥
IsNumbered n (suc m) [] = ⊥

pub replay-append :
    (es fs : List Event) (live after : List Bool)
    → replay es live ≡ some after
    → replay (es ++ fs) live ≡ replay fs after
replay-append [] fs live after e = ground (arith, e)
replay-append (x ∷ es) fs live after e = elim (Option-cases (replay_event x live)) [
  | inl stuck ↦ absurd (ground (arith, stuck, e))
  | inr (mid, h) ↦ rw (h, replay) (replay-append es fs mid after (rw (h, replay) at (e)))
]

pub replay-made :
    (es : List Event) (live : List Bool) (i : ℕ)
    → get_elem? live i ≡ some false
    → replay (made i ∷ es) live ≡ replay es (set live i true)
replay-made es live i e = ground (arith, e)

replay-gone :
    (es : List Event) (live : List Bool) (i : ℕ)
    → get_elem? live i ≡ some true
    → replay (gone i ∷ es) live ≡ replay es (set live i false)
replay-gone es live i e = ground (arith, e)

get_elem?-append :
    (front : List Bool) (b : Bool) (xs : List Bool)
    → get_elem? (front ++ (b ∷ xs)) (length front) ≡ some b
get_elem?-append [] b xs = refl
get_elem?-append (a ∷ front) b xs = get_elem?-append front b xs

-- What `remove_stale_communicators` destroys did live, and nothing else is dropped.
pub remove_stale-replays :
    (front : List Bool) (n m : ℕ) (cs : CommArray)
    → n ≡ length front
    → IsNumbered n m cs
    → (replay (gone_all (remove_stale_communicators cs).1) (front ++ lives cs)
        ≡ some (front ++ lives (remove_stale_communicators cs).0))
      × IsNumbered n m (remove_stale_communicators cs).0
unfolding remove_stale_communicators
remove_stale-replays front n zero [] e h = (refl, tt)
remove_stale-replays front n zero (_ ∷ cs) e h = absurd h
remove_stale-replays front n (suc m) [] e h = absurd h
remove_stale-replays front n (suc m) (none ∷ cs) e h =
    let (same, num) =
      remove_stale-replays (front ++ (false ∷ [])) (suc n) m cs
        (omega (arith, e, length-append front (false ∷ []))) h in
    (
      ap (replay (gone_all (remove_stale_communicators cs).1))
            (sym (append_assoc front (false ∷ []) (lives cs)))
          ∙ same
          ∙ ap some (append_assoc front (false ∷ []) (lives (remove_stale_communicators cs).0)),
      num,
    )
remove_stale-replays front n (suc m) (some c ∷ cs) e h = elim (Bool-cases c.exited) [
  | inr on ↦
      let (same, num) =
        remove_stale-replays (front ++ (true ∷ [])) (suc n) m cs
          (omega (arith, e, length-append front (true ∷ []))) h.1 in
      rw on (
        ap (replay (gone_all (remove_stale_communicators cs).1))
              (sym (append_assoc front (true ∷ []) (lives cs)))
            ∙ same
            ∙ ap some (append_assoc front (true ∷ []) (lives (remove_stale_communicators cs).0)),
        (h.0, num),
      )
  | inl off ↦
      let (same, num) =
        remove_stale-replays (front ++ (false ∷ [])) (suc n) m cs
          (omega (arith, e, length-append front (false ∷ []))) h.1 in
      let at : get_elem? (front ++ (true ∷ lives cs)) c.communicator_id ≡ some true =
        ap (get_elem? (front ++ (true ∷ lives cs))) (h.0 ∙ e)
        ∙ get_elem?-append front true (lives cs) in
      let put : set (front ++ (true ∷ lives cs)) c.communicator_id false
          ≡ front ++ (false ∷ lives cs) =
        ap (λ i. set (front ++ (true ∷ lives cs)) i false) (h.0 ∙ e)
        ∙ set-append front true (lives cs) (length front) false refl in
      rw off (
        replay-gone (gone_all (remove_stale_communicators cs).1) (front ++ (true ∷ lives cs))
              c.communicator_id at
            ∙ ap (replay (gone_all (remove_stale_communicators cs).1))
                (put ∙ sym (append_assoc front (false ∷ []) (lives cs)))
            ∙ same
            ∙ ap some (append_assoc front (false ∷ []) (lives (remove_stale_communicators cs).0)),
        num,
      )
]

pub end_thread-same :
    (i n m : ℕ) (cs : CommArray)
    → IsNumbered n m cs
    → (lives (end_thread i cs) ≡ lives cs) × IsNumbered n m (end_thread i cs)
unfolding end_thread
end_thread-same i n zero [] h = (refl, tt)
end_thread-same i n zero (_ ∷ cs) h = absurd h
end_thread-same i n (suc m) [] h = absurd h
end_thread-same zero n (suc m) (none ∷ cs) h = (refl, h)
end_thread-same zero n (suc m) (some c ∷ cs) h = (refl, h)
end_thread-same (suc i) n (suc m) (none ∷ cs) h =
    let (same, num) = end_thread-same i (suc n) m cs h in (ap (λ t. false ∷ t) same, num)
end_thread-same (suc i) n (suc m) (some c ∷ cs) h =
    let (same, num) = end_thread-same i (suc n) m cs h.1 in (ap (λ t. true ∷ t) same, (h.0, num))

-- A new thread in a free cell.
pub set-IsNumbered :
    (i n m : ℕ) (c : Communicator) (cs : CommArray)
    → get_elem? cs i ≡ some none
    → c.communicator_id ≡ n + i
    → IsNumbered n m cs
    → (get_elem? (lives cs) i ≡ some false)
      × (lives (set cs i (some c)) ≡ set (lives cs) i true)
      × IsNumbered n m (set cs i (some c))
set-IsNumbered i n zero c [] e id h = absurd (cc)
set-IsNumbered i n zero c (_ ∷ cs) e id h = absurd h
set-IsNumbered i n (suc m) c [] e id h = absurd h
set-IsNumbered zero n (suc m) c (none ∷ cs) e id h = (refl, refl, (omega (arith, id), h))
set-IsNumbered zero n (suc m) c (some d ∷ cs) e id h = absurd (cc)
set-IsNumbered (suc i) n (suc m) c (none ∷ cs) e id h =
    let (free, live, num) = set-IsNumbered i (suc n) m c cs e (omega (arith, id)) h in
    (free, ap (λ t. false ∷ t) live, num)
set-IsNumbered (suc i) n (suc m) c (some d ∷ cs) e id h =
    let (free, live, num) = set-IsNumbered i (suc n) m c cs e (omega (arith, id)) h.1 in
    (free, ap (λ t. true ∷ t) live, (h.0, num))

pub free_all :
    (n m : ℕ) → IsNumbered n m (replicate m none) × (lives (replicate m none) ≡ replicate m false)
free_all n zero = (tt, refl)
free_all n (suc m) = let (num, live) = free_all (suc n) m in (num, ap (λ t. false ∷ t) live)

-- Once all have been waited for, all are removed.
pub wait-removes :
    (n m : ℕ) (cs : CommArray)
    → IsNumbered n m cs
    → ((remove_stale_communicators (wait_for_all_communicators cs)).0 ≡ replicate m none)
      × IsNumbered n m (wait_for_all_communicators cs)
      × (lives (wait_for_all_communicators cs) ≡ lives cs)
unfolding remove_stale_communicators wait_for_all_communicators
wait-removes n zero [] h = (refl, tt, refl)
wait-removes n zero (_ ∷ cs) h = absurd h
wait-removes n (suc m) [] h = absurd h
wait-removes n (suc m) (none ∷ cs) h =
    let (empty, num, live) = wait-removes (suc n) m cs h in
    (ap (λ t. none ∷ t) empty, num, ap (λ t. false ∷ t) live)
wait-removes n (suc m) (some c ∷ cs) h =
    let (empty, num, live) = wait-removes (suc n) m cs h.1 in
    (ap (λ t. none ∷ t) empty, (h.0, num), ap (λ t. true ∷ t) live)
