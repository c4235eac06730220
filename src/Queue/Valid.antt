-- ===== src/Queue/Valid.antt =====
-- The representation invariant of `shared_queue_t`, and that every operation keeps it.
use iomessage.Prelude.{
  ℕ, ◌+◌, ◌≤◌, ◌<◌, ◌≡◌, ◌⊎◌, ◌↔◌, Bool, false, Option, none, some, arith, length, length-set,
  length-replicate,
}
use iomessage.Queue.{SharedQueue, make_shared_queue, with_pushed, without_head}

module _ {A : Type 0} where
  -- `tail` is the cell `size` steps round the ring from `head`.
  pub record IsValid (q : SharedQueue A) : Type 0 where
    pub cells : length q.queue ≡ q.capacity
    pub head_in : q.head < q.capacity
    pub size_le : q.size ≤ q.capacity
    pub tail_is :
        (q.tail < q.capacity)
        × ((q.tail ≡ q.head + q.size) ⊎ (q.tail + q.capacity ≡ q.head + q.size))

  -- What `make_shared_queue` returns is valid and empty, and it refuses just the capacity 0 and a
  -- failed allocation.
  pub make_shared_queue-IsValid :
      (shq_made cells_made : Bool) (cap : ℕ)
      → ((make_shared_queue {A = A} shq_made cells_made cap ≡ none)
          ↔ ((cap ≡ 0) ⊎ (shq_made ≡ false) ⊎ (cells_made ≡ false)))
        × ((q : SharedQueue A)
            → make_shared_queue shq_made cells_made cap ≡ some q
            → IsValid q
              × (q.size ≡ 0)
              × (q.capacity ≡ cap)
              × (q.waiting ≡ 0)
              × (q.exit_state ≡ false))
  unfolding make_shared_queue
  make_shared_queue-IsValid shq_made cells_made cap = (
    (λ e. ground arith, λ e. ground arith),
    λ q e. ground (arith, length-replicate {A = Option A} cap none),
  )

  pub with_pushed-IsValid :
      (el : A) (q : SharedQueue A) → IsValid q → q.size < q.capacity → IsValid (with_pushed el q)
  with_pushed-IsValid el q v h = ground (arith, length-set q.queue q.tail (some el))

  pub without_head-IsValid : (q : SharedQueue A) → IsValid q → 0 < q.size → IsValid (without_head q)
  without_head-IsValid q v h = ground (arith, length-set q.queue q.head none)
