-- ===== src/RecvBuf/Fifo.antt =====
-- The receive buffer as a queue of bytes, and that `recv_req` returns.
use iomessage.Prelude.{
  ℕ, ◌+◌, ◌-◌, ◌≤◌, ◌≡◌, refl, sym, ◌∙◌, false, some, [], ◌∷◌, ◌++◌, arith, leb, append-nil,
  append_assoc, length, get_or, set, take, Bytes, set-append, get_or-append, length-append,
  take_all, min,
}
use iomessage.RecvBuf.{
  RecvBuffer, shift_loop, get_ch_from_buf, get_loop, get_from_buf, put_loop, put_in_buf,
}

-- The buffer holds these bytes, in this order, in front of its block.
abbrev pub Buffered : RecvBuffer → Bytes → Bytes → Type 0
Buffered b held free = (b.buf ≡ held ++ free) × (b.len ≡ length held)

shift_loop_lem :
    (mid front : Bytes) (x : ℕ) (post : Bytes) (i : ℕ)
    → i ≡ length front + 1
    → (z : ℕ) × (shift_loop (length mid) i (front ++ (x ∷ (mid ++ post)))
        ≡ front ++ (mid ++ (z ∷ post)))
unfolding shift_loop
shift_loop_lem [] front x post i e = (x, refl)
shift_loop_lem (y ∷ mid) front x post i e =
    let w : set (front ++ (x ∷ (y ∷ (mid ++ post)))) (i - 1) y
        ≡ front ++ (y ∷ (y ∷ (mid ++ post))) =
      set-append front x (y ∷ (mid ++ post)) (i - 1) y (omega (arith, e)) in
    let g : get_or (front ++ (x ∷ (y ∷ (mid ++ post)))) i 0 ≡ y =
      rw (← append_assoc front (x ∷ []) (y ∷ (mid ++ post))) (
        get_or-append (front ++ (x ∷ [])) y (mid ++ post) i 0
          (omega (arith, e, length-append front (x ∷ [])))) in
    let (z, rest) =
      shift_loop_lem mid (front ++ (y ∷ [])) y post (i + 1)
        (omega (arith, e, length-append front (y ∷ []))) in
    (
      z,
      ground (
        arith,
        w,
        g,
        rest,
        append_assoc front (y ∷ []) (y ∷ (mid ++ post)),
        append_assoc front (y ∷ []) (mid ++ (z ∷ post)),
      ),
    )

-- A byte is taken from the front, the others stay.
get_ch_lem :
    (b : RecvBuffer) (c : ℕ) (cs free : Bytes)
    → Buffered b (c ∷ cs) free
    → (z : ℕ) × (b' : RecvBuffer) × (get_ch_from_buf b ≡ (some c, b'))
      × Buffered b' cs (z ∷ free)
      × (b'.cap ≡ b.cap)
unfolding get_ch_from_buf
get_ch_lem b c cs free (buf, len) =
    let (z, moved) = shift_loop_lem cs [] c free 1 refl in
    let some_bytes : leb b.len 0 ≡ false = ground (arith, len) in
    let n : b.len - 1 ≡ length cs = omega (arith, len) in
    (
      z,
      record b { buf = cs ++ (z ∷ free); len = length cs },
      ground (arith, some_bytes, n, buf, moved),
      (refl, refl),
      refl,
    )

get_loop_lem :
    (xs ys : Bytes) (b : RecvBuffer) (free : Bytes)
    → Buffered b (xs ++ ys) free
    → (b' : RecvBuffer) × (free' : Bytes) × (get_loop (length xs) b ≡ (xs, b'))
      × Buffered b' ys free'
      × (length free' ≡ length free + length xs)
      × (b'.cap ≡ b.cap)
unfolding get_loop
get_loop_lem [] ys b free h = (b, free, refl, h, omega arith, refl)
get_loop_lem (x ∷ xs) ys b free h =
    let (z, b1, run, h1, cap1) = get_ch_lem b x (xs ++ ys) free h in
    let (b2, free2, run2, h2, room, cap2) = get_loop_lem xs ys b1 (z ∷ free) h1 in
    (b2, free2, ground (arith, run, run2), h2, omega (arith, room), cap2 ∙ cap1)

-- `get_from_buf` takes the first bytes out, as many as are asked for and no more than there are, in
-- order; the others stay in the buffer, and the block keeps its size.
pub get_from_buf_lem :
    (b : RecvBuffer) (xs ys free : Bytes) (len : ℕ)
    → Buffered b (xs ++ ys) free
    → length xs ≡ min len (length (xs ++ ys))
    → (b' : RecvBuffer) × (free' : Bytes) × (get_from_buf b len ≡ (xs, b'))
      × Buffered b' ys free'
      × (length free' ≡ length free + length xs)
      × (b'.cap ≡ b.cap)
unfolding get_from_buf
get_from_buf_lem b xs ys free len h e =
    let n : min len b.len ≡ length xs = rw h.1 (sym e) in rw n (get_loop_lem xs ys b free h)

put_loop_lem :
    (cs held mid post : Bytes) (i : ℕ)
    → i ≡ length held
    → length mid ≡ length cs
    → put_loop cs i (held ++ (mid ++ post)) ≡ (held ++ cs) ++ post
unfolding put_loop
put_loop_lem [] held [] post i e h = ground (arith, append-nil held)
put_loop_lem [] held (x ∷ mid) post i e h = absurd (omega (arith, h))
put_loop_lem (c ∷ cs) held [] post i e h = absurd (omega (arith, h))
put_loop_lem (c ∷ cs) held (x ∷ mid) post i e h = ground (
  arith,
  set-append held x (mid ++ post) i c e,
  append_assoc held (c ∷ []) (mid ++ post),
  append_assoc held (c ∷ []) cs,
  put_loop_lem cs (held ++ (c ∷ [])) mid post (i + 1)
      (omega (arith, e, length-append held (c ∷ []))) (omega (arith, h)),
)

-- Where the block and the capacity have room, `put_in_buf` puts all bytes behind those that the buffer
-- holds, and no other byte of the block changes.
pub put_in_buf_lem :
    (b : RecvBuffer) (held str mid post : Bytes)
    → Buffered b held (mid ++ post)
    → length mid ≡ length str
    → length held + length str ≤ b.cap
    → (b' : RecvBuffer) × (put_in_buf b str (length str) ≡ (b', length str))
      × Buffered b' (held ++ str) post
      × (b'.cap ≡ b.cap)
unfolding put_in_buf
put_in_buf_lem b held str mid post (buf, len) fits room =
    let n : min (length str) (b.cap - b.len) ≡ length str = omega (arith, room, len) in
    let t : take (length str) str ≡ str = take_all (length str) str (omega arith) in
    let p = put_loop_lem str held mid post b.len len fits in
    (
      record b { buf = (held ++ str) ++ post; len = b.len + length str },
      ground (arith, n, t, buf, p),
      (refl, omega (arith, len, length-append held str)),
      refl,
    )
