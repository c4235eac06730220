-- ===== src/RecvBuf/Stream.antt =====
-- The stream of bytes that the buffer and the connection give, and what a round of `recv_req` makes of it.
use iomessage.Prelude.{
  ℕ, zero, suc, ◌+◌, ◌-◌, ◌≤◌, ◌<◌, ◌≡◌, ◌⊎◌, refl, sym, ap, true, false, ◌∙◌, none, some, [], ◌∷◌,
  ◌++◌, arith, leb, length, take, drop, Bytes, inl, inr, Option-cases, append_assoc, append-nil,
  length-drop, length-take, take-append-drop,
}
use iomessage.Text.{shift}
use iomessage.Text.Copy.{IsText}
use iomessage.Text.Find.{find_unescaped}
use iomessage.Text.Frame.{last_byte, shift_zero, shift-shift}
use iomessage.Network.{Conn, recv, Received, got, recv_failed, bytes_of}
use iomessage.RecvBuf.{RecvBuffer, recv_block_sz, next_bytes, buf_empty, cut_request}
use iomessage.RecvBuf.Fifo.{Buffered, get_from_buf_lem, put_in_buf_lem}

-- The connection after some calls of `recv`, and the bytes that they gave.
abbrev pub after_recvs : ℕ → Conn → Conn
after_recvs zero conn = conn
after_recvs (suc n) conn = after_recvs n (recv recv_block_sz conn).1

abbrev pub arrived : ℕ → Conn → Bytes
arrived zero conn = []
arrived (suc n) conn = (recv recv_block_sz conn).0 ++ arrived n (recv recv_block_sz conn).1

-- The client sends no NUL.
abbrev pub IsClean : Conn → Type 0
IsClean conn = (n : ℕ) → IsText (recv recv_block_sz (after_recvs n conn)).0

-- The buffer holds these bytes, fewer than a block of them, and is as `create_recv_buf` made it.
pub record Keeps (b : RecvBuffer) (held : Bytes) : Type 0 where
  pub free : Bytes
  pub buffered : Buffered b held free
  pub few : length held < 10
  pub size : length held + length free ≡ 10
  pub cap : b.cap ≡ 11

-- A search goes on behind a text in which nothing is found.
find_behind :
    (prev d : ℕ) (s t : Bytes)
    → find_unescaped prev s d ≡ none
    → find_unescaped prev (s ++ t) d ≡ shift (length s) (find_unescaped (last_byte prev s) t d)
unfolding find_unescaped
find_behind prev d [] t h = sym (shift_zero (find_unescaped prev t d))
find_behind prev d (c ∷ s) t h =
    ground
      (arith, find_behind c d s t, shift-shift 1 (length s) (find_unescaped (last_byte c s) t d))

-- What is found is found in the text up to it, as its last byte.
pub find-take :
    (prev d k : ℕ) (s : Bytes)
    → find_unescaped prev s d ≡ some k
    → (k < length s)
      × (find_unescaped prev (take (suc k) s) d ≡ some k)
      × (length (take (suc k) s) ≡ suc k)
unfolding find_unescaped
find-take prev d k [] h = cc
find-take prev d zero (c ∷ s) h = elim (Option-cases (find_unescaped c s d)) [
  | inl e ↦ ground (arith, h, e)
  | inr (k, e) ↦ ground (arith, h, e)
]
find-take prev d (suc k) (c ∷ s) h = elim (Option-cases (find_unescaped c s d)) [
  | inl e ↦ absurd (ground (arith, h, e))
  | inr (j, e) ↦ ground (arith, h, e, find-take c d j s e)
]

zero_plus : (n : ℕ) → zero + n ≡ n
zero_plus n = omega arith

suc_plus : (m n : ℕ) → suc m + n ≡ suc (m + n)
suc_plus m n = omega arith

pub found_behind :
    (prev d : ℕ) (s t : Bytes) (k : ℕ)
    → find_unescaped prev s d ≡ none
    → find_unescaped prev (s ++ t) d ≡ some k
    → length s ≤ k
found_behind prev d s t k h found = elim (Option-cases (find_unescaped (last_byte prev s) t d)) [
  | inl e ↦ absurd (ground (arith, find_behind prev d s t h, found, e))
  | inr (j, e) ↦ ground (arith, find_behind prev d s t h, found, e)
]

pub arrived_add :
    (m n : ℕ) (conn : Conn)
    → arrived (m + n) conn ≡ arrived m conn ++ arrived n (after_recvs m conn)
arrived_add zero n conn = rw (zero_plus n) refl
arrived_add (suc m) n conn = rw (suc_plus m n) (
    ap (λ t. (recv recv_block_sz conn).0 ++ t) (arrived_add m n (recv recv_block_sz conn).1)
    ∙ sym (append_assoc (recv recv_block_sz conn).0 (arrived m (recv recv_block_sz conn).1) _))

pub after_recvs_add :
    (m n : ℕ) (conn : Conn) → after_recvs n (after_recvs m conn) ≡ after_recvs (m + n) conn
after_recvs_add zero n conn = rw (zero_plus n) refl
after_recvs_add (suc m) n conn = rw (suc_plus m n) (after_recvs_add m n (recv recv_block_sz conn).1)

pub IsClean-after_recvs : (m : ℕ) (conn : Conn) → IsClean conn → IsClean (after_recvs m conn)
IsClean-after_recvs m conn clean n = rw (after_recvs_add m n conn) (clean (m + n))

bytes_short : (r : Received) → length (bytes_of r recv_block_sz) ≤ 10
bytes_short (got bytes) = omega (arith, length-take 10 bytes)
bytes_short (recv_failed err) = omega arith

recv_short : (conn : Conn) → length (recv recv_block_sz conn).0 ≤ 10
unfolding recv
recv_short conn = bytes_short (conn.recvs conn.recv_calls)

-- What a round gets: all that the buffer held, or a block from the connection.
pub next_bytes-Keeps :
    (b : RecvBuffer) (held : Bytes) (conn : Conn)
    → Keeps b held
    → IsText held
    → IsClean conn
    → (m : ℕ) × (b' : RecvBuffer) × (next_bytes b conn
        ≡ (held ++ arrived m conn, b', after_recvs m conn))
      × Keeps b' []
      × IsText (held ++ arrived m conn)
      × (length (held ++ arrived m conn) ≤ 10)
      × (held ++ arrived m conn ≡ [] → (recv recv_block_sz conn).0 ≡ [])
unfolding next_bytes buf_empty
next_bytes-Keeps b [] conn k t clean =
    let e : leb b.len 0 ≡ true = ground (arith, k.buffered.1) in
    let n = append-nil (recv recv_block_sz conn).0 in
    let run : next_bytes b conn ≡ ((recv recv_block_sz conn).0, b, (recv recv_block_sz conn).1) =
      rw (e, next_bytes) refl in
    (1, b, rw n run, k, rw n (clean 0), omega (arith, recv_short conn, ap length n), λ z. sym n ∙ z)
next_bytes-Keeps b (c ∷ cs) conn k t clean =
    let e : leb b.len 0 ≡ false = ground (arith, k.buffered.1) in
    let all = append-nil cs in
    let (b', free', run, buffered, size, cap) =
      get_from_buf_lem b (c ∷ cs) [] k.free 10 (rw all k.buffered)
        (rw all (omega (arith, k.few))) in
    (
      0,
      b',
      ground (arith, e, run, all),
      record {
        free = free';
        buffered = buffered;
        few = omega arith;
        size = omega (arith, size, k.size);
        cap = cap ∙ k.cap;
      },
      rw all t,
      rw all (omega (arith, k.few)),
      λ z. absurd (omega (arith, ap length z)),
    )

List-cases : (xs : Bytes) → (xs ≡ []) ⊎ ((c : ℕ) × (cs : Bytes) × (xs ≡ c ∷ cs))
List-cases [] = inl refl
List-cases (c ∷ cs) = inr (c, cs, refl)

-- The request is cut off, and the rest of the bytes is put into the empty buffer.
pub cut_request-Keeps :
    (text : Bytes) (end : ℕ) (b : RecvBuffer)
    → Keeps b []
    → end < length text
    → length text - suc end < 10
    → (b' : RecvBuffer) × (cut_request text end b ≡ (take (suc end) text, b'))
      × Keeps b' (drop (suc end) text)
unfolding cut_request
cut_request-Keeps text end b k inside few = elim (List-cases (drop (suc end) text)) [
  | inl e ↦
      let whole : take (suc end) text ≡ text =
        sym (append-nil (take (suc end) text)) ∙ (rw e at all) in
      (b, ground (arith, e, whole), rw e k)
  | inr (c, cs, e) ↦
      let n : suc (length cs) < 10 = omega (arith, ap length e, length-drop (suc end) text, few) in
      let mid : Bytes = take (suc (length cs)) k.free in
      let post : Bytes = drop (suc (length cs)) k.free in
      let cut = take-append-drop (suc (length cs)) k.free in
      let fits : length mid ≡ suc (length cs) =
        omega (arith, length-take (suc (length cs)) k.free, k.size, n) in
      let (b', run, buffered, cap) =
        put_in_buf_lem b [] (c ∷ cs) mid post (rw cut k.buffered) fits (omega (arith, k.cap, n)) in
      (
        b',
        ground (arith, e, run),
        rw e (record {
          free = post;
          buffered = buffered;
          few = n;
          size = omega (arith, length-drop (suc (length cs)) k.free, k.size, n);
          cap = cap ∙ k.cap;
        }),
      )
]
  where
    all : take (suc end) text ++ drop (suc end) text ≡ text
    all = take-append-drop (suc end) text

pub IsText-drop : (n : ℕ) (s : Bytes) → IsText s → IsText (drop n s)
IsText-drop zero s h = h
IsText-drop (suc n) [] h = tt
IsText-drop (suc n) (c ∷ s) h = IsText-drop n s h.1
