-- ===== src/RecvBuf/Promise.antt =====
-- What `recv_req` of server/src/CommunicationManager.c must come to, against the stream.
use iomessage.Prelude.{
  ℕ, suc, ◌+◌, ◌-◌, ◌≤◌, ◌≡◌, ◌⊎◌, refl, sym, ap, true, ◌∙◌, Option, none, some, [], ◌∷◌, ◌++◌,
  arith, ◌==◌, leb, length, take, drop, Bytes, inl, inr, append_assoc, append-nil, length-append,
  take-append-drop,
}
use iomessage.Text.{escaped_strchr}
use iomessage.Text.Copy.{IsText}
use iomessage.Text.Find.{find_unescaped, escaped_strchr-find}
use iomessage.Memory.Runs.{Failed, Failed-within}
use iomessage.Network.{Conn, recv}
use iomessage.RecvBuf.{RecvBuffer, recv_block_sz, Partial, cut_request}
use iomessage.RecvBuf.Block.{Filled}
use iomessage.RecvBuf.Stream.{
  after_recvs, after_recvs_add, arrived, arrived_add, Keeps, find-take, found_behind,
  cut_request-Keeps, IsText-drop,
}

-- Why no request is given, after `n` calls of `recv` and the allocations from number `from` up to `end`.
abbrev pub IsDropped : (ℕ → ℕ → Option ℕ) → ℕ → ℕ → ℕ → ℕ → Bytes → Conn → ℕ → Type 0
IsDropped answers from end max_msg_len front stream conn n =
    Failed answers from end
    ⊎ (((k : ℕ) × (k ≤ n)
          × ((recv recv_block_sz (after_recvs k conn)).0 ≡ [])
          × (find_unescaped front (stream ++ arrived n conn) b']' ≡ none))
        ⊎ (max_msg_len ≤ length (stream ++ arrived n conn)))

-- What `recv_req` must come to: NULL, for a reason, with some calls of `recv` made; or a request that ends
-- at its first bracket not escaped. It and what is then in the buffer are just the bytes that there were
-- and those that arrived, in order. In both cases the buffer is fit for the next call.
abbrev pub Delivers :
    (ℕ → ℕ → Option ℕ) → ℕ → ℕ → ℕ → ℕ → Bytes → Conn → Option Bytes → RecvBuffer → Conn → Type 0
Delivers answers from end max_msg_len front stream conn none b conn' =
    (n : ℕ) × (left : Bytes) × Keeps b left
    × IsText left
    × (conn' ≡ after_recvs n conn)
    × IsDropped answers from end max_msg_len front stream conn n
Delivers answers from end max_msg_len front stream conn (some req) b conn' =
    (n : ℕ) × (left : Bytes) × (stream ++ arrived n conn ≡ req ++ left)
    × Keeps b left
    × IsText left
    × (conn' ≡ after_recvs n conn)
    × (escaped_strchr (record { before = front; text = req }) b']' ≡ some (length req - 1))

stream_later :
    (text held : Bytes) (m n : ℕ) (conn : Conn)
    → ((text ++ (held ++ arrived m conn)) ++ []) ++ arrived n (after_recvs m conn)
      ≡ (text ++ held) ++ arrived (m + n) conn
stream_later text held m n conn = ground (
  arith,
  arrived_add m n conn,
  append_assoc text held (arrived m conn ++ arrived n (after_recvs m conn)),
  append_assoc held (arrived m conn) (arrived n (after_recvs m conn)),
  append_assoc text (held ++ arrived m conn) (arrived n (after_recvs m conn)),
  append-nil (text ++ (held ++ arrived m conn)),
)

pub no_bytes : (bytes : Bytes) → (length bytes == 0) ≡ true → bytes ≡ []
no_bytes [] h = refl
no_bytes (c ∷ bytes) h = absurd (ground (arith, h))

pub too_long :
    (p : Partial) (text held more : Bytes) (max_msg_len : ℕ)
    → Filled p text
    → leb max_msg_len (p.len + length (held ++ more)) ≡ true
    → max_msg_len ≤ length ((text ++ held) ++ more)
too_long p text held more max_msg_len f h =
    ground (arith, h, f.count, append_assoc text held more, length-append text (held ++ more))

pub Delivers-after_recvs :
    (answers : ℕ → ℕ → Option ℕ) (from mid end max_msg_len front m : ℕ) (text held : Bytes)
    (conn : Conn) (r : Option Bytes) (b : RecvBuffer) (conn' : Conn)
    → from ≤ mid
    → Delivers answers mid end max_msg_len front
        ((text ++ (held ++ arrived m conn)) ++ [])
        (after_recvs m conn)
        r
        b
        conn'
    → Delivers answers from end max_msg_len front (text ++ held) conn r b conn'
Delivers-after_recvs answers from mid end max_msg_len front m text held conn none b conn' le
      (n, left, keeps, t, conns, why) =
    (
      m + n,
      left,
      keeps,
      t,
      conns ∙ after_recvs_add m n conn,
      elim why [
        | inl refused ↦ inl (Failed-within answers mid end from end le (omega arith) refused)
        | inr (inl (k, few, empty, no_end)) ↦ inr (
            inl (
              m + k,
              omega (arith, few),
              rw (after_recvs_add m k conn) at (empty),
              rw (stream_later text held m n conn) at (no_end),
            ))
        | inr (inr long) ↦ inr (inr (rw (stream_later text held m n conn) at (long)))
      ],
    )
Delivers-after_recvs answers from mid end max_msg_len front m text held conn (some req) b conn' le
      (n, left, same, keeps, t, conns, at_end) =
    (
      m + n,
      left,
      sym (stream_later text held m n conn) ∙ same,
      keeps,
      t,
      conns ∙ after_recvs_add m n conn,
      at_end,
    )

-- The bracket is found: what is cut off, and what is kept.
pub found-Delivers :
    (answers : ℕ → ℕ → Option ℕ) (from until max_msg_len front m end : ℕ) (text held : Bytes)
    (b : RecvBuffer) (conn : Conn)
    → IsText (text ++ (held ++ arrived m conn))
    → Keeps b []
    → find_unescaped front text b']' ≡ none
    → find_unescaped front (text ++ (held ++ arrived m conn)) b']' ≡ some end
    → length (held ++ arrived m conn) ≤ 10
    → (req : Bytes) × (left : RecvBuffer) × (cut_request (text ++ (held ++ arrived m conn)) end b
        ≡ (req, left))
      × Delivers answers from until max_msg_len front
          (text ++ held)
          conn
          (some req)
          left
          (after_recvs m conn)
found-Delivers answers from until max_msg_len front m end text held b conn t k open_end hit short =
    let all : Bytes = text ++ (held ++ arrived m conn) in
    let (inside, ends, size) = find-take front b']' end all hit in
    let late : length text ≤ end =
      found_behind front b']' text (held ++ arrived m conn) end open_end hit in
    let l = length-append text (held ++ arrived m conn) in
    let (left, cut, keeps) = cut_request-Keeps all end b k inside (omega (arith, late, l, short)) in
    (
      take (suc end) all,
      left,
      cut,
      (
        m,
        drop (suc end) all,
        append_assoc text held (arrived m conn) ∙ sym (take-append-drop (suc end) all),
        keeps,
        IsText-drop (suc end) all t,
        refl,
        escaped_strchr-find (record { before = front; text = take (suc end) all }) b']'
            ∙ ends
            ∙ ap some (omega (arith, size)),
      ),
    )

-- What a call comes to that is part of one that began earlier.
pub Delivers-within :
    (answers : ℕ → ℕ → Option ℕ) (from mid end max_msg_len front : ℕ) (stream : Bytes) (conn : Conn)
    (r : Option Bytes) (b : RecvBuffer) (conn' : Conn)
    → from ≤ mid
    → Delivers answers mid end max_msg_len front stream conn r b conn'
    → Delivers answers from end max_msg_len front stream conn r b conn'
Delivers-within answers from mid end max_msg_len front stream conn none b conn' le
      (n, left, keeps, t, conns, why) =
    (
      n,
      left,
      keeps,
      t,
      conns,
      elim why [
        | inl refused ↦ inl (Failed-within answers mid end from end le (omega arith) refused)
        | inr other ↦ inr other
      ],
    )
Delivers-within answers from mid end max_msg_len front stream conn (some req) b conn' le h = h
