-- ===== src/Communicator/Next.antt =====
-- The requests in the stream of a client's bytes: where each ends, and that `recv_req` delivers the next.
use iomessage.Prelude.{
  ℕ, ◌+◌, ◌-◌, ◌≡◌, ◌≢◌, refl, sym, ap, ◌∙◌, arith, true, some, List, [], ◌∷◌, ◌++◌, length, take,
  drop, Bytes, inl, inr, Option-cases, append_assoc, take-append, drop-append,
}
use iomessage.Text.{shift, is_special}
use iomessage.Text.Find.{find_unescaped}
use iomessage.Text.Escape.{escape}
use iomessage.Text.Frame.{last_byte, shift-shift, find-escape_over}
use iomessage.Network.{Conn}
use iomessage.Request.Params.Pairs.{print_pairs, differs, last_of, find-print_pairs}
use iomessage.Request.Parse.Section.{braced}
use iomessage.Request.Parse.Braces.{print_req, length-print_req}
use iomessage.RecvBuf.Stream.{after_recvs, arrived, arrived_add, find-take}

bracket_special : is_special b']' ≡ true
unfolding is_special
bracket_special = refl

found_at : (prev d : ℕ) (t : Bytes) → prev ≢ b'\\' → find_unescaped prev (d ∷ t) d ≡ some 0
unfolding find_unescaped
found_at prev d t h = ground (arith, h)

-- The search for a closing bracket goes on behind a section.
section_over :
    (front before : ℕ) (body rest : Bytes)
    → find_unescaped b'{' (body ++ (b'}' ∷ rest)) b']'
      ≡ shift (length body) (find_unescaped before (b'}' ∷ rest) b']')
    → find_unescaped front (braced [] body rest) b']'
      ≡ shift (length body + 2) (find_unescaped b'}' rest b']')
unfolding find_unescaped
section_over front before body rest over = ground (
  arith,
  over,
  shift-shift (length body) 1 (find_unescaped b'}' rest b']'),
  shift-shift 1 (length body + 1) (find_unescaped b'}' rest b']'),
)

first_over :
    (front : ℕ) (body rest : Bytes)
    → find_unescaped front (braced (b'[' ∷ []) body rest) b']'
      ≡ shift 1 (find_unescaped b'[' (braced [] body rest) b']')
unfolding find_unescaped
first_over front body rest = refl

escape_over :
    (front : ℕ) (s rest : Bytes)
    → find_unescaped front (braced [] (escape s) rest) b']'
      ≡ shift (length (escape s) + 2) (find_unescaped b'}' rest b']')
escape_over front s rest =
    section_over front (last_byte b'{' s) (escape s) rest
      (find-escape_over b'{' b']' s (b'}' ∷ rest) bracket_special (differs b']' b'\\' refl))

pairs_over :
    (front : ℕ) (ps : List (Bytes × Bytes)) (rest : Bytes)
    → find_unescaped front (braced [] (print_pairs ps) rest) b']'
      ≡ shift (length (print_pairs ps) + 2) (find_unescaped b'}' rest b']')
pairs_over front ps rest =
    section_over front (last_of b'{' ps) (print_pairs ps) rest
      (find-print_pairs b'{' b']' ps (b'}' ∷ rest) bracket_special refl refl refl)

-- The first closing bracket of a printed request that is not escaped is its last byte.
pub print_req-end :
    (front : ℕ) (type : Bytes) (ps : List (Bytes × Bytes)) (payload : Bytes)
    → find_unescaped front (print_req type ps payload) b']'
      ≡ some (length (print_req type ps payload) - 1)
print_req-end front type ps payload =
    let third : Bytes = braced [] (escape payload) (b']' ∷ []) in
    let second : Bytes = braced [] (print_pairs ps) third in
    ground (
      arith,
      first_over front (escape type) second,
      escape_over b'[' type second,
      pairs_over b'}' ps third,
      escape_over b'}' payload (b']' ∷ []),
      found_at b'}' b']' [] (differs b'}' b'\\' refl),
      length-print_req type ps payload,
    )

find-append :
    (prev d k : ℕ) (s t : Bytes)
    → find_unescaped prev s d ≡ some k
    → find_unescaped prev (s ++ t) d ≡ some k
unfolding find_unescaped
find-append prev d k [] t h = cc
find-append prev d k (c ∷ s) t h = elim (Option-cases (find_unescaped c s d)) [
  | inl e ↦ ground (arith, h, e)
  | inr (j, e) ↦ ground (arith, h, e, find-append c d j s t e)
]

-- Two texts that begin the same and end at the same first bracket are one.
same_front :
    (front : ℕ) (s t rest more : Bytes)
    → find_unescaped front s b']' ≡ some (length s - 1)
    → find_unescaped front t b']' ≡ some (length t - 1)
    → s ++ rest ≡ t ++ more
    → (s ≡ t) × (rest ≡ more)
same_front front s t rest more hs ht e =
    let fs = find-append front b']' (length s - 1) s rest hs in
    let ft = find-append front b']' (length t - 1) t more ht in
    let (ls, _, _) = find-take front b']' (length s - 1) s hs in
    let (lt, _, _) = find-take front b']' (length t - 1) t ht in
    let n : length s ≡ length t = ground (arith, fs, ft, e, ls, lt) in
    let front_same : s ≡ t =
      sym (take-append s rest)
      ∙ ap (λ k. take k (s ++ rest)) n
      ∙ ap (take (length t)) e
      ∙ take-append t more in
    (
      front_same,
      sym (drop-append s rest)
          ∙ ap (λ k. drop k (s ++ rest)) n
          ∙ ap (drop (length t)) e
          ∙ drop-append t more,
    )

-- What the buffer holds and what the connection will give is, as far as it comes, this text.
abbrev pub Carries : Bytes → Conn → Bytes → Type 0
Carries held conn text = (n : ℕ) → (rest : Bytes) × (held ++ (arrived n conn ++ rest) ≡ text)

-- The next request of the stream is the one that `recv_req` delivers.
pub delivered_next :
    (front : ℕ) (held text more req : Bytes) (conn conn' : Conn) (n : ℕ) (left : Bytes)
    → find_unescaped front text b']' ≡ some (length text - 1)
    → find_unescaped front req b']' ≡ some (length req - 1)
    → Carries held conn (text ++ more)
    → held ++ arrived n conn ≡ req ++ left
    → conn' ≡ after_recvs n conn
    → (req ≡ text) × Carries left conn' more
delivered_next front held text more req conn conn' n left ends ends' carries same conns = (
  (same_front front req text _ more ends' ends (whole 0).1).0,
  rw conns (λ m. ((whole m).0, (same_front front req text _ more ends' ends (whole m).1).1)),
)
  where
    whole :
        (m : ℕ)
        → (rest : Bytes) × (req ++ (left ++ (arrived m (after_recvs n conn) ++ rest))
            ≡ text ++ more)
    whole m =
        let (rest, e) = carries (n + m) in
        (
          rest,
          ground (
            arith,
            e,
            same,
            arrived_add n m conn,
            append_assoc held (arrived n conn) (arrived m (after_recvs n conn) ++ rest),
            append_assoc (arrived n conn) (arrived m (after_recvs n conn)) rest,
            append_assoc req left (arrived m (after_recvs n conn) ++ rest),
          ),
        )
