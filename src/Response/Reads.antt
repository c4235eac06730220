-- ===== src/Response/Reads.antt =====
-- A raw response read back: the status, and the payload with its escapes undone.
use iomessage.Prelude.{
  ℕ, suc, ◌+◌, ◌-◌, ◌≡◌, ◌≢◌, refl, Option, none, some, [], ◌∷◌, ◌++◌, arith, length, take, drop,
  Bytes, append_assoc, take-append, Option-cases, inl, inr,
}
use iomessage.Text.{escaped_strchr, count_special}
use iomessage.Text.Copy.{IsText}
use iomessage.Text.Escape.{escape, unescape, unescape-escape, make_escaped_string_lem}
use iomessage.Text.Frame.{last_byte}
use iomessage.Memory.{Os, remove}
use iomessage.Memory.Runs.{Runs, Failed}
use iomessage.Request.Types.{ℤ, text_of}
use iomessage.Request.Params.Pairs.{differs, escape-IsText}
use iomessage.Request.Parse.Section.{braced}
use iomessage.Request.Parse.Braces.{Passes, escape-Passes, opens, closes, opens_first, closes_first}
use iomessage.Response.{Response, response_struct_size, decimal, raw_text, make_resp, make_raw_resp}
use iomessage.Response.Decimal.{IsInt, read_int, read_int-decimal, escape-decimal, last-decimal}

-- How a reader takes a section apart: the text between the first brace that opens and the first that
-- closes, of those not escaped, and the place behind.
abbrev pub section_between : Bytes → Option ℕ → Option ℕ → Option (Bytes × Bytes)
section_between text (some start) (some end) =
    some (take (end - suc start) (drop (suc start) text), drop (suc end) text)
section_between text _ _ = none

pub read_section : ℕ → Bytes → Option (Bytes × Bytes)
read_section front text =
    section_between text (escaped_strchr (record { before = front; text = text }) b'{')
      (escaped_strchr (record { before = front; text = text }) b'}')

abbrev pub read_second : Bytes → Option (Bytes × Bytes) → Option (ℤ × Bytes)
read_second status none = none
read_second status (some (payload, rest)) = some (read_int status, unescape payload)

abbrev pub read_first : Option (Bytes × Bytes) → Option (ℤ × Bytes)
read_first none = none
read_first (some (status, rest)) = read_second status (read_section b'}' rest)

-- The status and the payload of a raw response.
abbrev pub read_resp : ℕ → Bytes → Option (ℤ × Bytes)
read_resp front raw = read_first (read_section front raw)

drop_past : (xs : Bytes) (c : ℕ) (ys : Bytes) → drop (suc (length xs)) (xs ++ (c ∷ ys)) ≡ ys
drop_past [] c ys = refl
drop_past (x ∷ xs) c ys = drop_past xs c ys

first_section :
    (front : ℕ) (body rest : Bytes)
    → Passes body
    → read_section front (braced (b'[' ∷ []) body rest) ≡ some (body, rest)
unfolding read_section
first_section front body rest h =
    let n : suc (suc (length body)) - 2 ≡ length body = omega arith in
    rw (opens_first front body rest, closes_first front body rest h, n)
      (ground (arith, take-append body (b'}' ∷ rest), drop_past body b'}' rest))

second_section :
    (front : ℕ) (body rest : Bytes)
    → front ≢ b'\\'
    → Passes body
    → read_section front (braced [] body rest) ≡ some (body, rest)
unfolding read_section
second_section front body rest f h =
    let n : suc (length body) - 1 ≡ length body = omega arith in
    rw (opens front body rest f, closes front body rest h, n)
      (ground (arith, take-append body (b'}' ∷ rest), drop_past body b'}' rest))

pub read_resp-raw_text :
    (front : ℕ) (status : ℤ) (payload : Bytes)
    → IsInt status
    → last_byte b'{' payload ≢ b'\\'
    → read_resp front (raw_text status (escape payload)) ≡ some (status, payload)
read_resp-raw_text front status payload h end =
    let rest : Bytes = braced [] (escape payload) (b']' ∷ []) in
    let passes : Passes (decimal status) =
      rw (escape-decimal status h) at (escape-Passes (decimal status) (last-decimal status h)) in
    ground (
      arith,
      first_section front (decimal status) rest passes,
      second_section b'}' (escape payload) (b']' ∷ []) (differs b'}' b'\\' refl)
          (escape-Passes payload end),
      read_int-decimal status h,
      unescape-escape payload,
    )

text_of-append : (s t : Bytes) → IsText s → text_of (s ++ t) ≡ s ++ text_of t
text_of-append [] t h = refl
text_of-append (c ∷ s) t h = ground (arith, h.0, text_of-append s t h.1)

-- What `make_resp` must come to: NULL, with a failed allocation and nothing left allocated, or the
-- status and the escaped payload, with what lies in memory from the place of its terminator on.
abbrev pub IsResponse : Os → Bytes → ℤ → Bytes → Option Response → Os → Type 0
IsResponse os behind status payload none os' =
    Failed os.answers os.calls os'.calls × (os'.live ≡ os.live)
IsResponse os behind status payload (some resp) os' =
    (resp.status ≡ status)
    × (text_of resp.payload
        ≡ escape payload
          ++ text_of (os.garbage (resp.payload_block + length (escape payload)) ∷ behind))
    × (os'.live ≡ resp.payload_block ∷ resp.address ∷ os.live)

-- `make_resp` gives NULL only if one of its own allocations fails, and then what it allocated is freed. Else the
-- payload is escaped but not terminated: its text goes on with the byte that the block happened to hold
-- and, if that is no NUL, with what lies behind the block.
pub make_resp-IsResponse :
    (behind : Bytes) (status : ℤ) (payload : Bytes) (os : Os)
    → IsText payload
    → Runs (make_resp behind status payload os) (IsResponse os behind status payload)
unfolding make_resp
make_resp-IsResponse behind status payload os text =
    elim (Option-cases (os.answers os.calls response_struct_size)) [
      | inl e ↦ (
        none,
        record os { calls = os.calls + 1 },
        ground (arith, e),
        ((os.calls, response_struct_size, omega arith, omega arith, e), refl),
      )
      | inr (res, e) ↦
          let size : ℕ = length payload + count_special payload + 1 in
          elim (Option-cases (os.answers (os.calls + 1) size)) [
            | inl f ↦ (
              none,
              record os { calls = os.calls + 1 + 1; live = remove res (res ∷ os.live) },
              ground (arith, e, f, (make_escaped_string_lem payload).0),
              ((os.calls + 1, size, omega arith, omega arith, f), ground arith),
            )
            | inr (p, f) ↦
                let made = (make_escaped_string_lem payload).1 (λ i. os.garbage (p + i)) in
                let block : Bytes =
                  escape payload ++ (os.garbage (p + length (escape payload)) ∷ []) in
                let whole =
                  append_assoc (escape payload) (os.garbage (p + length (escape payload)) ∷ [])
                    behind in
                (
                  some (record {
                    address = res;
                    status = status;
                    payload_block = p;
                    payload = block ++ behind;
                  }),
                  record os { calls = os.calls + 1 + 1; live = p ∷ res ∷ os.live },
                  ground (arith, e, f, made),
                  (
                    refl,
                    rw whole (
                        text_of-append (escape payload)
                          (os.garbage (p + length (escape payload)) ∷ behind)
                          (escape-IsText payload text)),
                    refl,
                  ),
                )
          ]
    ]

-- What `make_raw_resp` must come to: NULL, with a failed allocation, or a text that a reader takes
-- apart into the status and the payload.
abbrev pub IsRaw : Os → ℤ → Bytes → Option (ℕ × Bytes) → Os → Type 0
IsRaw os status payload none os' = Failed os.answers os.calls os'.calls
IsRaw os status payload (some (a, raw)) os' =
    ((front : ℕ) → read_resp front raw ≡ some (status, payload)) × (os'.live ≡ a ∷ os.live)

-- Round trip: for a response whose payload is the escaped form of a text that does not end in a
-- backslash, properly terminated, `make_raw_resp` gives NULL only if its own allocation fails, and else a
-- text from which a reader gets the status and, with its escapes undone, the text.
pub make_raw_resp-IsRaw :
    (resp : Response) (payload : Bytes) (os : Os)
    → IsInt resp.status
    → text_of resp.payload ≡ escape payload
    → last_byte b'{' payload ≢ b'\\'
    → Runs (make_raw_resp resp os) (IsRaw os resp.status payload)
unfolding make_raw_resp
make_raw_resp-IsRaw resp payload os h text end =
    let raw : Bytes = raw_text resp.status (escape payload) in
    elim (Option-cases (os.answers os.calls (length raw + 1))) [
      | inl e ↦ (
        none,
        record os { calls = os.calls + 1 },
        ground (arith, text, e),
        (os.calls, length raw + 1, omega arith, omega arith, e),
      )
      | inr (a, e) ↦ (
        some (a, raw),
        record os { calls = os.calls + 1; live = a ∷ os.live },
        ground (arith, text, e),
        ((λ front. read_resp-raw_text front resp.status payload h end), refl),
      )
    ]
