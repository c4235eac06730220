-- ===== src/RecvBuf/Block.antt =====
-- The block of the request in `recv_req`: what it holds while blocks of bytes are added.
use iomessage.Prelude.{
  ap₂, ℕ, zero, suc, ◌+◌, ◌-◌, ◌*◌, ◌≤◌, ◌<◌, ◌^◌, ◌≡◌, ◌⊎◌, refl, sym, ap, ◌∙◌, none, some, [],
  ◌∷◌, ◌++◌, arith, leb, length, take, drop, Bytes, inl, inr, Bool-cases, Option-cases,
  append_assoc, length-append, length-drop, length-tabulate, take-append, drop-append, take_all,
}
use iomessage.Text.{copy_str}
use iomessage.Text.Copy.{IsText, copy_str_lem}
use iomessage.Memory.{Os, fresh_bytes, remove}
use iomessage.Memory.Runs.{Runs, Failed, Later}
use iomessage.Request.Types.{text_of}
use iomessage.Request.Types.Names.{text_of-text}
use iomessage.RecvBuf.{double_loop, Partial, make_room, append_bytes}
use iomessage.RecvBuf.Returns.{double_loop_lem}

-- The block holds the text at its front, and is as long as its capacity says.
pub record Filled (p : Partial) (text : Bytes) : Type 0 where
  pub junk : Bytes
  pub holds : p.block ≡ text ++ junk
  pub count : p.len ≡ length text
  pub whole : length p.block ≡ p.cap
  pub no_nul : IsText text

double_loop-le : (n need cap : ℕ) → cap ≤ double_loop n need cap
unfolding double_loop
double_loop-le zero need cap = omega arith
double_loop-le (suc n) need cap = elim (Bool-cases (leb cap need)) [
  | inl small ↦ rw small (omega (arith, double_loop-le n need (cap * 2)))
  | inr large ↦ rw large (omega arith)
]

-- Room is made, or `realloc` fails; what the block holds stays.
pub make_room-Filled :
    (p : Partial) (text : Bytes) (received : ℕ) (os : Os)
    → Filled p text
    → 0 < p.cap
    → Runs (make_room p received os) (λ r os'.
      Later os.answers os.calls os'
      × (((r ≡ none) × Failed os.answers os.calls os'.calls)
          ⊎ ((q : Partial) × (r ≡ some q) × Filled q text × (p.len + received < q.cap))))
make_room-Filled p text received os f pos = elim (Bool-cases (leb p.cap (p.len + received))) [
  | inr fits ↦ (
    some p,
    os,
    ground (arith, fits),
    ((refl, omega arith), inr (p, refl, f, ground (arith, fits))),
  )
  | inl full ↦
      let cap : ℕ = double_loop (p.len + received) (p.len + received) p.cap in
      elim (Option-cases (os.answers os.calls cap)) [
        | inl e ↦ (
          none,
          record os { calls = os.calls + 1 },
          ground (arith, full, e),
          ((refl, omega arith), inl (refl, (os.calls, cap, omega arith, omega arith, e))),
        )
        | inr (a, e) ↦
            let os' : Os = record os {
              calls = os.calls + 1;
              live = a ∷ remove p.req_start os.live;
            } in
            let new : Bytes = drop (length p.block) (fresh_bytes a cap os') in
            (
              some (record p { req_start = a; block = p.block ++ new; cap = cap }),
              os',
              ground (arith, full, e),
              (
                (refl, omega arith),
                inr (
                  _,
                  refl,
                  record {
                    junk = f.junk ++ new;
                    holds = ap (λ b. b ++ new) f.holds ∙ append_assoc text f.junk new;
                    count = f.count;
                    whole = omega (
                      arith,
                      length-append p.block new,
                      length-drop (length p.block) (fresh_bytes a cap os'),
                      length-tabulate cap (λ i. os'.garbage (a + i)),
                      f.whole,
                      double_loop-le (p.len + received) (p.len + received) p.cap,
                    );
                    no_nul = f.no_nul;
                  },
                  double_loop_lem (p.len + received) (p.len + received) p.cap pos
                      (omega (arith, pos)),
                ),
              ),
            )
      ]
]

pub IsText-append : (s t : Bytes) → IsText s → IsText t → IsText (s ++ t)
IsText-append [] t h k = k
IsText-append (c ∷ s) t h k = (h.0, IsText-append s t h.1 k)

pub text_of_text : (s : Bytes) → IsText s → text_of s ≡ s
text_of_text [] h = refl
text_of_text (c ∷ s) h = ground (arith, h.0, text_of_text s h.1)

-- Where there is room for the bytes and a terminator, they come behind the text.
pub append_bytes-Filled :
    (p : Partial) (text bytes : Bytes)
    → Filled p text
    → IsText bytes
    → p.len + length bytes < p.cap
    → length bytes < 2 ^ 60
    → Filled (append_bytes p bytes) (text ++ bytes)
      × (text_of (append_bytes p bytes).block ≡ text ++ bytes)
append_bytes-Filled p text bytes f t room small =
    let front : take p.len p.block ≡ text = rw (f.count, f.holds) (take-append text f.junk) in
    let back : drop p.len p.block ≡ f.junk = rw (f.count, f.holds) (drop-append text f.junk) in
    let l = length-append text f.junk in
    let long : length bytes + 1 ≤ length f.junk =
      omega (arith, room, f.whole, ap length f.holds, l, f.count) in
    let whole : take (length bytes + 1 - 1) bytes ≡ bytes =
      take_all (length bytes + 1 - 1) bytes (omega arith) in
    let rest : Bytes = drop (suc (length bytes)) f.junk in
    let copy : (copy_str (drop p.len p.block) (text_of bytes) (length bytes + 1)).0
        ≡ bytes ++ (0 ∷ rest) =
      rw (back, text_of_text bytes t)
        (rw whole at (
          copy_str_lem f.junk bytes (length bytes + 1) (omega arith) long
            (omega (arith, small)))) in
    let block : (append_bytes p bytes).block ≡ (text ++ bytes) ++ (0 ∷ rest) =
      ap₂ (λ a b. a ++ b) front copy ∙ sym (append_assoc text bytes (0 ∷ rest)) in
    (
      record {
        junk = 0 ∷ rest;
        holds = block;
        count = omega (arith, f.count, length-append text bytes);
        whole = omega (
          arith,
          ap length block,
          length-append (text ++ bytes) (0 ∷ rest),
          length-append text bytes,
          length-drop (suc (length bytes)) f.junk,
          long,
          ap length f.holds,
          l,
          f.whole,
        );
        no_nul = IsText-append text bytes f.no_nul t;
      },
      rw block (text_of-text (text ++ bytes) rest (IsText-append text bytes f.no_nul t)),
    )
