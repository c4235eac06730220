-- ===== src/Request/Types/Names.antt =====
-- The names of the request types: which number a text is read as, and the round trip.
use iomessage.Prelude.{
  ℕ, zero, suc, ◌-◌, ◌≤◌, ◌<◌, ◌^◌, ◌≡◌, ◌≢◌, refl, true, false, some, [], ◌∷◌, ◌++◌, arith,
  if◌then◌else◌, ltb, length, get_elem?, take, take_all, All, Bytes, Bool-cases, inl, inr,
}
use iomessage.Text.{copy_str}
use iomessage.Text.Copy.{IsText, copy_str_lem}
use iomessage.Request.Types.{
  heartbeat_name, exit_name, login_name, signin_name, msg_name, ℤ, pos, negsuc, unknown,
  RequestType, types, same_text, text_of, search_type, string_type_to_int, type_text,
  int_type_to_str,
}

pub same_text_refl : (s : Bytes) → same_text s s ≡ true
same_text_refl [] = refl
same_text_refl (c ∷ cs) = ground (arith, same_text_refl cs)

pub same_text→eq : (s t : Bytes) → same_text s t ≡ true → s ≡ t
same_text→eq [] [] h = refl
same_text→eq [] (d ∷ ds) h = cc
same_text→eq (c ∷ cs) [] h = cc
same_text→eq (c ∷ cs) (d ∷ ds) h = ground (arith, h, same_text→eq cs ds)

differs : (s t : Bytes) → same_text s t ≡ false → s ≢ t
differs s t h e = let yes : same_text s t ≡ true = rw e (same_text_refl t) in cc

-- What is behind a NUL is not read.
pub text_of-text : (s rest : Bytes) → IsText s → text_of (s ++ (0 ∷ rest)) ≡ s
text_of-text [] rest h = refl
text_of-text (c ∷ cs) rest h = ground (arith, h.0, text_of-text cs rest h.1)

-- What a text must be read as: the place of its name in the table, or -1 if it is no name there.
abbrev pub IsRead : Bytes → ℤ → Type 0
IsRead type (pos n) =
    (t : RequestType) × (get_elem? types n ≡ some t) × (t.str_type ≡ type) × (t.type ≡ pos n)
IsRead type (negsuc n) = (n ≡ 0) × All (λ t. t.str_type ≢ type) types

-- `string_type_to_int` answers the number of the table's type whose name is the whole text, or
-- `UNKNOWN`, which is -1, if the text is the name of no type.
pub string_type_to_int-IsRead : (type : Bytes) → IsRead type (string_type_to_int type)
unfolding string_type_to_int search_type
string_type_to_int-IsRead type = elim (Bool-cases (same_text heartbeat_name type)) [
  | inl h ↦ rw h (_, refl, same_text→eq heartbeat_name type h, refl)
  | inr h ↦ rw h (elim (Bool-cases (same_text exit_name type)) [
    | inl i ↦ rw i (_, refl, same_text→eq exit_name type i, refl)
    | inr i ↦ rw i (elim (Bool-cases (same_text login_name type)) [
      | inl j ↦ rw j (_, refl, same_text→eq login_name type j, refl)
      | inr j ↦ rw j (elim (Bool-cases (same_text signin_name type)) [
        | inl k ↦ rw k (_, refl, same_text→eq signin_name type k, refl)
        | inr k ↦ rw k (elim (Bool-cases (same_text msg_name type)) [
          | inl l ↦ rw l (_, refl, same_text→eq msg_name type l, refl)
          | inr l ↦ rw l (
            refl,
            (
              differs heartbeat_name type h,
              (
                differs exit_name type i,
                (
                  differs login_name type j,
                  (differs signin_name type k, (differs msg_name type l, tt)),
                ),
              ),
            ),
          )
        ])
      ])
    ])
  ])
]

abbrev pub known : ℤ → ℤ
known (pos n) = if ltb n 5 then pos n else unknown
known (negsuc n) = unknown

copied_whole :
    (t buf : Bytes) (sz : ℕ)
    → IsText t
    → length t < 10
    → 10 ≤ sz
    → sz ≤ length buf
    → sz < 2 ^ 64
    → text_of (copy_str buf t sz).0 ≡ t
copied_whole t buf sz h short enough room small =
    let e : take (sz - 1) t ≡ t = take_all (sz - 1) t (omega (arith, short, enough)) in
    rw (copy_str_lem buf t sz (omega (arith, enough)) room small, e) (text_of-text t _ h)

type_text-IsText : (type : ℤ) → IsText (type_text type) × (length (type_text type) < 10)
unfolding type_text
type_text-IsText (negsuc n) = ground arith
type_text-IsText (pos zero) = ground arith
type_text-IsText (pos (suc zero)) = ground arith
type_text-IsText (pos (suc (suc zero))) = ground arith
type_text-IsText (pos (suc (suc (suc zero)))) = ground arith
type_text-IsText (pos (suc (suc (suc (suc zero))))) = ground arith
type_text-IsText (pos (suc (suc (suc (suc (suc n)))))) = ground arith

type_text-known : (type : ℤ) → string_type_to_int (type_text type) ≡ known type
unfolding type_text string_type_to_int search_type
type_text-known (negsuc n) = refl
type_text-known (pos zero) = refl
type_text-known (pos (suc zero)) = refl
type_text-known (pos (suc (suc zero))) = refl
type_text-known (pos (suc (suc (suc zero)))) = refl
type_text-known (pos (suc (suc (suc (suc zero))))) = refl
type_text-known (pos (suc (suc (suc (suc (suc n)))))) = ground arith

-- Round trip: with at least ten bytes in the buffer and not more than it has, the text that
-- `int_type_to_str` leaves there is read back as the same number by `string_type_to_int`, or as
-- `UNKNOWN` if the number is not that of a type.
pub string_type_to_int-int_type_to_str :
    (type : ℤ) (buf : Bytes) (sz : ℕ)
    → 10 ≤ sz
    → sz ≤ length buf
    → sz < 2 ^ 64
    → string_type_to_int (text_of (int_type_to_str type buf sz)) ≡ known type
unfolding int_type_to_str
string_type_to_int-int_type_to_str type buf sz enough room small =
    let (h, short) = type_text-IsText type in
    rw (copied_whole (type_text type) buf sz h short enough room small) (type_text-known type)
