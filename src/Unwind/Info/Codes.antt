-- ===== src/Unwind/Info/Codes.antt =====
-- The unwind codes of `read_unwind_info` (speakeasy/windows/unwind.py): an encoder of the codes, as
-- the description of the format, and that the decoder reads back what it wrote.
mod Tests
use speakeasy.Base.{
  ℕ, zero, suc, ◌+◌, ◌-◌, ◌*◌, ◌/◌, ◌%◌, ◌^◌, ◌≤◌, ◌<◌, ◌≡◌, refl, sym, ap, ◌∙◌, List, [], ◌∷◌,
  ◌++◌, length, take, drop, All, arith, ◌==◌, ◌||◌, ◌&&◌, not, if◌then◌else◌,
}
use speakeasy.Unwind.{from_bytes}
use speakeasy.Unwind.Frame.Prolog.{to_bytes, from_bytes-to_bytes, length-to_bytes}
use speakeasy.Unwind.Info.{UnwindCode, slots, read_codes}

-- The slots of the operand of a code in the format: two for the 32-bit operands of a large
-- allocation whose info is not 0 and of the FAR forms of the saves (5 and 9), one for the 16-bit
-- operands of the other large allocation and of the saves (4 and 8), none for the other codes.
unfoldable pub operand_slots : ℕ → ℕ → ℕ
operand_slots op info =
    if op == 5 || op == 9 || (op == 1 && not (info == 0))
    then 2
    else if op == 1 || op == 4 || op == 8
    then 1
    else 0

-- The decoder counts the slot of the code itself with those of its operand.
slots_lem : (op info : ℕ) → slots op info ≡ suc (operand_slots op info)
unfolding slots operand_slots
slots_lem op info = ground arith

-- the bytes of the operand
abbrev pub extra : UnwindCode → ℕ
extra c = 2 * operand_slots c.op c.info

unfoldable pub encode : List UnwindCode → List ℕ
encode [] = []
encode (c ∷ codes) =
    c.prolog_offset ∷ (c.op + 16 * c.info) ∷ to_bytes (extra c) c.operand ++ encode codes

-- the operation is of 4 bits, and the operand fits its slots
abbrev pub IsCode : UnwindCode → Type 0
IsCode c = (c.op < 16) × (c.operand < 256 ^ extra c)

module _ {ℓ} {A : Type ℓ} where
  take-append : (xs ys : List A) → take (length xs) (xs ++ ys) ≡ xs
  take-append [] ys = refl
  take-append (x ∷ xs) ys = ap (λ l. x ∷ l) (take-append xs ys)

  drop-append : (xs ys : List A) → drop (length xs) (xs ++ ys) ≡ ys
  drop-append [] ys = refl
  drop-append (x ∷ xs) ys = drop-append xs ys

-- The decoder reads back the codes of an encoded list, with more fuel than the list has codes, if
-- the operations are of 4 bits and the operands fit the slots that the format has for them.
pub read_codes-encode :
    (fuel : ℕ) (codes : List UnwindCode)
    → length codes < fuel
    → All IsCode codes
    → read_codes fuel (encode codes) ≡ codes
unfolding read_codes encode
read_codes-encode zero codes enough h = absurd (omega arith)
read_codes-encode (suc fuel) [] enough h = refl
read_codes-encode (suc fuel) (c ∷ codes) enough h =
    let op : (c.op + 16 * c.info) % 16 ≡ c.op = omega (arith, h.0.0) in
    let info : (c.op + 16 * c.info) / 16 ≡ c.info = omega (arith, h.0.0) in
    let bytes : 2 * (slots c.op c.info - 1) ≡ extra c = omega (arith, slots_lem c.op c.info) in
    let width = length-to_bytes (extra c) c.operand in
    let operand_bytes : take (extra c) (to_bytes (extra c) c.operand ++ encode codes)
        ≡ to_bytes (extra c) c.operand =
      ap (λ n. take n (to_bytes (extra c) c.operand ++ encode codes)) (sym width)
      ∙ take-append (to_bytes (extra c) c.operand) (encode codes) in
    let rest : drop (extra c) (to_bytes (extra c) c.operand ++ encode codes) ≡ encode codes =
      ap (λ n. drop n (to_bytes (extra c) c.operand ++ encode codes)) (sym width)
      ∙ drop-append (to_bytes (extra c) c.operand) (encode codes) in
    rw (op, info)
      (rw bytes (
        rw (operand_bytes, rest)
          (rw (from_bytes-to_bytes (extra c) c.operand h.0.1)
            (ap (λ l. c ∷ l) (read_codes-encode fuel codes (omega arith) h.1)))))
