-- ===== src/Unwind/Info.antt =====
-- `UnwindInfo` of speakeasy/windows/unwind.py, and its decoder `read_unwind_info`.
pub mod Codes
use speakeasy.Base.{
  ℕ, zero, suc, ◌+◌, ◌-◌, ◌*◌, ◌/◌, ◌%◌, List, [], ◌∷◌, take, drop, ◌==◌, if◌then◌else◌,
}
use speakeasy.Base.Int.{pos}
use speakeasy.Unwind.{Result, ok, raise, struct_error, ◌>>=◌, Reader, read_bytes, from_bytes}

pub record UnwindCode : Type 0 where
  pub prolog_offset : ℕ
  pub op : ℕ
  pub info : ℕ
  pub operand : ℕ

pub record UnwindInfo : Type 0 where
  pub flags : ℕ
  pub prolog_size : ℕ
  pub frame_reg : ℕ
  pub frame_offset : ℕ
  pub codes : List UnwindCode
  pub trailer : ℕ

-- _slots: UWOP_ALLOC_LARGE is 1, UWOP_SAVE_NONVOL and its FAR form 4 and 5, XMM128 8 and 9
unfoldable pub slots : ℕ → ℕ → ℕ
slots op info =
    if op == 1
    then (if info == 0 then 2 else 3)
    else if op == 4
    then 2
    else if op == 5
    then 3
    else if op == 8
    then 2
    else if op == 9
    then 3
    else 1

-- The loop of `read_unwind_info` over the bytes that are left. A code whose slots go past the end
-- takes what is there. One unit of fuel is one code.
unfoldable pub read_codes : ℕ → List ℕ → List UnwindCode
read_codes zero raw = []
read_codes (suc fuel) [] = []
read_codes (suc fuel) (b ∷ []) = []
read_codes (suc fuel) (offset ∷ b ∷ raw) =
    let op = b % 16 in
    let info = b / 16 in
    let extra = 2 * (slots op info - 1) in
    record { prolog_offset = offset; op = op; info = info; operand = from_bytes (take extra raw) }
    ∷ read_codes fuel (drop extra raw)

-- the four header bytes
unfoldable pub info_of : ℕ → List ℕ → List ℕ → Result UnwindInfo
info_of address (version_flags ∷ prolog_size ∷ count ∷ frame ∷ []) raw = ok (record {
  flags = version_flags / 8;
  prolog_size = prolog_size;
  frame_reg = frame % 16;
  frame_offset = frame / 16;
  codes = read_codes (suc count) raw;
  trailer = address + 4 + 2 * (count + count % 2);
})
info_of address bytes raw = raise struct_error

unfoldable pub count_of : List ℕ → ℕ
count_of (version_flags ∷ prolog_size ∷ count ∷ frame) = count
count_of bytes = 0

unfoldable pub read_unwind_info : Reader → ℕ → Result UnwindInfo
read_unwind_info read address = do
  header ← read_bytes read (pos address) 4
  raw ← read_bytes read (pos (address + 4)) (2 * count_of header)
  info_of address header raw
