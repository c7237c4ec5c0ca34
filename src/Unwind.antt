-- ===== src/Unwind.antt =====
-- speakeasy/windows/unwind.py: x64 table-based unwinding. The data, and the reads of guest memory.
pub mod Table
pub mod Info
pub mod Frame
use speakeasy.Base.{
  ℕ, zero, suc, ◌+◌, ◌*◌, ◌/◌, ◌%◌, Option, none, some, List, [], ◌∷◌, length, take, drop, ◌==◌,
  if◌then◌else◌,
}
use speakeasy.Base.Int.{ℤ, pos}

-- UcError of a read, a read of another size than the format, and UnwindError
pub data Error : Type 0 where
  uc_error struct_error unwind_error : Error

pub data Result (A : Type 0) : Type 0 where
  ok : A → Result A
  raise : Error → Result A

infixl 5 ◌>>=◌
abbrev pub ◌>>=◌ : {A B : Type 0} → Result A → (A → Result B) → Result B
ok a >>= f = f a
raise e >>= f = raise e

-- `read(address, size)`: the bytes, or `none` for UcError. An address can be negative.
abbrev pub Reader : Type 0
Reader = ℤ → ℕ → Option (List ℕ)

unfoldable pub read_bytes : Reader → ℤ → ℕ → Result (List ℕ)
read_bytes read address size = elim (read address size) [
  | none ↦ raise uc_error
  | some bytes ↦ ok bytes
]

-- int.from_bytes(bytes, "little")
unfoldable pub from_bytes : List ℕ → ℕ
from_bytes [] = 0
from_bytes (b ∷ bytes) = b + 256 * from_bytes bytes

-- struct.unpack of one little-endian number of `size` bytes
unfoldable pub unpack : ℕ → List ℕ → Result ℕ
unpack size bytes = if length bytes == size then ok (from_bytes bytes) else raise struct_error

-- _u16, _u32, _u64
unfoldable pub u16 : Reader → ℤ → Result ℕ
u16 read addr = do bytes ← read_bytes read addr 2; unpack 2 bytes

unfoldable pub u32 : Reader → ℤ → Result ℕ
u32 read addr = do bytes ← read_bytes read addr 4; unpack 4 bytes

unfoldable pub u64 : Reader → ℤ → Result ℕ
u64 read addr = do bytes ← read_bytes read addr 8; unpack 8 bytes

-- begin, end and unwind info of a RUNTIME_FUNCTION
abbrev pub Entry : Type 0
Entry = ℕ × ℕ × ℕ

-- the next "<III"
unfoldable pub entry_of : List ℕ → Entry
entry_of bytes = (
  from_bytes (take 4 bytes),
  from_bytes (take 4 (drop 4 bytes)),
  from_bytes (take 4 (drop 8 bytes)),
)

unfoldable pub entries_of : ℕ → List ℕ → List Entry
entries_of zero bytes = []
entries_of (suc n) bytes = entry_of bytes ∷ entries_of n (drop 12 bytes)

-- struct.iter_unpack("<III", bytes), which wants whole entries
unfoldable pub iter_unpack : List ℕ → Result (List Entry)
iter_unpack bytes =
    if length bytes % 12 == 0 then ok (entries_of (length bytes / 12) bytes) else raise struct_error

pub record RuntimeFunction : Type 0 where
  pub image_base : ℕ
  pub address : ℕ
  pub begin : ℕ
  pub end : ℕ
  pub unwind_info : ℕ

unfoldable pub read_runtime_function : Reader → ℕ → ℕ → Result RuntimeFunction
read_runtime_function read image_base address = do
  bytes ← read_bytes read (pos address) 12
  let e = entry_of bytes
  (if length bytes == 12
      then ok (record {
        image_base = image_base;
        address = address;
        begin = e.0;
        end = e.1;
        unwind_info = e.2;
      })
      else raise struct_error)
