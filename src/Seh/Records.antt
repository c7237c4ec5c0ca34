-- ===== src/Seh/Records.antt =====
-- EXCEPTION_RECORD, as speakeasy/windows/seh.py builds, reads and writes it.
use speakeasy.Base.{
  ℕ, zero, suc, ◌+◌, ◌-◌, ◌*◌, ◌%◌, ◌^◌, List, [], ◌∷◌, ◌++◌, length, take, drop, replicate, map,
}
use speakeasy.Base.Int.{pos}
use speakeasy.Unwind.{from_bytes}
use speakeasy.Unwind.Frame.Prolog.{to_bytes}
use speakeasy.Seh.{Guest, M, ◌>>=◌, return, mem_read}

pub record ExceptionRecord : Type 0 where
  pub code : ℕ
  pub flags : ℕ
  pub nested : ℕ
  pub address : ℕ
  pub parameters : ℕ
  -- ExceptionInformation: 15 pointers
  pub information : List ℕ

-- EXCEPTION_MAXIMUM_PARAMETERS
abbrev pub maximum_parameters : ℕ
maximum_parameters = 15

-- `param & mask`, a pointer
unfoldable pub masked : ℕ → List ℕ → List ℕ
masked ptr_size params = map (λ p. p % 2 ^ (8 * ptr_size)) params

unfoldable pub exception_record : ℕ → ℕ → ℕ → ℕ → List ℕ → ExceptionRecord
exception_record ptr_size code flags address params =
    let kept = take maximum_parameters (masked ptr_size params) in
    record {
      code = code;
      flags = flags;
      nested = 0;
      address = address;
      parameters = length kept;
      information = kept ++ replicate (maximum_parameters - length kept) 0;
    }

-- the pointers of the record, in order
unfoldable pub pack : ℕ → List ℕ → List ℕ
pack ptr_size [] = []
pack ptr_size (p ∷ ps) = to_bytes ptr_size p ++ pack ptr_size ps

-- get_bytes: the pointers after NumberParameters stand at a multiple of their size
unfoldable pub record_bytes : ℕ → ExceptionRecord → List ℕ
record_bytes ptr_size r =
    to_bytes 4 r.code
    ++ (to_bytes 4 r.flags
        ++ (to_bytes ptr_size r.nested
            ++ (to_bytes ptr_size r.address
                ++ (to_bytes 4 r.parameters
                    ++ (replicate (ptr_size - 4) 0 ++ pack ptr_size r.information)))))

unfoldable pub unpack_pointers : ℕ → ℕ → List ℕ → List ℕ
unpack_pointers ptr_size zero bytes = []
unpack_pointers ptr_size (suc n) bytes =
    from_bytes (take ptr_size bytes) ∷ unpack_pointers ptr_size n (drop ptr_size bytes)

unfoldable pub record_of : ℕ → List ℕ → ExceptionRecord
record_of ptr_size bytes =
    let rest = drop (8 + 2 * ptr_size) bytes in
    record {
      code = from_bytes (take 4 bytes);
      flags = from_bytes (take 4 (drop 4 bytes));
      nested = from_bytes (take ptr_size (drop 8 bytes));
      address = from_bytes (take ptr_size (drop (8 + ptr_size) bytes));
      parameters = from_bytes (take 4 rest);
      information = unpack_pointers ptr_size maximum_parameters (drop ptr_size rest);
    }

-- the size of the record: 80 bytes, or 152 with pointers of 8 bytes
abbrev pub record_size : ℕ → ℕ
record_size ptr_size = 8 + (3 + maximum_parameters) * ptr_size

module _ {Context : Type 0} (g : Guest Context) where
  unfoldable pub read_record : ℕ → M g.State ExceptionRecord
  read_record address = do
    bytes ← mem_read g (pos address) (record_size g.ptr_size)
    return (record_of g.ptr_size bytes)
