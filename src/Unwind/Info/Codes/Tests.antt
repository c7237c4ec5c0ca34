-- ===== src/Unwind/Info/Codes/Tests.antt =====
-- Three unwind codes: a push, an allocation of two slots and a far save.
use speakeasy.Base.{◌≡◌, List, [], ◌∷◌, All, arith}
use speakeasy.Unwind.Info.{UnwindCode, read_codes}
use speakeasy.Unwind.Info.Codes.{operand_slots, encode, IsCode, read_codes-encode}

abbrev codes : List UnwindCode
codes =
    record { prolog_offset = 9; op = 5; info = 6; operand = 0x12345 }
    ∷ record { prolog_offset = 5; op = 1; info = 0; operand = 0x400 }
    ∷ record { prolog_offset = 1; op = 0; info = 3; operand = 0 }
    ∷ []

are_codes : All IsCode codes
unfolding operand_slots
are_codes =
    ((omega arith, omega arith), ((omega arith, omega arith), ((omega arith, omega arith), tt)))

read_codes-encode_example : read_codes 4 (encode codes) ≡ codes
read_codes-encode_example = read_codes-encode 4 codes (omega arith) are_codes
