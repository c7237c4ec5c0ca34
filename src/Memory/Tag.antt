-- ===== src/Memory/Tag.antt =====
-- The tag of an allocation: the part of `MemMap.__init__` of speakeasy/memmgr.py that adds the
-- address to the tag and replaces the characters that a report cannot hold. A text is the list
-- of its code points.
pub mod Laws
use speakeasy.Base.{
  ℕ, zero, suc, ◌+◌, ◌-◌, ◌/◌, ◌%◌, Bool, true, false, ◌&&◌, ◌||◌, Option, none, some, List, [],
  ◌∷◌, ◌++◌, map, ltb, ◌==◌, if◌then◌else◌,
}

-- a hexadecimal digit of `f"{n:x}"`
unfoldable pub hex_digit : ℕ → ℕ
hex_digit d = if ltb d 10 then b'0' + d else b'a' + (d - 10)

-- The digits of `n`, most significant first, with one unit of fuel for each division.
unfoldable pub hex_fuel : ℕ → ℕ → List ℕ
unfolding hex_digit
hex_fuel zero n = []
hex_fuel (suc fuel) n =
    let high = hex_fuel fuel (n / 16) in
    let low = hex_digit (n % 16) ∷ [] in if ltb n 16 then low else high ++ low

-- f"{base:x}"
unfoldable pub hex : ℕ → List ℕ
unfolding hex_fuel
hex n = hex_fuel (suc n) n

-- base_addr_tag
unfoldable pub base_addr_tag : ℕ → List ℕ
unfolding hex
base_addr_tag base = b'.' ∷ b'0' ∷ b'x' ∷ hex base

unfoldable pub is_prefix : List ℕ → List ℕ → Bool
is_prefix [] text = true
is_prefix (c ∷ cs) [] = false
is_prefix (c ∷ cs) (d ∷ ds) = c == d && is_prefix cs ds

-- `part in text`
unfoldable pub is_substring : List ℕ → List ℕ → Bool
unfolding is_prefix
is_substring part [] = is_prefix part []
is_substring part (c ∷ cs) = is_prefix part (c ∷ cs) || is_substring part cs

-- `e in bad_chars`, for the characters \ ? [ ] : ]
unfoldable pub is_bad : ℕ → Bool
is_bad c = c == 0x5c || (c == b'?' || (c == b'[' || (c == b']' || c == b':')))

unfoldable pub replace_bad : ℕ → ℕ
unfolding is_bad
replace_bad c = if is_bad c then b'_' else c

-- the tag with the address, which is added if the tag does not hold it
unfoldable pub with_address : ℕ → List ℕ → List ℕ
with_address base tag =
    let addr = base_addr_tag base in if is_substring addr tag then tag else tag ++ addr

unfoldable pub map_tag : ℕ → Option (List ℕ) → Option (List ℕ)
map_tag base none = none
map_tag base (some []) = some []
map_tag base (some (c ∷ cs)) = some (map replace_bad (with_address base (c ∷ cs)))
