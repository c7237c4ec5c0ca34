-- ===== src/Memory/Tag/Laws.antt =====
-- What `MemMap.__init__` promises of a tag: it holds the address, and no forbidden character.
use speakeasy.Base.{
  ℕ, zero, suc, ◌/◌, ◌%◌, ◌<◌, true, false, ◌≡◌, refl, some, List, [], ◌∷◌, ◌++◌, map, ltb, arith,
  All, All-append, Bool-cases, inl, inr,
}
use speakeasy.Memory.Tag.{
  hex_digit, hex_fuel, hex, base_addr_tag, is_prefix, is_substring, is_bad, replace_bad,
  with_address, map_tag,
}

abbrev pub IsFine : ℕ → Type 0
IsFine c = is_bad c ≡ false

All-replace_bad : (text : List ℕ) → All IsFine (map replace_bad text)
unfolding replace_bad
All-replace_bad [] = tt
All-replace_bad (c ∷ cs) = (ground arith, All-replace_bad cs)

hex_digit-IsFine : (d : ℕ) → d < 16 → IsFine (hex_digit d)
unfolding hex_digit is_bad
hex_digit-IsFine d h = ground arith

hex_fuel-IsFine : (fuel n : ℕ) → All IsFine (hex_fuel fuel n)
unfolding hex_fuel
hex_fuel-IsFine zero n = tt
hex_fuel-IsFine (suc fuel) n = elim (Bool-cases (ltb n 16)) [
  | inl small ↦ rw small (hex_digit-IsFine (n % 16) (omega arith), tt)
  | inr large ↦ rw large (
      All-append IsFine (hex_fuel fuel (n / 16)) _ (hex_fuel-IsFine fuel (n / 16))
        (hex_digit-IsFine (n % 16) (omega arith), tt))
]

base_addr_tag-IsFine : (base : ℕ) → All IsFine (base_addr_tag base)
unfolding base_addr_tag is_bad hex
base_addr_tag-IsFine base = (refl, (refl, (refl, hex_fuel-IsFine (suc base) base)))

-- what is fine is kept by the replacement
is_prefix-replace :
    (part text : List ℕ)
    → All IsFine part
    → is_prefix part text ≡ true
    → is_prefix part (map replace_bad text) ≡ true
unfolding is_prefix replace_bad
is_prefix-replace [] text f h = refl
is_prefix-replace (c ∷ cs) [] f h = h
is_prefix-replace (c ∷ cs) (d ∷ ds) f h = ground (arith, is_prefix-replace cs ds f.1)

is_substring-replace :
    (part text : List ℕ)
    → All IsFine part
    → is_substring part text ≡ true
    → is_substring part (map replace_bad text) ≡ true
unfolding is_substring
is_substring-replace part [] f h = h
is_substring-replace part (c ∷ cs) f h =
    ground (arith, is_prefix-replace part (c ∷ cs) f, is_substring-replace part cs f)

is_prefix_self : (text : List ℕ) → is_prefix text text ≡ true
unfolding is_prefix
is_prefix_self [] = refl
is_prefix_self (c ∷ cs) = ground (arith, is_prefix_self cs)

is_substring_self : (text : List ℕ) → is_substring text text ≡ true
unfolding is_substring
is_substring_self [] = is_prefix_self []
is_substring_self (c ∷ cs) = ground (arith, is_prefix_self (c ∷ cs))

is_substring_skip :
    (part text : List ℕ) (c : ℕ)
    → is_substring part text ≡ true
    → is_substring part (c ∷ text) ≡ true
unfolding is_substring
is_substring_skip part text c h = ground arith

is_substring-append : (part text : List ℕ) → is_substring part (text ++ part) ≡ true
is_substring-append part [] = is_substring_self part
is_substring-append part (c ∷ cs) =
    is_substring_skip part (cs ++ part) c (is_substring-append part cs)

is_substring-with_address :
    (base : ℕ) (tag : List ℕ) → is_substring (base_addr_tag base) (with_address base tag) ≡ true
unfolding with_address
is_substring-with_address base tag = elim (Bool-cases (is_substring (base_addr_tag base) tag)) [
  | inl old ↦ rw old old
  | inr new ↦ rw new (is_substring-append (base_addr_tag base) tag)
]

-- The tag of an allocation with a nonempty tag holds the address of the allocation in
-- hexadecimal, and none of the characters that the constructor replaces.
pub map_tag_lem :
    (base c : ℕ) (cs : List ℕ)
    → (tag : List ℕ) × (map_tag base (some (c ∷ cs)) ≡ some tag)
      × (is_substring (base_addr_tag base) tag ≡ true)
      × All IsFine tag
unfolding map_tag
map_tag_lem base c cs =
    let full = with_address base (c ∷ cs) in
    (
      map replace_bad full,
      refl,
      is_substring-replace (base_addr_tag base) full (base_addr_tag-IsFine base)
          (is_substring-with_address base (c ∷ cs)),
      All-replace_bad full,
    )
