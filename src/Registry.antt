-- ===== src/Registry.antt =====
-- speakeasy/windows/regman.py: the paths and the values of the registry. A text is the list of its
-- code points.
pub mod Manager
pub mod Values
pub mod Subkeys
pub mod Keys
pub mod Defaults
mod Tests
use speakeasy.Base.{
  ℕ, zero, suc, ◌+◌, ◌-◌, ◌*◌, ◌/◌, ◌%◌, ◌^◌, Bool, true, false, ◌&&◌, ◌||◌, not, Option, none,
  some, List, [], ◌∷◌, ◌++◌, leb, ltb, ◌==◌, if◌then◌else◌, length, drop,
}
use speakeasy.Base.Int.{ℤ, pos, negsuc, in_field}
use speakeasy.Memory.Tag.{is_prefix}
use speakeasy.Unwind.Frame.Prolog.{to_bytes}

abbrev pub Text : Type 0
Text = List ℕ

-- What the registry uses of Python's library and of the generated enums: str.lower,
-- fnmatch.fnmatch(name, pattern), int(text, 0), base64, the encodings of text and the numbers of the
-- names of value types and the decimal digits of a number.
pub record Host : Type 0 where
  pub lower : Text → Text
  pub fnmatch : Text → Text → Bool
  pub int_of : Text → Option ℤ
  pub utf8 : Text → List ℕ
  pub b64encode : List ℕ → List ℕ
  pub b64decode : List ℕ → List ℕ
  pub encode : ℕ → Text → List ℕ
  pub type_of : Text → Option ℕ
  pub str_of : ℕ → Text

unfoldable pub same_text : Text → Text → Bool
same_text [] [] = true
same_text [] (d ∷ ds) = false
same_text (c ∷ cs) [] = false
same_text (c ∷ cs) (d ∷ ds) = c == d && same_text cs ds

unfoldable pub is_in : Text → List Text → Bool
is_in t [] = false
is_in t (u ∷ texts) = same_text t u || is_in t texts

-- texts.discard(t)
unfoldable pub discard : Text → List Text → List Text
discard t [] = []
discard t (u ∷ texts) = let rest = discard t texts in if same_text t u then rest else u ∷ rest

abbrev pub backslash : ℕ
backslash = 0x5C

unfoldable pub is_empty : Text → Bool
is_empty [] = true
is_empty (c ∷ cs) = false

-- text.rstrip("\\")
unfoldable pub rstrip : Text → Text
rstrip [] = []
rstrip (c ∷ cs) = let rest = rstrip cs in if is_empty rest && c == backslash then [] else c ∷ rest

-- the part of a text before its first backslash
unfoldable pub first_part : Text → Text
first_part [] = []
first_part (c ∷ cs) = let rest = first_part cs in if c == backslash then [] else c ∷ rest

-- the texts of `normalize_reg_path`
abbrev pub registry_machine : Text
registry_machine =
    0x5C ∷ b'r' ∷ b'e' ∷ b'g' ∷ b'i' ∷ b's' ∷ b't' ∷ b'r' ∷ b'y' ∷ 0x5C ∷ b'm' ∷ b'a' ∷ b'c' ∷ b'h'
    ∷ b'i' ∷ b'n' ∷ b'e' ∷ 0x5C ∷ []

abbrev pub hklm : Text
hklm = b'h' ∷ b'k' ∷ b'l' ∷ b'm' ∷ 0x5C ∷ []

abbrev pub local_machine : Text
local_machine =
    b'H' ∷ b'K' ∷ b'E' ∷ b'Y' ∷ b'_' ∷ b'L' ∷ b'O' ∷ b'C' ∷ b'A' ∷ b'L' ∷ b'_' ∷ b'M' ∷ b'A' ∷ b'C'
    ∷ b'H' ∷ b'I' ∷ b'N' ∷ b'E' ∷ 0x5C ∷ []

abbrev pub control_set : Text
control_set =
    b'h' ∷ b'k' ∷ b'e' ∷ b'y' ∷ b'_' ∷ b'l' ∷ b'o' ∷ b'c' ∷ b'a' ∷ b'l' ∷ b'_' ∷ b'm' ∷ b'a' ∷ b'c'
    ∷ b'h' ∷ b'i' ∷ b'n' ∷ b'e' ∷ 0x5C ∷ b's' ∷ b'y' ∷ b's' ∷ b't' ∷ b'e' ∷ b'm' ∷ 0x5C ∷ b'c'
    ∷ b'o' ∷ b'n' ∷ b't' ∷ b'r' ∷ b'o' ∷ b'l' ∷ b's' ∷ b'e' ∷ b't' ∷ b'0' ∷ b'0' ∷ b'1' ∷ 0x5C ∷ []

abbrev pub current_control_set : Text
current_control_set =
    b'H' ∷ b'K' ∷ b'E' ∷ b'Y' ∷ b'_' ∷ b'L' ∷ b'O' ∷ b'C' ∷ b'A' ∷ b'L' ∷ b'_' ∷ b'M' ∷ b'A' ∷ b'C'
    ∷ b'H' ∷ b'I' ∷ b'N' ∷ b'E' ∷ 0x5C ∷ b'S' ∷ b'Y' ∷ b'S' ∷ b'T' ∷ b'E' ∷ b'M' ∷ 0x5C ∷ b'C'
    ∷ b'u' ∷ b'r' ∷ b'r' ∷ b'e' ∷ b'n' ∷ b't' ∷ b'C' ∷ b'o' ∷ b'n' ∷ b't' ∷ b'r' ∷ b'o' ∷ b'l'
    ∷ b'S' ∷ b'e' ∷ b't' ∷ 0x5C ∷ []

-- the numbers of value types
abbrev pub reg_sz : ℕ
reg_sz = 1

abbrev pub reg_expand_sz : ℕ
reg_expand_sz = 2

abbrev pub reg_binary : ℕ
reg_binary = 3

abbrev pub reg_dword : ℕ
reg_dword = 4

abbrev pub reg_multi_sz : ℕ
reg_multi_sz = 7

abbrev pub reg_qword : ℕ
reg_qword = 11

-- a value's data: str, int, bytes or None
pub data Data : Type 0 where
  text : Text → Data
  number : ℤ → Data
  binary : List ℕ → Data
  nothing : Data

-- RegValue; a type that is no value type is None
pub record RegValue : Type 0 where
  pub name : Text
  pub value_type : Option ℕ
  pub contents : Data

-- RegKey
pub record RegKey : Type 0 where
  pub path : Text
  pub values : List RegValue

unfoldable pub is_string_type : Option ℕ → Bool
is_string_type none = false
is_string_type (some t) = t == reg_sz || (t == reg_expand_sz || t == reg_multi_sz)

unfoldable pub is_number_type : Option ℕ → Bool
is_number_type none = false
is_number_type (some t) = t == reg_dword || t == reg_qword

unfoldable pub is_type : ℕ → Option ℕ → Bool
is_type u none = false
is_type u (some t) = t == u

-- the string branch of `normalize_value`; RegistryEmuError is `none`
unfoldable pub normalize_string : Data → Option Data
normalize_string (text t) = some (text t)
normalize_string (number z) = none
normalize_string (binary bytes) = none
normalize_string nothing = none

unfoldable pub number_of : Option ℤ → Option Data
number_of none = none
number_of (some z) = some (number z)

-- the terminator of a string value
unfoldable pub terminated : Option ℕ → Text → Text
terminated value_type t = t ++ (if is_type reg_multi_sz value_type then 0 ∷ 0 ∷ [] else 0 ∷ [])

-- the last branch of `get_bytes`
unfoldable pub raw_bytes : Data → List ℕ
raw_bytes (text t) = []
raw_bytes (number z) = []
raw_bytes (binary bytes) = bytes
raw_bytes nothing = []

module _ (h : Host) where
  -- the number branch: other data falls out of the method, which gives None
  unfoldable pub normalize_number : Data → Option Data
  normalize_number (text t) = number_of (h.int_of t)
  normalize_number (number z) = some (number z)
  normalize_number (binary bytes) = some nothing
  normalize_number nothing = some nothing

  unfoldable pub normalize_binary : Data → Option Data
  normalize_binary (text t) = some (binary (h.b64encode (h.utf8 t)))
  normalize_binary (number z) = none
  normalize_binary (binary bytes) = some (binary (h.b64encode bytes))
  normalize_binary nothing = none

  -- RegValue.normalize_value: `none` is RegistryEmuError, or ValueError of `int`
  unfoldable pub normalize_value : Option ℕ → Data → Option Data
  normalize_value value_type contents =
      if is_string_type value_type
      then normalize_string contents
      else if is_number_type value_type
      then normalize_number contents
      else if is_type reg_binary value_type
      then normalize_binary contents
      else some contents

  -- RegValue.get_bytes
  unfoldable pub number_bytes : Option ℕ → ℤ → List ℕ
  number_bytes value_type z =
      if is_type reg_dword value_type
      then to_bytes 4 (in_field 4 z)
      else if is_type reg_qword value_type
      then to_bytes 8 (in_field 8 z)
      else []

  unfoldable pub data_bytes : ℕ → Option ℕ → Data → List ℕ
  data_bytes width value_type (text t) =
      if is_string_type value_type then h.encode width (terminated value_type t) else []
  data_bytes width value_type (number z) = number_bytes value_type z
  data_bytes width value_type (binary bytes) =
      if is_type reg_binary value_type then h.b64decode bytes else bytes
  data_bytes width value_type nothing = []

  unfoldable pub get_bytes : RegValue → ℕ → List ℕ
  get_bytes v width = data_bytes width v.value_type v.contents

  -- the names that `get_value` looks for
  unfoldable pub names_of : Text → List Text
  names_of [] = [] ∷ (b'd' ∷ b'e' ∷ b'f' ∷ b'a' ∷ b'u' ∷ b'l' ∷ b't' ∷ []) ∷ []
  names_of (c ∷ cs) = h.lower (c ∷ cs) ∷ []

  -- RegKey.get_value
  unfoldable pub find_value : List Text → List RegValue → Option RegValue
  find_value names [] = none
  find_value names (v ∷ values) =
      if is_in (h.lower v.name) names then some v else find_value names values

  unfoldable pub get_value : RegKey → Text → Option RegValue
  get_value key name = find_value (names_of name) key.values

  -- the roots of `normalize_reg_path`, and then the control set
  unfoldable pub replace_root : Text → Text
  replace_root path =
      if is_prefix registry_machine (h.lower path)
      then local_machine ++ drop (length registry_machine) path
      else if is_prefix hklm (h.lower path)
      then local_machine ++ drop (length hklm) path
      else path

  unfoldable pub replace_control_set : Text → Text
  replace_control_set path =
      if is_prefix control_set (h.lower path)
      then current_control_set ++ drop (length control_set) path
      else path

  unfoldable pub normalize_reg_path : Text → Text
  normalize_reg_path path =
      if is_empty path then path else rstrip (replace_control_set (replace_root path))
