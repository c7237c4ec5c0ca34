-- ===== src/Registry/Defaults.antt =====
-- The constructor of `RegistryManager` of speakeasy/windows/regman.py and the values that it adds.
use speakeasy.Base.{
  ℕ, Bool, true, false, ◌&&◌, Option, none, some, List, [], ◌∷◌, ◌++◌, leb, ◌==◌, if◌then◌else◌,
}
use speakeasy.Base.Int.{pos}
use speakeasy.Handles.{Owner, Table}
use speakeasy.Registry.{
  Text, Host, Data, text, number, RegValue, normalize_value, names_of, find_value, reg_sz,
  reg_dword,
}
use speakeasy.Registry.Manager.{Manager, KeyConfig, Outcome, ok, error, set_values, create_key}

-- the version of the system; `build` can be None
pub record OsVersion : Type 0 where
  pub major : ℕ
  pub minor : ℕ
  pub build : Option ℕ

-- a name, a type and data
abbrev pub Default : Type 0
Default = Text × ℕ × Data

-- PRODUCT_NAMES
unfoldable pub product_name : ℕ → ℕ → Option Text
product_name major minor =
    if major == 6 && minor == 1
    then some (
        b'W' ∷ b'i' ∷ b'n' ∷ b'd' ∷ b'o' ∷ b'w' ∷ b's' ∷ b' ' ∷ b'7' ∷ b' ' ∷ b'P' ∷ b'r' ∷ b'o'
        ∷ b'f' ∷ b'e' ∷ b's' ∷ b's' ∷ b'i' ∷ b'o' ∷ b'n' ∷ b'a' ∷ b'l' ∷ [])
    else if major == 6 && minor == 2
    then some (
        b'W' ∷ b'i' ∷ b'n' ∷ b'd' ∷ b'o' ∷ b'w' ∷ b's' ∷ b' ' ∷ b'8' ∷ b' ' ∷ b'P' ∷ b'r' ∷ b'o'
        ∷ [])
    else if major == 6 && minor == 3
    then some (
        b'W' ∷ b'i' ∷ b'n' ∷ b'd' ∷ b'o' ∷ b'w' ∷ b's' ∷ b' ' ∷ b'8' ∷ b'.' ∷ b'1' ∷ b' ' ∷ b'P'
        ∷ b'r' ∷ b'o' ∷ [])
    else if major == 10 && minor == 0
    then some (
        b'W' ∷ b'i' ∷ b'n' ∷ b'd' ∷ b'o' ∷ b'w' ∷ b's' ∷ b' ' ∷ b'1' ∷ b'0' ∷ b' ' ∷ b'P' ∷ b'r'
        ∷ b'o' ∷ [])
    else none

-- CURRENT_VERSION_KEY
abbrev pub current_version_key : Text
current_version_key =
    b'H' ∷ b'K' ∷ b'E' ∷ b'Y' ∷ b'_' ∷ b'L' ∷ b'O' ∷ b'C' ∷ b'A' ∷ b'L' ∷ b'_' ∷ b'M' ∷ b'A' ∷ b'C'
    ∷ b'H' ∷ b'I' ∷ b'N' ∷ b'E' ∷ 0x5C ∷ b'S' ∷ b'O' ∷ b'F' ∷ b'T' ∷ b'W' ∷ b'A' ∷ b'R' ∷ b'E'
    ∷ 0x5C ∷ b'M' ∷ b'i' ∷ b'c' ∷ b'r' ∷ b'o' ∷ b's' ∷ b'o' ∷ b'f' ∷ b't' ∷ 0x5C ∷ b'W' ∷ b'i'
    ∷ b'n' ∷ b'd' ∷ b'o' ∷ b'w' ∷ b's' ∷ b' ' ∷ b'N' ∷ b'T' ∷ 0x5C ∷ b'C' ∷ b'u' ∷ b'r' ∷ b'r'
    ∷ b'e' ∷ b'n' ∷ b't' ∷ b'V' ∷ b'e' ∷ b'r' ∷ b's' ∷ b'i' ∷ b'o' ∷ b'n' ∷ []

-- HKEY of speakeasy/winenv/defs/enums.py: the predefined keys
abbrev pub hkeys : List (ℕ × Text)
hkeys =
    (
      0x80000000,
      b'H' ∷ b'K' ∷ b'E' ∷ b'Y' ∷ b'_' ∷ b'C' ∷ b'L' ∷ b'A' ∷ b'S' ∷ b'S' ∷ b'E' ∷ b'S' ∷ b'_'
          ∷ b'R' ∷ b'O' ∷ b'O' ∷ b'T' ∷ [],
    )
    ∷ (
      0x80000001,
      b'H' ∷ b'K' ∷ b'E' ∷ b'Y' ∷ b'_' ∷ b'C' ∷ b'U' ∷ b'R' ∷ b'R' ∷ b'E' ∷ b'N' ∷ b'T' ∷ b'_'
          ∷ b'U' ∷ b'S' ∷ b'E' ∷ b'R' ∷ [],
    )
    ∷ (
      0x80000002,
      b'H' ∷ b'K' ∷ b'E' ∷ b'Y' ∷ b'_' ∷ b'L' ∷ b'O' ∷ b'C' ∷ b'A' ∷ b'L' ∷ b'_' ∷ b'M' ∷ b'A'
          ∷ b'C' ∷ b'H' ∷ b'I' ∷ b'N' ∷ b'E' ∷ [],
    )
    ∷ (0x80000003, b'H' ∷ b'K' ∷ b'E' ∷ b'Y' ∷ b'_' ∷ b'U' ∷ b'S' ∷ b'E' ∷ b'R' ∷ b'S' ∷ [])
    ∷ []

-- a text value
abbrev string : Text → Text → Default
string name t = (name, reg_sz, text t)

-- the values of Windows 10 and later
unfoldable pub version_numbers : ℕ → ℕ → List Default
version_numbers major minor =
    if leb 10 major
    then (
      b'C' ∷ b'u' ∷ b'r' ∷ b'r' ∷ b'e' ∷ b'n' ∷ b't' ∷ b'M' ∷ b'a' ∷ b'j' ∷ b'o' ∷ b'r' ∷ b'V'
          ∷ b'e' ∷ b'r' ∷ b's' ∷ b'i' ∷ b'o' ∷ b'n' ∷ b'N' ∷ b'u' ∷ b'm' ∷ b'b' ∷ b'e' ∷ b'r' ∷ [],
      reg_dword,
      number (pos major),
    )
      ∷ (
        b'C' ∷ b'u' ∷ b'r' ∷ b'r' ∷ b'e' ∷ b'n' ∷ b't' ∷ b'M' ∷ b'i' ∷ b'n' ∷ b'o' ∷ b'r' ∷ b'V'
            ∷ b'e' ∷ b'r' ∷ b's' ∷ b'i' ∷ b'o' ∷ b'n' ∷ b'N' ∷ b'u' ∷ b'm' ∷ b'b' ∷ b'e' ∷ b'r'
            ∷ [],
        reg_dword,
        number (pos minor),
      )
      ∷ []
    else []

module _ (h : Host) where
  unfoldable pub build_values : Option ℕ → List Default
  build_values none = []
  build_values (some build) =
      string
        (b'C' ∷ b'u' ∷ b'r' ∷ b'r' ∷ b'e' ∷ b'n' ∷ b't' ∷ b'B' ∷ b'u' ∷ b'i' ∷ b'l' ∷ b'd' ∷ [])
        (h.str_of build)
      ∷ string
          (b'C' ∷ b'u' ∷ b'r' ∷ b'r' ∷ b'e' ∷ b'n' ∷ b't' ∷ b'B' ∷ b'u' ∷ b'i' ∷ b'l' ∷ b'd' ∷ b'N'
            ∷ b'u' ∷ b'm' ∷ b'b' ∷ b'e' ∷ b'r' ∷ [])
          (h.str_of build)
      ∷ []

  unfoldable pub version_text : ℕ → ℕ → Text
  version_text major minor =
      if leb 10 major then b'6' ∷ b'.' ∷ b'3' ∷ [] else h.str_of major ++ b'.' ∷ h.str_of minor

  unfoldable pub values_of_product : OsVersion → Option Text → List Default
  values_of_product v none = []
  values_of_product v (some product) =
      string (b'P' ∷ b'r' ∷ b'o' ∷ b'd' ∷ b'u' ∷ b'c' ∷ b't' ∷ b'N' ∷ b'a' ∷ b'm' ∷ b'e' ∷ [])
        product
      ∷ string
          (b'C' ∷ b'u' ∷ b'r' ∷ b'r' ∷ b'e' ∷ b'n' ∷ b't' ∷ b'V' ∷ b'e' ∷ b'r' ∷ b's' ∷ b'i' ∷ b'o'
            ∷ b'n' ∷ [])
          (version_text v.major v.minor)
      ∷ string (b'E' ∷ b'd' ∷ b'i' ∷ b't' ∷ b'i' ∷ b'o' ∷ b'n' ∷ b'I' ∷ b'D' ∷ [])
          (b'P' ∷ b'r' ∷ b'o' ∷ b'f' ∷ b'e' ∷ b's' ∷ b's' ∷ b'i' ∷ b'o' ∷ b'n' ∷ b'a' ∷ b'l' ∷ [])
      ∷ string
          (b'I' ∷ b'n' ∷ b's' ∷ b't' ∷ b'a' ∷ b'l' ∷ b'l' ∷ b'a' ∷ b't' ∷ b'i' ∷ b'o' ∷ b'n' ∷ b'T'
            ∷ b'y' ∷ b'p' ∷ b'e' ∷ [])
          (b'C' ∷ b'l' ∷ b'i' ∷ b'e' ∷ b'n' ∷ b't' ∷ [])
      ∷ (version_numbers v.major v.minor ++ build_values v.build)

  unfoldable pub get_current_version_values : OsVersion → List Default
  get_current_version_values v = values_of_product v (product_name v.major v.minor)

  -- key.create_value, which can raise
  unfoldable pub push_default : List RegValue → Text → ℕ → Option Data → Option (List RegValue)
  push_default values name value_type none = none
  push_default values name value_type (some contents) =
      some
        (values ++ record { name = name; value_type = some value_type; contents = contents } ∷ [])

  unfoldable pub add_default : List RegValue → Default → Option RegValue → Option (List RegValue)
  add_default values d (some old) = some values
  add_default values (name, value_type, contents) none =
      push_default values name value_type (normalize_value h (some value_type) contents)

  -- an error ends the loop
  unfoldable pub next_default :
      List RegValue
      → (List RegValue → Bool × List RegValue)
      → Option (List RegValue)
      → Bool × List RegValue
  next_default values rest none = (false, values)
  next_default values rest (some values') = rest values'

  -- the loop of `add_default_values`: if there was no error, and the values
  unfoldable pub add_defaults : List Default → List RegValue → Bool × List RegValue
  add_defaults [] values = (true, values)
  add_defaults (d ∷ defaults) values =
      next_default values (add_defaults defaults)
        (add_default values d (find_value h (names_of h d.0) values))

-- env.get(name, default)
unfoldable pub or_default : Text → Option Text → Text
or_default default none = default
or_default default (some t) = t

unfoldable pub program_files_of : (Text → Option Text) → Text
program_files_of env =
    or_default
      (b'C' ∷ b':' ∷ 0x5C ∷ b'P' ∷ b'r' ∷ b'o' ∷ b'g' ∷ b'r' ∷ b'a' ∷ b'm' ∷ b' ' ∷ b'F' ∷ b'i'
        ∷ b'l' ∷ b'e' ∷ b's' ∷ [])
      (env (b'p' ∷ b'r' ∷ b'o' ∷ b'g' ∷ b'r' ∷ b'a' ∷ b'm' ∷ b'f' ∷ b'i' ∷ b'l' ∷ b'e' ∷ b's' ∷ []))

unfoldable pub common_files_of : (Text → Option Text) → Text
common_files_of env =
    or_default
      (program_files_of env
        ++ 0x5C ∷ b'C' ∷ b'o' ∷ b'm' ∷ b'm' ∷ b'o' ∷ b'n' ∷ b' ' ∷ b'F' ∷ b'i' ∷ b'l' ∷ b'e' ∷ b's'
          ∷ [])
      (env (
        b'c' ∷ b'o' ∷ b'm' ∷ b'm' ∷ b'o' ∷ b'n' ∷ b'p' ∷ b'r' ∷ b'o' ∷ b'g' ∷ b'r' ∷ b'a' ∷ b'm'
        ∷ b'f' ∷ b'i' ∷ b'l' ∷ b'e' ∷ b's' ∷ []))

-- the values of a 64-bit system
unfoldable pub x86_values : (Text → Option Text) → List Default
x86_values env =
    string
      (b'P' ∷ b'r' ∷ b'o' ∷ b'g' ∷ b'r' ∷ b'a' ∷ b'm' ∷ b'F' ∷ b'i' ∷ b'l' ∷ b'e' ∷ b's' ∷ b'D'
        ∷ b'i' ∷ b'r' ∷ b' ' ∷ b'(' ∷ b'x' ∷ b'8' ∷ b'6' ∷ b')' ∷ [])
      (or_default (program_files_of env ++ b' ' ∷ b'(' ∷ b'x' ∷ b'8' ∷ b'6' ∷ b')' ∷ []) (
        env (
          b'p' ∷ b'r' ∷ b'o' ∷ b'g' ∷ b'r' ∷ b'a' ∷ b'm' ∷ b'f' ∷ b'i' ∷ b'l' ∷ b'e' ∷ b's' ∷ b'('
          ∷ b'x' ∷ b'8' ∷ b'6' ∷ b')' ∷ [])))
    ∷ string
        (b'C' ∷ b'o' ∷ b'm' ∷ b'm' ∷ b'o' ∷ b'n' ∷ b'F' ∷ b'i' ∷ b'l' ∷ b'e' ∷ b's' ∷ b'D' ∷ b'i'
          ∷ b'r' ∷ b' ' ∷ b'(' ∷ b'x' ∷ b'8' ∷ b'6' ∷ b')' ∷ [])
        (or_default
          (program_files_of env
            ++ b' ' ∷ b'(' ∷ b'x' ∷ b'8' ∷ b'6' ∷ b')' ∷ 0x5C ∷ b'C' ∷ b'o' ∷ b'm' ∷ b'm' ∷ b'o'
              ∷ b'n' ∷ b' ' ∷ b'F' ∷ b'i' ∷ b'l' ∷ b'e' ∷ b's' ∷ [])
          (env (
            b'c' ∷ b'o' ∷ b'm' ∷ b'm' ∷ b'o' ∷ b'n' ∷ b'p' ∷ b'r' ∷ b'o' ∷ b'g' ∷ b'r' ∷ b'a' ∷ b'm'
            ∷ b'f' ∷ b'i' ∷ b'l' ∷ b'e' ∷ b's' ∷ b'(' ∷ b'x' ∷ b'8' ∷ b'6' ∷ b')' ∷ [])))
    ∷ string
        (b'P' ∷ b'r' ∷ b'o' ∷ b'g' ∷ b'r' ∷ b'a' ∷ b'm' ∷ b'W' ∷ b'6' ∷ b'4' ∷ b'3' ∷ b'2' ∷ b'D'
          ∷ b'i' ∷ b'r' ∷ [])
        (or_default (program_files_of env) (
          env (
            b'p' ∷ b'r' ∷ b'o' ∷ b'g' ∷ b'r' ∷ b'a' ∷ b'm' ∷ b'w' ∷ b'6' ∷ b'4' ∷ b'3' ∷ b'2'
            ∷ [])))
    ∷ string
        (b'C' ∷ b'o' ∷ b'm' ∷ b'm' ∷ b'o' ∷ b'n' ∷ b'W' ∷ b'6' ∷ b'4' ∷ b'3' ∷ b'2' ∷ b'D' ∷ b'i'
          ∷ b'r' ∷ [])
        (common_files_of env)
    ∷ []

unfoldable pub get_program_files_values : (Text → Option Text) → Bool → List Default
get_program_files_values env is_x64 =
    string
      (b'P' ∷ b'r' ∷ b'o' ∷ b'g' ∷ b'r' ∷ b'a' ∷ b'm' ∷ b'F' ∷ b'i' ∷ b'l' ∷ b'e' ∷ b's' ∷ b'D'
        ∷ b'i' ∷ b'r' ∷ [])
      (program_files_of env)
    ∷ string
        (b'C' ∷ b'o' ∷ b'm' ∷ b'm' ∷ b'o' ∷ b'n' ∷ b'F' ∷ b'i' ∷ b'l' ∷ b'e' ∷ b's' ∷ b'D' ∷ b'i'
          ∷ b'r' ∷ [])
        (common_files_of env)
    ∷ (if is_x64 then x86_values env else [])

module _ (h : Host) (o : Owner) (reg_key : ℕ) where
  abbrev State : Type 0
  State = Manager h o reg_key

  -- the values of a key after the loop
  unfoldable pub set_defaults : ℕ → Bool × List RegValue → State → Bool × State
  set_defaults k (done, values) m = (done, set_values h o reg_key k values m)

  unfoldable pub add_to_key : List Default → Outcome h o reg_key ℕ × State → Bool × State
  add_to_key values (error, m) = (false, m)
  add_to_key values (ok k, m) = set_defaults k (add_defaults h values (m.store k).values) m

  -- if there was no error
  unfoldable pub add_default_values : Text → List Default → State → Bool × State
  add_default_values path [] m = (true, m)
  add_default_values path (d ∷ values) m = add_to_key (d ∷ values) (create_key h o reg_key path m)

  -- self.predefined_keys.update
  unfoldable pub set_predefined : ℕ → Outcome h o reg_key ℕ × State → Bool × State
  set_predefined hkey (error, m) = (false, m)
  set_predefined hkey (ok k, m) = (true, record m { predefined = m.predefined ++ (hkey, k) ∷ [] })

  unfoldable pub then_do : (State → Bool × State) → Bool × State → Bool × State
  then_do f (false, m) = (false, m)
  then_do f (true, m) = f m

  unfoldable pub create_predefined : List (ℕ × Text) → State → Bool × State
  create_predefined [] m = (true, m)
  create_predefined ((hkey, name) ∷ names) m =
      then_do (create_predefined names) (set_predefined hkey (create_key h o reg_key name m))

  unfoldable pub version_defaults : Option OsVersion → State → Bool × State
  version_defaults none m = (true, m)
  version_defaults (some v) m =
      add_default_values current_version_key (get_current_version_values h v) m

  -- __init__, with the table of the current process; an object that no key has yet has the empty path
  unfoldable pub manager_init :
      Table o → Option (List KeyConfig) → Option OsVersion → Bool → Bool × State
  manager_init table config os_ver has_emu = then_do (version_defaults os_ver) (
      create_predefined hkeys (record {
        table = table;
        predefined = [];
        keys = [];
        store = λ k. record { path = []; values = [] };
        next_key = 0;
        deleted_paths = [];
        config = config;
        has_emu = has_emu;
        events = [];
      }))
