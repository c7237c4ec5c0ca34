-- ===== src/Registry/Tests.antt =====
-- Runs of the registry manager.
use speakeasy.Base.{
  ℕ, ◌+◌, ◌<◌, ◌≡◌, refl, true, ◌&&◌, none, some, List, [], ◌∷◌, ◌==◌, leb, if◌then◌else◌, map, All,
  arith,
}
use speakeasy.Handles.{Owner, allocator_init, find, pseudo_or, any_instance, of_types, get}
use speakeasy.Memory.Tag.{is_prefix}
use speakeasy.Registry.{
  Text, Host, RegValue, text, binary, same_text, is_in, discard, rstrip, is_empty, replace_root,
  replace_control_set, normalize_reg_path, normalize_value, is_string_type, normalize_string,
  get_value, get_bytes, reg_sz, reg_binary,
}
use speakeasy.Registry.Manager.{
  Manager, ok, normalize_hkey, new_key, get_key, find_key, get_key_from_path, config_of,
  find_config, get_key_from_config, key_of_config, append_key, append_new, create_from,
  found_or_create, create_key, delete_key, get_subkeys,
}
use speakeasy.Registry.Values.{write_value}
use speakeasy.Registry.Subkeys.{IsDistinct, IsName, get_subkeys-IsDistinct}
use speakeasy.Registry.Values.{get_value-write_value, get_bytes-write_value}
use speakeasy.Registry.Keys.{create_key-again, delete_key-get_key_from_config}

abbrev ascii_lower : ℕ → ℕ
ascii_lower c = if leb b'A' c && leb c b'Z' then c + 32 else c

abbrev host : Host
host = record {
  lower = λ t. map ascii_lower t;
  fnmatch = λ name pattern. same_text name pattern;
  int_of = λ t. none;
  utf8 = λ t. t;
  b64encode = λ bytes. 0 ∷ bytes;
  b64decode = λ bytes. tail_of bytes;
  encode = λ width t. t;
  type_of = λ t. some reg_sz;
  str_of = λ n. n ∷ [];
}
  where
    tail_of : List ℕ → List ℕ
    tail_of [] = []
    tail_of (b ∷ bytes) = bytes

abbrev owner : Owner
owner = record {
  Refs = Unit {0};
  pseudo = λ h. none;
  is_instance = λ obj ty. ty == 9;
  retain = λ refs obj. refs;
  release = λ refs obj. refs;
}

-- HKLM\A\B, and the configuration HKEY_LOCAL_MACHINE\C
abbrev a_b : Text
a_b = b'H' ∷ b'K' ∷ b'L' ∷ b'M' ∷ 0x5C ∷ b'A' ∷ 0x5C ∷ b'B' ∷ []

abbrev manager : Manager host owner 9
manager = record {
  table = record { allocator = allocator_init; objects = (0x80, 0) ∷ []; refs = tt };
  predefined = [];
  keys = 0 ∷ [];
  store = λ k. record { path = b'X' ∷ 0x5C ∷ b'Y' ∷ []; values = [] };
  next_key = 1;
  deleted_paths = [];
  config = some (record { path = b'x' ∷ 0x5C ∷ b'y' ∷ []; values = [] } ∷ []);
  has_emu = true;
  events = [];
}

abbrev created : Manager host owner 9
created = (create_key host owner 9 a_b manager).1

program : Unit {0}
unfolding create_key found_or_create create_from append_new append_key new_key get_key_from_path
    find_key get_key_from_config key_of_config find_config config_of same_text is_in discard rstrip
    is_empty is_prefix replace_root replace_control_set normalize_reg_path normalize_hkey get_key
    find get of_types any_instance pseudo_or
program = tt

created_ok : create_key host owner 9 a_b manager ≡ (ok 1, created)
unfolding program
created_ok = refl

matches :
    host.fnmatch
      (host.lower (normalize_reg_path host a_b))
      (host.lower (normalize_reg_path host (normalize_reg_path host a_b)))
    ≡ true
unfolding program
matches = refl

create_key-again_example :
    (create_key host owner 9 a_b created ≡ (ok 1, created))
    × All (λ j. j < created.next_key) created.keys
create_key-again_example =
    create_key-again host owner 9 a_b manager created 1 matches (omega arith, tt) created_ok

found : get_key host owner 9 0x80 manager ≡ some 0
unfolding program
found = refl

delete_key-get_key_from_config_example :
    ((delete_key host owner 9 0x80 manager).0 ≡ true)
    × (get_key_from_config host owner 9
          (b'x' ∷ 0x5C ∷ b'Y' ∷ [])
          (delete_key host owner 9 0x80 manager).1
        ≡ ok none)
delete_key-get_key_from_config_example =
    delete_key-get_key_from_config host owner 9 0x80 0 (b'x' ∷ 0x5C ∷ b'Y' ∷ []) manager found refl

get_subkeys-IsDistinct_example :
    IsDistinct host.lower (get_subkeys host owner 9 0 created)
    × All IsName (get_subkeys host owner 9 0 created)
get_subkeys-IsDistinct_example = get_subkeys-IsDistinct host owner 9 0 created

string_data : normalize_value host (some reg_sz) (text (b'v' ∷ [])) ≡ some (text (b'v' ∷ []))
unfolding normalize_value is_string_type normalize_string
string_data = refl

get_value-write_value_example :
    (n : Text) × (get_value host
        ((write_value host owner 9 0
            (b'n' ∷ [])
            (some reg_sz)
            (text (b'v' ∷ []))
            []
            0x80
            0
            manager).1.store
          0)
        (b'n' ∷ [])
      ≡ some (record { name = n; value_type = some reg_sz; contents = text (b'v' ∷ []) }))
get_value-write_value_example =
    get_value-write_value host owner 9 refl 0 (b'n' ∷ []) (some reg_sz) (text (b'v' ∷ []))
      (text (b'v' ∷ [])) [] 0x80 0 manager string_data

get_bytes-write_value_example :
    (v : RegValue) × (get_value host
        ((write_value host owner 9 0 []
            (some reg_binary)
            (binary (1 ∷ 2 ∷ []))
            []
            0x80
            0
            manager).1.store
          0)
        []
      ≡ some v)
    × (get_bytes host v 1 ≡ 1 ∷ 2 ∷ [])
get_bytes-write_value_example =
    get_bytes-write_value host owner 9 refl (λ bytes. refl) 0 [] (1 ∷ 2 ∷ []) [] 0x80 0 1 manager
