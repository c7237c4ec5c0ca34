-- ===== src/Registry/Manager.antt =====
-- The methods of `RegistryManager` of speakeasy/windows/regman.py. A key is an object that the list
-- of keys, the predefined keys and the handle tables share: it is known by a number, and `store` has
-- its path and values.
use speakeasy.Base.{
  ℕ, suc, ◌/◌, ◌%◌, ◌^◌, Bool, true, false, ◌&&◌, ◌||◌, Option, none, some, List, [], ◌∷◌, ◌++◌,
  leb, ◌==◌, if◌then◌else◌, map, length, drop,
}
use speakeasy.Memory.Tag.{is_prefix}
use speakeasy.Handles.{Owner, Table, find, new_handle, get, close}
use speakeasy.Registry.{
  Text, Host, same_text, is_in, discard, backslash, is_empty, rstrip, first_part, Data, text,
  RegValue, RegKey, normalize_value, normalize_reg_path,
}

-- RegistryValueConfig and RegistryKeyConfig of speakeasy/config.py
pub record ValueConfig : Type 0 where
  pub name : Text
  pub type_name : Text
  pub contents : Text

pub record KeyConfig : Type 0 where
  pub path : Text
  pub values : List ValueConfig

-- the events of the report
pub data Event : Type 0 where
  opened : Text → Bool → Option ℕ → Event
  deleted_key : Text → ℕ → Event
  listed : Text → ℕ → Event
  read_event : Text → Text → Option (List ℕ) → ℕ → ℕ → Option ℕ → Event
  written : Text → Text → List ℕ → ℕ → ℕ → Event
  deleted_value : Text → Text → ℕ → Event

-- normalize_hkey of speakeasy/winenv/defs/registry/reg.py
unfoldable pub normalize_hkey : ℕ → ℕ
normalize_hkey hkey =
    let low = hkey % 2 ^ 32 in
    if hkey / 2 ^ 32 == 0xFFFFFFFF && (leb 0x80000000 low && leb low 0x80000007) then low else hkey

-- self.keys.remove(key)
unfoldable pub remove : ℕ → List ℕ → List ℕ
remove key [] = []
remove key (k ∷ keys) = let rest = remove key keys in if k == key then keys else k ∷ rest

-- the loop of `get_subkeys` over the paths
unfoldable pub subkey_of : Text → Text → Text
subkey_of parent_path path = first_part (drop (length parent_path) path)

module _ (h : Host) (o : Owner) (reg_key : ℕ) where
  pub record Manager : Type 0 where
    pub table : Table o
    pub predefined : List (ℕ × ℕ)
    pub keys : List ℕ
    pub store : ℕ → RegKey
    pub next_key : ℕ
    pub deleted_paths : List Text
    pub config : Option (List KeyConfig)
    pub has_emu : Bool
    pub events : List Event

  unfoldable pub record_event : Event → Manager → Manager
  record_event e m = if m.has_emu then record m { events = m.events ++ e ∷ [] } else m

  -- a new object
  unfoldable pub new_key : RegKey → Manager → ℕ × Manager
  new_key key m = (
    m.next_key,
    record m { store = λ k. if k == m.next_key then key else m.store k; next_key = suc m.next_key },
  )

  unfoldable pub set_values : ℕ → List RegValue → Manager → Manager
  set_values key values m = record m {
    store = λ k. if k == key then record (m.store key) { values = values } else m.store k;
  }

  -- get_key
  unfoldable pub get_key : ℕ → Manager → Option ℕ
  get_key handle m = elim (find (normalize_hkey handle) m.predefined) [
    | some key ↦ some key
    | none ↦ get o m.table (normalize_hkey handle) (reg_key ∷ [])
  ]

  -- the table without the handle
  unfoldable pub close_open_key : ℕ → Option ℕ → Manager → Bool × Manager
  close_open_key handle none m = (false, m)
  close_open_key handle (some key) m =
      ((close o m.table handle).0, record m { table = (close o m.table handle).1 })

  unfoldable pub close_key : ℕ → Manager → Bool × Manager
  close_key handle m = elim (find (normalize_hkey handle) m.predefined) [
    | some key ↦ (true, m)
    | none ↦
        close_open_key (normalize_hkey handle)
          (get o m.table (normalize_hkey handle) (reg_key ∷ [])) m
  ]

  -- the loop of `get_key_from_path`, with the path in lower case
  unfoldable pub find_key : Text → (ℕ → RegKey) → List ℕ → Option ℕ
  find_key pattern store [] = none
  find_key pattern store (k ∷ keys) =
      if h.fnmatch (h.lower (store k).path) pattern then some k else find_key pattern store keys

  unfoldable pub get_key_from_path : Text → Manager → Option ℕ
  get_key_from_path path m = find_key (h.lower (normalize_reg_path h path)) m.store m.keys

  -- the config keys that are not deleted
  unfoldable pub config_paths : List Text → List KeyConfig → List Text
  config_paths deleted [] = []
  config_paths deleted (c ∷ configs) =
      let rest = config_paths deleted configs in
      if is_in (h.lower c.path) deleted then rest else c.path ∷ rest

  unfoldable pub all_config_paths : List Text → Option (List KeyConfig) → List Text
  all_config_paths deleted none = []
  all_config_paths deleted (some configs) = config_paths deleted configs

  unfoldable pub get_key_paths : Manager → List Text
  get_key_paths m =
      map (λ (k : ℕ). (m.store k).path) m.keys ++ all_config_paths m.deleted_paths m.config

  unfoldable pub any_prefix : Text → List Text → Bool
  any_prefix prefix [] = false
  any_prefix prefix (p ∷ paths) = is_prefix prefix (h.lower p) || any_prefix prefix paths

  unfoldable pub is_key_a_parent_key : Text → Manager → Bool
  is_key_a_parent_key path m =
      any_prefix (rstrip (h.lower path) ++ backslash ∷ []) (get_key_paths m)

  -- `sub.lower() in (s.lower() for s in subkeys)`
  unfoldable pub is_listed : Text → List Text → Bool
  is_listed sub subkeys = is_in (h.lower sub) (map (λ s. h.lower s) subkeys)

  unfoldable pub add_subkey : Text → List Text → List Text
  add_subkey sub subkeys =
      if is_empty sub || is_listed sub subkeys then subkeys else subkeys ++ sub ∷ []

  unfoldable pub collect_subkeys : Text → List Text → List Text → List Text
  collect_subkeys parent_path subkeys [] = subkeys
  collect_subkeys parent_path subkeys (p ∷ paths) =
      collect_subkeys parent_path
        (if is_prefix (h.lower parent_path) (h.lower p)
          then add_subkey (subkey_of parent_path p) subkeys
          else subkeys)
        paths

  unfoldable pub get_subkeys : ℕ → Manager → List Text
  get_subkeys key m =
      collect_subkeys (rstrip (m.store key).path ++ backslash ∷ []) [] (get_key_paths m)

  -- the values of a config key; RegistryEmuError or ValueError is `none`
  unfoldable pub config_value : ValueConfig → Option Data → Option RegValue
  config_value c none = none
  config_value c (some contents) =
      some (record { name = c.name; value_type = h.type_of c.type_name; contents = contents })

  unfoldable pub push_value : Option RegValue → Option (List RegValue) → Option (List RegValue)
  push_value none values = none
  push_value (some v) none = none
  push_value (some v) (some values) = some (v ∷ values)

  unfoldable pub config_values : List ValueConfig → Option (List RegValue)
  config_values [] = some []
  config_values (c ∷ configs) =
      push_value (config_value c (normalize_value h (h.type_of c.type_name) (text c.contents)))
        (config_values configs)

  unfoldable pub find_config : Text → List KeyConfig → Option KeyConfig
  find_config path [] = none
  find_config path (c ∷ configs) =
      if same_text (h.lower c.path) (h.lower path) then some c else find_config path configs

  -- a result or an error of a method
  pub data Outcome (A : Type 0) : Type 0 where
    ok : A → Outcome A
    error : Outcome A

  unfoldable pub key_with : Text → Option (List RegValue) → Outcome (Option RegKey)
  key_with path none = error
  key_with path (some values) = ok (some (record { path = path; values = values }))

  unfoldable pub key_of_config : Text → Option KeyConfig → Outcome (Option RegKey)
  key_of_config path none = ok none
  key_of_config path (some c) = key_with path (config_values c.values)

  unfoldable pub config_of : Option (List KeyConfig) → List KeyConfig
  config_of none = []
  config_of (some configs) = configs

  unfoldable pub get_key_from_config : Text → Manager → Outcome (Option RegKey)
  get_key_from_config path m =
      if is_in (h.lower path) m.deleted_paths
      then ok none
      else key_of_config path (find_config path (config_of m.config))

  -- a key of the list of keys
  unfoldable pub append_key : RegKey → Manager → ℕ × Manager
  append_key key m = let (k, m') = new_key key m in (k, record m' { keys = m'.keys ++ k ∷ [] })

  -- a new key, which is no longer deleted
  unfoldable pub append_new : Text → Manager → ℕ × Manager
  append_new path m =
      let (k, m') = append_key (record { path = path; values = [] }) m in
      (k, record m' { deleted_paths = discard (h.lower path) m'.deleted_paths })

  unfoldable pub create_from : Text → Outcome (Option RegKey) → Manager → Outcome ℕ × Manager
  create_from path error m = (error, m)
  create_from path (ok (some key)) m = let (k, m') = append_key key m in (ok k, m')
  create_from path (ok none) m = let (k, m') = append_new path m in (ok k, m')

  unfoldable pub found_or_create : Text → Option ℕ → Manager → Outcome ℕ × Manager
  found_or_create path (some k) m = (ok k, m)
  found_or_create path none m = create_from path (get_key_from_config path m) m

  unfoldable pub create_key : Text → Manager → Outcome ℕ × Manager
  create_key path m =
      let p = normalize_reg_path h path in found_or_create p (get_key_from_path p m) m

  -- a new handle of a key
  unfoldable pub handle_of : ℕ → Manager → ℕ × Manager
  handle_of k m =
      let (handle, table) = new_handle o m.table k in (handle, record m { table = table })

  unfoldable pub open_from :
      Text → Bool → Outcome (Option RegKey) → Manager → Outcome (Option ℕ) × Manager
  open_from path create error m = (error, m)
  open_from path create (ok (some key)) m =
      let (k, m') = append_key key m in
      let (handle, m'') = handle_of k m' in (ok (some handle), m'')
  open_from path create (ok none) m =
      if create || is_key_a_parent_key path m
      then (let (k, m') = append_new path m in
          let (handle, m'') = handle_of k m' in (ok (some handle), m''))
      else (ok none, m)

  unfoldable pub found_or_open : Text → Bool → Option ℕ → Manager → Outcome (Option ℕ) × Manager
  found_or_open path create (some k) m = let (handle, m') = handle_of k m in (ok (some handle), m')
  found_or_open path create none m = open_from path create (get_key_from_config path m) m

  unfoldable pub get_key_handle : Text → Bool → Manager → Outcome (Option ℕ) × Manager
  get_key_handle path create m =
      let p = normalize_reg_path h path in found_or_open p create (get_key_from_path p m) m

  -- the path of the event of `open_key`
  unfoldable pub opened_path : Text → Option ℕ → Manager → Text
  opened_path path none m = normalize_reg_path h path
  opened_path path (some handle) m = elim (get_key handle m) [
    | none ↦ normalize_reg_path h path
    | some k ↦ (m.store k).path
  ]

  unfoldable pub record_open :
      Text → Bool → Outcome (Option ℕ) × Manager → Outcome (Option ℕ) × Manager
  record_open path create (error, m) = (error, m)
  record_open path create (ok handle, m) =
      (ok handle, record_event (opened (opened_path path handle m) create handle) m)

  unfoldable pub open_key : Text → Bool → Manager → Outcome (Option ℕ) × Manager
  open_key path create m = record_open path create (get_key_handle path create m)

  unfoldable pub delete_found : ℕ → Option ℕ → Manager → Bool × Manager
  delete_found handle none m = (false, m)
  delete_found handle (some k) m = (
    true,
    record_event (deleted_key (m.store k).path handle) (record m {
      keys = remove k m.keys;
      deleted_paths = h.lower (m.store k).path ∷ m.deleted_paths;
    }),
  )

  unfoldable pub delete_key : ℕ → Manager → Bool × Manager
  delete_key handle m = delete_found handle (get_key handle m) m

  unfoldable pub list_subkeys : ℕ → ℕ → Manager → List Text × Manager
  list_subkeys key handle m = (get_subkeys key m, record_event (listed (m.store key).path handle) m)
