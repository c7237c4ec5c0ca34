-- ===== src/Registry/Values.antt =====
-- The values of the keys: `read_value`, `write_value` and `delete_value` of `RegistryManager` of
-- speakeasy/windows/regman.py.
use mathlib.Core.Path.{subst}
use speakeasy.Base.{
  ℕ, Bool, true, false, Option, none, some, List, [], ◌∷◌, ◌++◌, if◌then◌else◌, ◌≡◌, refl, ap, ◌∙◌,
  inl, inr, Bool-cases, ==_iff, arith,
}
use speakeasy.Handles.{Owner}
use speakeasy.Registry.{
  Text, Host, same_text, is_in, Data, binary, RegValue, RegKey, normalize_value, get_bytes,
  names_of, find_value, get_value, data_bytes, normalize_binary, is_string_type, is_number_type,
  is_type, reg_binary,
}
use speakeasy.Registry.Manager.{
  Event, Manager, record_event, read_event, written, deleted_value, set_values,
}

-- the first value of one of the names takes a new type and new data
unfoldable pub update_first :
    Host → List Text → (RegValue → RegValue) → List RegValue → List RegValue
update_first h names f [] = []
update_first h names f (v ∷ values) =
    let rest = update_first h names f values in
    if is_in (h.lower v.name) names then f v ∷ values else v ∷ rest

-- key.values.remove(val), for the first value of one of the names
unfoldable pub remove_first : Host → List Text → List RegValue → List RegValue
remove_first h names [] = []
remove_first h names (v ∷ values) =
    let rest = remove_first h names values in
    if is_in (h.lower v.name) names then values else v ∷ rest

pub same_text_refl : (t : Text) → same_text t t ≡ true
unfolding same_text
same_text_refl [] = refl
same_text_refl (c ∷ cs) = ground (arith, same_text_refl cs)

module _ (h : Host) (o : Owner) (reg_key : ℕ) where
  unfoldable pub read_bytes : ℕ → Option RegValue → Option (List ℕ)
  read_bytes width none = none
  read_bytes width (some v) = some (get_bytes h v width)

  unfoldable pub read_value :
      ℕ → Text → ℕ → ℕ → ℕ → Option ℕ → Manager h o reg_key → Option RegValue × Manager h o reg_key
  read_value key name width handle buffer size m =
      let val = get_value h (m.store key) name in
      (
        val,
        record_event h o reg_key
            (read_event (m.store key).path name (read_bytes width val) handle buffer size) m,
      )

  abbrev set_type : Option ℕ → RegValue → RegValue
  set_type value_type v = record v { value_type = value_type }

  abbrev set_data : Data → RegValue → RegValue
  set_data contents v = record v { contents = contents }

  -- The type of an existing value changes before its data, also if the data is an error.
  unfoldable pub write_values :
      Text → Option ℕ → Option RegValue → Option Data → List RegValue → Bool × List RegValue
  write_values name value_type (some old) (some contents) values = (
    true,
    update_first h (names_of h name) (λ v. set_data contents (set_type value_type v)) values,
  )
  write_values name value_type (some old) none values =
      (false, update_first h (names_of h name) (set_type value_type) values)
  write_values name value_type none (some contents) values =
      (true, values ++ record { name = name; value_type = value_type; contents = contents } ∷ [])
  write_values name value_type none none values = (false, values)

  -- if the write has no error, with the new values
  unfoldable pub write_value :
      ℕ → Text → Option ℕ → Data → List ℕ → ℕ → ℕ → Manager h o reg_key → Bool × Manager h o reg_key
  write_value key name value_type contents raw handle buffer m =
      let values = (m.store key).values in
      let (done, values') =
        write_values name value_type (get_value h (m.store key) name)
          (normalize_value h value_type contents) values in
      let m' = set_values h o reg_key key values' m in
      (
        done,
        if done
            then record_event h o reg_key (written (m.store key).path name raw handle buffer) m'
            else m',
      )

  unfoldable pub delete_found :
      ℕ → Text → ℕ → Option RegValue → Manager h o reg_key → Bool × Manager h o reg_key
  delete_found key name handle none m = (false, m)
  delete_found key name handle (some v) m = (
    true,
    record_event h o reg_key (deleted_value (m.store key).path name handle)
        (set_values h o reg_key key (remove_first h (names_of h name) (m.store key).values) m),
  )

  unfoldable pub delete_value : ℕ → Text → ℕ → Manager h o reg_key → Bool × Manager h o reg_key
  delete_value key name handle m = delete_found key name handle (get_value h (m.store key) name) m

  -- the data and the type of a value
  abbrev Typed : Option ℕ → Data → Option RegValue → Type 0
  Typed value_type contents v =
      (n : Text) × (v ≡ some (record { name = n; value_type = value_type; contents = contents }))

  find-update :
      (names : List Text) (value_type : Option ℕ) (contents : Data) (values : List RegValue)
      (old : RegValue)
      → find_value h names values ≡ some old
      → Typed value_type contents (
          find_value h names
            (update_first h names (λ v. set_data contents (set_type value_type v)) values))
  unfolding find_value update_first
  find-update names value_type contents [] old eq = cc eq
  find-update names value_type contents (v ∷ values) old eq =
      elim (Bool-cases (is_in (h.lower v.name) names)) [
        | inl here ↦ rw (here, here) (v.name, refl)
        | inr other ↦
            let later : find_value h names values ≡ some old =
              subst (λ b. (if b then some v else find_value h names values) ≡ some old) other eq in
            rw (other, other) (find-update names value_type contents values old later)
      ]

  find-append :
      (names : List Text) (values : List RegValue) (v : RegValue)
      → find_value h names values ≡ none
      → is_in (h.lower v.name) names ≡ true
      → find_value h names (values ++ v ∷ []) ≡ some v
  unfolding find_value
  find-append names [] v eq here = rw here refl
  find-append names (u ∷ values) v eq here = elim (Bool-cases (is_in (h.lower u.name) names)) [
    | inl found ↦
        cc (subst (λ b. (if b then some u else find_value h names values) ≡ none) found eq)
    | inr other ↦
        let later : find_value h names values ≡ none =
          subst (λ b. (if b then some u else find_value h names values) ≡ none) other eq in
        rw other (find-append names values v later here)
  ]

  names_of-name : h.lower [] ≡ [] → (name : Text) → is_in (h.lower name) (names_of h name) ≡ true
  unfolding names_of is_in same_text
  names_of-name empty [] = rw empty refl
  names_of-name empty (c ∷ cs) = rw (same_text_refl (h.lower (c ∷ cs))) refl

  write_values-Typed :
      (empty : h.lower [] ≡ []) (name : Text) (value_type : Option ℕ) (contents : Data)
      (values : List RegValue) (old : Option RegValue)
      → find_value h (names_of h name) values ≡ old
      → Typed value_type contents (
          find_value h
            (names_of h name)
            (write_values name value_type old (some contents) values).1)
  unfolding write_values
  write_values-Typed empty name value_type contents values (some old) eq =
      find-update (names_of h name) value_type contents values old eq
  write_values-Typed empty name value_type contents values none eq =
      (name, find-append (names_of h name) values _ eq (names_of-name empty name))

  event-store :
      (b : Bool) (e : Event) (m : Manager h o reg_key)
      → (if b then record_event h o reg_key e m else m).store ≡ m.store
  unfolding record_event
  event-store false e m = refl
  event-store true e m = elim (Bool-cases m.has_emu) [
    | inl emu ↦ rw emu refl
    | inr no_emu ↦ rw no_emu refl
  ]

  set_values-store :
      (key : ℕ) (values : List RegValue) (m : Manager h o reg_key)
      → ((set_values h o reg_key key values m).store key).values ≡ values
  unfolding set_values
  set_values-store key values m = rw ((==_iff key key).1 refl) refl

  stored :
      (key : ℕ) (name : Text) (value_type : Option ℕ) (contents : Data) (d : Data) (raw : List ℕ)
      (handle buffer : ℕ) (m : Manager h o reg_key)
      → normalize_value h value_type contents ≡ some d
      → ((write_value key name value_type contents raw handle buffer m).1.store key).values
        ≡ (write_values name value_type
            (get_value h (m.store key) name)
            (some d)
            (m.store key).values).1
  unfolding write_value
  stored key name value_type contents d raw handle buffer m eq = rw eq (
      ap (λ (st : ℕ → RegKey). (st key).values)
        (event-store new.0 (written (m.store key).path name raw handle buffer)
          (set_values h o reg_key key new.1 m))
      ∙ set_values-store key new.1 m)
    where
      new : Bool × List RegValue
      new =
          write_values name value_type (get_value h (m.store key) name) (some d)
            (m.store key).values

  -- A value that `write_value` writes under a name, with data that its type allows and on any key, is
  -- found under this name with the type and the data that were written, whether or not the key had a
  -- value of this name before. The lower case of the empty text is assumed to be empty.
  pub get_value-write_value :
      (empty : h.lower [] ≡ []) (key : ℕ) (name : Text) (value_type : Option ℕ) (contents d : Data)
      (raw : List ℕ) (handle buffer : ℕ) (m : Manager h o reg_key)
      → normalize_value h value_type contents ≡ some d
      → (n : Text) × (get_value h
            ((write_value key name value_type contents raw handle buffer m).1.store key)
            name
          ≡ some (record { name = n; value_type = value_type; contents = d }))
  unfolding get_value
  get_value-write_value empty key name value_type contents d raw handle buffer m eq =
      let values = stored key name value_type contents d raw handle buffer m eq in
      let found =
        write_values-Typed empty name value_type d (m.store key).values
          (find_value h (names_of h name) (m.store key).values) refl in
      (found.0, ap (λ vs. find_value h (names_of h name) vs) values ∙ found.1)

  -- Bytes that `write_value` writes as REG_BINARY are the bytes that the registry functions return for
  -- the value, for any width of characters, where base64 decodes what it encodes.
  pub get_bytes-write_value :
      (empty : h.lower [] ≡ [])
      (base64 : (bytes : List ℕ) → h.b64decode (h.b64encode bytes) ≡ bytes) (key : ℕ) (name : Text)
      (bytes raw : List ℕ) (handle buffer width : ℕ) (m : Manager h o reg_key)
      → (v : RegValue) × (get_value h
            ((write_value key name (some reg_binary) (binary bytes) raw handle buffer m).1.store
              key)
            name
          ≡ some v)
        × (get_bytes h v width ≡ bytes)
  unfolding get_bytes data_bytes normalize_value normalize_binary is_string_type is_number_type
      is_type
  get_bytes-write_value empty base64 key name bytes raw handle buffer width m =
      let found =
        get_value-write_value empty key name (some reg_binary) (binary bytes)
          (binary (h.b64encode bytes)) raw handle buffer m refl in
      (_, found.1, base64 bytes)
