-- ===== src/Registry/Keys.antt =====
-- The creation and the deletion of keys of speakeasy/windows/regman.py.
use mathlib.Core.Path.{subst}
use speakeasy.Base.{
  ℕ, suc, ◌<◌, true, false, ◌||◌, Option, none, some, List, [], ◌∷◌, ◌++◌, ◌==◌, if◌then◌else◌, ◌≡◌,
  refl, ap, ◌∙◌, inl, inr, Bool-cases, arith, All, All-append, All-map,
}
use speakeasy.Handles.{Owner}
use speakeasy.Registry.{Text, Host, RegKey, RegValue, is_in, normalize_reg_path}
use speakeasy.Registry.Values.{same_text_refl}
use speakeasy.Registry.Manager.{
  Event, KeyConfig, key_with, key_of_config, config_values, config_of, find_config, Manager,
  Outcome, ok, error, record_event, new_key, find_key, get_key_from_path, get_key_from_config,
  append_key, append_new, create_from, found_or_create, create_key, get_key, delete_found,
  delete_key,
}

module _ (h : Host) (o : Owner) (reg_key : ℕ) where
  -- the keys of the list are objects that exist
  abbrev pub IsFresh : Manager h o reg_key → Type 0
  IsFresh m = All (λ k. k < m.next_key) m.keys

  -- the store with a new object
  abbrev extend : (ℕ → RegKey) → ℕ → RegKey → ℕ → RegKey
  extend store next key k = if k == next then key else store k

  find_key-extend :
      (pattern : Text) (store : ℕ → RegKey) (next : ℕ) (key : RegKey) (keys : List ℕ)
      → All (λ k. k < next) keys
      → find_key h o reg_key pattern store keys ≡ none
      → h.fnmatch (h.lower key.path) pattern ≡ true
      → find_key h o reg_key pattern (extend store next key) (keys ++ next ∷ []) ≡ some next
  unfolding find_key
  find_key-extend pattern store next key [] fresh none_before matches =
      let here : (next == next) ≡ true = ground arith in rw (here, matches) refl
  find_key-extend pattern store next key (k ∷ keys) fresh none_before matches =
      let old : (k == next) ≡ false = ground (arith, fresh.0) in
      elim (Bool-cases (h.fnmatch (h.lower (store k).path) pattern)) [
        | inl found ↦ cc (
            subst (λ b. (if b then some k else find_key h o reg_key pattern store keys) ≡ none)
              found none_before)
        | inr other ↦
            let later : find_key h o reg_key pattern store keys ≡ none =
              subst (λ b. (if b then some k else find_key h o reg_key pattern store keys) ≡ none)
                other none_before in
            rw (old, other) (find_key-extend pattern store next key keys fresh.1 later matches)
      ]

  -- a manager in which the creation of a path gives a key that is there
  abbrev Stays : Text → ℕ → Manager h o reg_key → Type 0
  Stays path k m = (create_key h o reg_key path m ≡ (ok k, m)) × IsFresh m

  -- a key, if there is no error
  abbrev Found : Text → Outcome h o reg_key ℕ × Manager h o reg_key → Type 0
  Found path (ok k, m) = Stays path k m
  Found path (error, m) = Unit {0}

  create_key-found :
      (path : Text) (k : ℕ) (m : Manager h o reg_key)
      → get_key_from_path h o reg_key (normalize_reg_path h path) m ≡ some k
      → create_key h o reg_key path m ≡ (ok k, m)
  unfolding create_key found_or_create
  create_key-found path k m eq = rw eq refl

  fresh_after :
      (m : Manager h o reg_key)
      → IsFresh m
      → All (λ k. k < suc m.next_key) (m.keys ++ m.next_key ∷ [])
  fresh_after m fresh =
      All-append (λ k. k < suc m.next_key) m.keys (m.next_key ∷ [])
        (All-map (λ k. k < m.next_key) (λ k. k < suc m.next_key) (λ k less. omega (arith, less))
          m.keys fresh)
        (omega arith, tt)

  -- the path of a key, if there is one
  abbrev HasPath : Text → Outcome h o reg_key (Option RegKey) → Type 0
  HasPath path error = Unit {0}
  HasPath path (ok none) = Unit {0}
  HasPath path (ok (some key)) = key.path ≡ path

  module _ (path : Text)
      (matches : h.fnmatch
          (h.lower (normalize_reg_path h path))
          (h.lower (normalize_reg_path h (normalize_reg_path h path)))
        ≡ true)
      (m : Manager h o reg_key) (fresh : IsFresh m)
      (absent : get_key_from_path h o reg_key (normalize_reg_path h path) m ≡ none) where
    appended :
        (key : RegKey)
        → key.path ≡ normalize_reg_path h path
        → find_key h o reg_key
            (h.lower (normalize_reg_path h (normalize_reg_path h path)))
            (extend m.store m.next_key key)
            (m.keys ++ m.next_key ∷ [])
          ≡ some m.next_key
    unfolding get_key_from_path
    appended key same =
        find_key-extend (h.lower (normalize_reg_path h (normalize_reg_path h path))) m.store
          m.next_key key m.keys fresh absent (rw same matches)

    -- each branch of `create_from` that gives a key appends it
    create_from-Found :
        (r : Outcome h o reg_key (Option RegKey))
        → HasPath (normalize_reg_path h path) r
        → Found path (create_from h o reg_key (normalize_reg_path h path) r m)
    unfolding create_from append_new append_key new_key get_key_from_path
    create_from-Found error paths = tt
    create_from-Found (ok none) paths = (
      create_key-found path m.next_key _
          (appended (record { path = normalize_reg_path h path; values = [] }) refl),
      fresh_after m fresh,
    )
    create_from-Found (ok (some key)) paths =
        (create_key-found path m.next_key _ (appended key paths), fresh_after m fresh)

  key_with-HasPath :
      (path : Text) (values : Option (List RegValue))
      → HasPath path (key_with h o reg_key path values)
  unfolding key_with
  key_with-HasPath path none = tt
  key_with-HasPath path (some values) = refl

  config-HasPath :
      (path : Text) (c : Option KeyConfig) → HasPath path (key_of_config h o reg_key path c)
  unfolding key_of_config
  config-HasPath path none = tt
  config-HasPath path (some c) = key_with-HasPath path (config_values h o reg_key c.values)

  get_key_from_config-HasPath :
      (path : Text) (m : Manager h o reg_key)
      → HasPath path (get_key_from_config h o reg_key path m)
  unfolding get_key_from_config
  get_key_from_config-HasPath path m = elim (Bool-cases (is_in (h.lower path) m.deleted_paths)) [
    | inl deleted ↦ rw deleted tt
    | inr kept ↦
        rw kept
          (config-HasPath path (find_config h o reg_key path (config_of h o reg_key m.config)))
  ]

  found_or_create-Found :
      (path : Text) (m : Manager h o reg_key)
      → h.fnmatch
          (h.lower (normalize_reg_path h path))
          (h.lower (normalize_reg_path h (normalize_reg_path h path)))
        ≡ true
      → IsFresh m
      → (k : Option ℕ) → get_key_from_path h o reg_key (normalize_reg_path h path) m ≡ k
      → Found path (found_or_create h o reg_key (normalize_reg_path h path) k m)
  unfolding found_or_create
  found_or_create-Found path m matches fresh (some k) eq = (create_key-found path k m eq, fresh)
  found_or_create-Found path m matches fresh none eq =
      create_from-Found path matches m fresh eq
        (get_key_from_config h o reg_key (normalize_reg_path h path) m)
        (get_key_from_config-HasPath (normalize_reg_path h path) m)

  -- A key that `create_key` gives for a path, found, from the configuration or new, is the key that it
  -- gives for the path again, without a change of the state, and the listed keys stay objects that
  -- exist. The normal form of the path is assumed to match itself as a pattern of fnmatch, which holds
  -- for a path without the special characters of patterns.
  pub create_key-again :
      (path : Text) (m m' : Manager h o reg_key) (k : ℕ)
      → h.fnmatch
          (h.lower (normalize_reg_path h path))
          (h.lower (normalize_reg_path h (normalize_reg_path h path)))
        ≡ true
      → All (λ j. j < m.next_key) m.keys
      → create_key h o reg_key path m ≡ (ok k, m')
      → (create_key h o reg_key path m' ≡ (ok k, m')) × All (λ j. j < m'.next_key) m'.keys
  unfolding create_key
  create_key-again path m m' k matches fresh eq =
      subst (λ r. Found path r) eq
        (found_or_create-Found path m matches fresh
          (get_key_from_path h o reg_key (normalize_reg_path h path) m) refl)

  event-deleted_paths :
      (e : Event) (m : Manager h o reg_key)
      → (record_event h o reg_key e m).deleted_paths ≡ m.deleted_paths
  unfolding record_event
  event-deleted_paths e m = elim (Bool-cases m.has_emu) [
    | inl emu ↦ rw emu refl
    | inr no_emu ↦ rw no_emu refl
  ]

  deleted_config :
      (path : Text) (m : Manager h o reg_key)
      → is_in (h.lower path) m.deleted_paths ≡ true
      → get_key_from_config h o reg_key path m ≡ ok none
  unfolding get_key_from_config
  deleted_config path m eq = rw eq refl

  -- The deletion of the key of a handle succeeds, and then the configuration gives no key for the path of
  -- this key in upper or lower case.
  pub delete_key-get_key_from_config :
      (handle k : ℕ) (path : Text) (m : Manager h o reg_key)
      → get_key h o reg_key handle m ≡ some k
      → h.lower path ≡ h.lower (m.store k).path
      → ((delete_key h o reg_key handle m).0 ≡ true)
        × (get_key_from_config h o reg_key path (delete_key h o reg_key handle m).1 ≡ ok none)
  unfolding delete_key delete_found is_in
  delete_key-get_key_from_config handle k path m found same = rw found (
    refl,
    deleted_config path _ (
        ap (λ ps. is_in (h.lower path) ps) (event-deleted_paths _ _)
        ∙ ap (λ t. is_in t (h.lower (m.store k).path ∷ m.deleted_paths)) same
        ∙ ap (λ b. b || is_in (h.lower (m.store k).path) m.deleted_paths)
            (same_text_refl (h.lower (m.store k).path))),
  )
