-- ===== src/Registry/Subkeys.antt =====
-- The names of subkeys that `get_subkeys` of speakeasy/windows/regman.py gives.
use mathlib.Core.Path.{subst}
use speakeasy.Base.{
  ℕ, Bool, true, false, ◌||◌, List, [], ◌∷◌, ◌++◌, map, ◌==◌, ◌≡◌, refl, inl, inr, Bool-cases, All,
  All-append, length, drop,
}
use speakeasy.Handles.{Owner}
use speakeasy.Memory.Tag.{is_prefix}
use speakeasy.Registry.{Text, Host, same_text, is_in, is_empty, rstrip, first_part, backslash}
use speakeasy.Registry.Manager.{
  Manager, subkey_of, is_listed, add_subkey, collect_subkeys, get_subkeys, get_key_paths,
}

-- a name of a subkey: not empty, and with no backslash
abbrev pub IsName : Text → Type 0
IsName t = (is_empty t ≡ false) × All (λ c. (c == backslash) ≡ false) t

-- no two texts are the same in lower case
unfoldable pub IsDistinct : (Text → Text) → List Text → Type 0
IsDistinct lower [] = Unit {0}
IsDistinct lower (t ∷ texts) =
    All (λ u. same_text (lower u) (lower t) ≡ false) texts × IsDistinct lower texts

first_part-All : (t : Text) → All (λ c. (c == backslash) ≡ false) (first_part t)
unfolding first_part
first_part-All [] = tt
first_part-All (c ∷ cs) = elim (Bool-cases (c == backslash)) [
  | inl slash ↦ rw slash tt
  | inr other ↦ rw other (other, first_part-All cs)
]

IsDistinct-append :
    (lower : Text → Text) (texts : List Text) (t : Text)
    → IsDistinct lower texts
    → is_in (lower t) (map (λ s. lower s) texts) ≡ false
    → IsDistinct lower (texts ++ t ∷ [])
unfolding IsDistinct is_in
IsDistinct-append lower [] t distinct new = (tt, tt)
IsDistinct-append lower (u ∷ texts) t distinct new =
    elim (Bool-cases (same_text (lower t) (lower u))) [
      | inl same ↦
          cc (subst (λ b. (b || is_in (lower t) (map (λ s. lower s) texts)) ≡ false) same new)
      | inr other ↦
          let rest : is_in (lower t) (map (λ s. lower s) texts) ≡ false =
            subst (λ b. (b || is_in (lower t) (map (λ s. lower s) texts)) ≡ false) other new in
          (
            All-append (λ v. same_text (lower v) (lower u) ≡ false) texts (t ∷ []) distinct.0
                (other, tt),
            IsDistinct-append lower texts t distinct.1 rest,
          )
    ]

module _ (h : Host) (o : Owner) (reg_key : ℕ) where
  abbrev Good : List Text → Type 0
  Good subkeys = IsDistinct h.lower subkeys × All IsName subkeys

  add_subkey-Good :
      (sub : Text) (subkeys : List Text)
      → All (λ c. (c == backslash) ≡ false) sub
      → Good subkeys
      → Good (add_subkey h o reg_key sub subkeys)
  unfolding add_subkey is_listed
  add_subkey-Good sub subkeys no_slash good =
      elim (Bool-cases (is_empty sub || is_in (h.lower sub) (map (λ s. h.lower s) subkeys))) [
        | inl out ↦ rw out good
        | inr new ↦ rw new (added (is_empty sub) refl new)
      ]
    where
      added :
          (b : Bool)
          → is_empty sub ≡ b
          → (b || is_in (h.lower sub) (map (λ s. h.lower s) subkeys)) ≡ false
          → Good (subkeys ++ sub ∷ [])
      added true eq new = cc new
      added false eq new = (
        IsDistinct-append h.lower subkeys sub good.0 new,
        All-append IsName subkeys (sub ∷ []) good.1 ((eq, no_slash), tt),
      )

  collect_subkeys-Good :
      (parent : Text) (paths subkeys : List Text)
      → Good subkeys
      → Good (collect_subkeys h o reg_key parent subkeys paths)
  unfolding collect_subkeys subkey_of
  collect_subkeys-Good parent [] subkeys good = good
  collect_subkeys-Good parent (p ∷ paths) subkeys good =
      elim (Bool-cases (is_prefix (h.lower parent) (h.lower p))) [
        | inl below ↦ rw below (
            collect_subkeys-Good parent paths
              (add_subkey h o reg_key (first_part (drop (length parent) p)) subkeys)
              (add_subkey-Good (first_part (drop (length parent) p)) subkeys
                (first_part-All (drop (length parent) p)) good))
        | inr other ↦ rw other (collect_subkeys-Good parent paths subkeys good)
      ]

  -- The names of the subkeys of any key, in any state of the manager: none is empty, none has a
  -- backslash, and no two are the same in lower case.
  pub get_subkeys-IsDistinct :
      (key : ℕ) (m : Manager h o reg_key)
      → IsDistinct h.lower (get_subkeys h o reg_key key m)
        × All IsName (get_subkeys h o reg_key key m)
  unfolding get_subkeys IsDistinct
  get_subkeys-IsDistinct key m =
      collect_subkeys-Good (rstrip (m.store key).path ++ backslash ∷ [])
        (get_key_paths h o reg_key m) [] (tt, tt)
