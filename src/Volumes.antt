-- ===== src/Volumes.antt =====
-- speakeasy/volumes.py: the volume option. The classes Path and PureWindowsPath of pathlib, which
-- make a path of a text and can normalise it, are parameters.
mod Tests
use speakeasy.Base.{
  ℕ, zero, suc, ◌+◌, ◌≤◌, ◌<◌, ◌≡◌, ◌≢◌, refl, ap, ◌∙◌, inl, inr, Bool, true, false, ◌&&◌, Option,
  none, some, List, [], ◌∷◌, ◌++◌, length, take, drop, ◌==◌, if◌then◌else◌, Bool-cases,
  Option-cases, ==_iff, All, arith,
}

pub data VolumeError : Type 0 where
  empty_spec missing_separator empty_host_path empty_guest_path : VolumeError

-- a host path and a path of the guest, or the error
pub data Volume (HostPath PureWindowsPath : Type 0) : Type 0 where
  value_error : VolumeError → Volume HostPath PureWindowsPath
  volume : HostPath → PureWindowsPath → Volume HostPath PureWindowsPath

-- `len(spec) >= 2 and spec[1] == ":"`
unfoldable pub has_drive : List ℕ → Bool
has_drive (drive ∷ c ∷ spec) = c == b':'
has_drive spec = false

-- spec.find(":"): the parts before and after the first separator
unfoldable pub split_at_colon : List ℕ → Option (List ℕ × List ℕ)
split_at_colon [] = none
split_at_colon (c ∷ spec) =
    let rest : Option (List ℕ × List ℕ) = elim (split_at_colon spec) [
      | none ↦ none
      | some (host, guest) ↦ some (c ∷ host, guest)
    ] in
    if c == b':' then some ([], spec) else rest

-- the separator is looked for behind the drive letter of the host path
unfoldable pub split_spec : List ℕ → Option (List ℕ × List ℕ)
split_spec spec =
    if has_drive spec
    then (elim (split_at_colon (drop 2 spec)) [
      | none ↦ none
      | some (host, guest) ↦ some (take 2 spec ++ host, guest)
    ])
    else split_at_colon spec

module _ {HostPath PureWindowsPath : Type 0} (path : List ℕ → HostPath)
    (pure_windows_path : List ℕ → PureWindowsPath) where
  unfoldable pub check_paths : List ℕ → List ℕ → Volume HostPath PureWindowsPath
  check_paths [] guest = value_error empty_host_path
  check_paths (c ∷ host) [] = value_error empty_guest_path
  check_paths (c ∷ host) (d ∷ guest) = volume (path (c ∷ host)) (pure_windows_path (d ∷ guest))

  unfoldable pub check_split : Option (List ℕ × List ℕ) → Volume HostPath PureWindowsPath
  check_split none = value_error missing_separator
  check_split (some (host, guest)) = check_paths host guest

  unfoldable pub parse_volume_spec : List ℕ → Volume HostPath PureWindowsPath
  parse_volume_spec [] = value_error empty_spec
  parse_volume_spec (c ∷ spec) = check_split (split_spec (c ∷ spec))

-- a split joins to the text again
abbrev Joins : List ℕ → Option (List ℕ × List ℕ) → Type 0
Joins spec none = Unit
Joins spec (some (host, guest)) = spec ≡ host ++ b':' ∷ guest

split_at_colon-Joins : (spec : List ℕ) → Joins spec (split_at_colon spec)
unfolding split_at_colon
split_at_colon-Joins [] = tt
split_at_colon-Joins (c ∷ spec) = elim (Bool-cases (c == b':')) [
  | inl colon ↦ rw colon (ap (λ x. x ∷ spec) ((==_iff c b':').0 colon))
  | inr other ↦ elim (Option-cases (split_at_colon spec)) [
    | inl none_there ↦ rw (other, none_there) tt
    | inr (parts, found) ↦
        let ih : Joins spec (some parts) = rw found at (split_at_colon-Joins spec) in
        rw (other, found) (ap (λ l. c ∷ l) ih)
  ]
]

split_spec-Joins : (spec : List ℕ) → Joins spec (split_spec spec)
unfolding split_spec has_drive
split_spec-Joins [] = split_at_colon-Joins []
split_spec-Joins (c ∷ []) = split_at_colon-Joins (c ∷ [])
split_spec-Joins (c ∷ c' ∷ spec) = elim (Bool-cases (c' == b':')) [
  | inr plain ↦ rw plain (split_at_colon-Joins (c ∷ c' ∷ spec))
  | inl drive ↦ elim (Option-cases (split_at_colon spec)) [
    | inl none_there ↦ rw (drive, none_there) tt
    | inr (parts, found) ↦
        let ih : Joins spec (some parts) = rw found at (split_at_colon-Joins spec) in
        rw (drive, found) (ap (λ l. c ∷ c' ∷ l) ih)
  ]
]

module _ {HostPath PureWindowsPath : Type 0} (path : List ℕ → HostPath)
    (pure_windows_path : List ℕ → PureWindowsPath) where
  -- what a parsed volume is of its specification
  unfoldable IsParsed : List ℕ → Volume HostPath PureWindowsPath → Type 0
  IsParsed spec (value_error e) = Unit
  IsParsed spec (volume p g) =
      (host : List ℕ) × (guest : List ℕ) × (spec ≡ host ++ b':' ∷ guest)
      × (0 < length host)
      × (0 < length guest)
      × (p ≡ path host)
      × (g ≡ pure_windows_path guest)

  check_paths-IsParsed :
      (spec host guest : List ℕ)
      → spec ≡ host ++ b':' ∷ guest
      → IsParsed spec (check_paths path pure_windows_path host guest)
  unfolding check_paths IsParsed
  check_paths-IsParsed spec [] guest e = tt
  check_paths-IsParsed spec (c ∷ host) [] e = tt
  check_paths-IsParsed spec (c ∷ host) (d ∷ guest) e =
      (c ∷ host, d ∷ guest, e, omega arith, omega arith, refl, refl)

  check_split-IsParsed :
      (spec : List ℕ) (parts : Option (List ℕ × List ℕ))
      → Joins spec parts
      → IsParsed spec (check_split path pure_windows_path parts)
  unfolding check_split IsParsed
  check_split-IsParsed spec none h = tt
  check_split-IsParsed spec (some (host, guest)) h = check_paths-IsParsed spec host guest h

  parse_volume_spec-IsParsed :
      (spec : List ℕ) → IsParsed spec (parse_volume_spec path pure_windows_path spec)
  unfolding parse_volume_spec IsParsed
  parse_volume_spec-IsParsed [] = tt
  parse_volume_spec-IsParsed (c ∷ spec) =
      check_split-IsParsed (c ∷ spec) (split_spec (c ∷ spec)) (split_spec-Joins (c ∷ spec))

  -- Where the parse of a specification succeeds, the specification is two nonempty texts with a colon
  -- between them, and the two paths are what Path and PureWindowsPath make of these texts.
  pub parse_volume_spec-volume :
      (spec : List ℕ) (p : HostPath) (g : PureWindowsPath)
      → parse_volume_spec path pure_windows_path spec ≡ volume p g
      → (host : List ℕ) × (guest : List ℕ) × (spec ≡ host ++ b':' ∷ guest)
        × (0 < length host)
        × (0 < length guest)
        × (p ≡ path host)
        × (g ≡ pure_windows_path guest)
  unfolding IsParsed
  parse_volume_spec-volume spec p g e = rw e at (parse_volume_spec-IsParsed spec)
