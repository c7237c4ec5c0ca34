-- ===== src/Volumes/Tests.antt =====
-- Specifications with and without drive letters.
use speakeasy.Base.{ℕ, ◌≡◌, ◌<◌, refl, List, [], ◌∷◌, ◌++◌, length, ◌==◌, if◌then◌else◌}
use speakeasy.Volumes.{
  volume, value_error, missing_separator, has_drive, split_at_colon, split_spec, check_paths,
  check_split, parse_volume_spec, parse_volume_spec-volume,
}

program : Unit {0}
unfolding has_drive split_at_colon split_spec check_paths check_split parse_volume_spec
program = tt

-- "\\s" and "C:/g"
abbrev rest : List ℕ
rest = 92 ∷ b's' ∷ []

abbrev guest : List ℕ
guest = b':' ∷ b'/' ∷ b'g' ∷ []

-- a path of the host keeps its text here, and a path of Windows has a backslash for each slash
abbrev path : List ℕ → List ℕ
path text = text

abbrev pure_windows_path : List ℕ → List ℕ
pure_windows_path [] = []
pure_windows_path (c ∷ text) = (if c == b'/' then 92 else c) ∷ pure_windows_path text

parsed :
    parse_volume_spec path pure_windows_path (b'C' ∷ b':' ∷ rest ++ b':' ∷ b'C' ∷ guest)
    ≡ volume (b'C' ∷ b':' ∷ rest) (b'C' ∷ b':' ∷ 92 ∷ b'g' ∷ [])
unfolding program
parsed = refl

parse_volume_spec-volume_example :
    (h : List ℕ) × (g : List ℕ) × ((b'C' ∷ b':' ∷ rest ++ b':' ∷ b'C' ∷ guest) ≡ h ++ b':' ∷ g)
    × (0 < length h)
    × (0 < length g)
    × ((b'C' ∷ b':' ∷ rest) ≡ path h)
    × ((b'C' ∷ b':' ∷ 92 ∷ b'g' ∷ []) ≡ pure_windows_path g)
parse_volume_spec-volume_example =
    parse_volume_spec-volume path pure_windows_path (b'C' ∷ b':' ∷ rest ++ b':' ∷ b'C' ∷ guest)
      (b'C' ∷ b':' ∷ rest) (b'C' ∷ b':' ∷ 92 ∷ b'g' ∷ []) parsed

values :
    parse_volume_spec path pure_windows_path (b'C' ∷ b':' ∷ rest) ≡ value_error missing_separator
unfolding program
values = refl
