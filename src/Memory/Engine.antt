-- ===== src/Memory/Engine.antt =====
-- The engine that the memory manager calls: the CPU emulator behind
-- speakeasy/engines/unicorn_eng.py, which is not part of the repository. Its mapped regions are
-- what the manager relies on.
pub mod PageList
use speakeasy.Base.{
  ℕ, suc, ◌+◌, ◌*◌, ◌%◌, ◌^◌, ◌≤◌, ◌<◌, Bool, true, false, not, ◌&&◌, ◌||◌, ◌≡◌, Option, some, List,
  [], ◌∷◌, ltb, leb, All,
}
use speakeasy.Memory.Pages.{page_size}

-- a region is its first and its last address
abbrev pub Region : Type 0
Region = ℕ × ℕ

-- whole pages
abbrev pub IsWhole : Region → Type 0
IsWhole r = (r.0 % page_size ≡ 0) × (suc r.1 % page_size ≡ 0)

unfoldable pub covered : List Region → ℕ → Bool
covered [] p = false
covered ((first, last) ∷ regions) p = (leb first p && leb p last) || covered regions p

abbrev pub in_range : ℕ → ℕ → ℕ → Bool
in_range base size p = leb base p && ltb p (base + size)

-- base and size as the engine wants them
pub record IsPageRange (base size : ℕ) : Type 0 where
  pub base_aligned : base % page_size ≡ 0
  pub size_aligned : size % page_size ≡ 0
  pub nonempty : 0 < size
  pub in_space : base + size ≤ 2 ^ 64

pub record Engine : Type 1 where
  pub State : Type 0
  -- mem_regions, mem_map and mem_unmap; `none` stands for UcError
  pub regions : State → List Region
  pub map_range : State → ℕ → ℕ → ℕ → Option State
  pub unmap_range : State → ℕ → ℕ → Option State
  -- regions are whole pages
  pub regions_aligned : (e : State) → All IsWhole (regions e)
  -- a map adds the range to the mapped addresses
  pub map_covers :
      (e e' : State) (base size perms p : ℕ)
      → map_range e base size perms ≡ some e'
      → covered (regions e') p ≡ (covered (regions e) p || in_range base size p)
  -- an unmap takes the range from the mapped addresses
  pub unmap_covers :
      (e e' : State) (base size p : ℕ)
      → unmap_range e base size ≡ some e'
      → covered (regions e') p ≡ (covered (regions e) p && not (in_range base size p))
  -- a range that is not whole pages is refused
  pub map_checks :
      (e e' : State) (base size perms : ℕ)
      → map_range e base size perms ≡ some e'
      → IsPageRange base size
  -- a whole free page range can be mapped
  pub map_free :
      (e : State) (base size perms : ℕ)
      → IsPageRange base size
      → ((p : ℕ) → in_range base size p ≡ true → covered (regions e) p ≡ false)
      → (e' : State) × (map_range e base size perms ≡ some e')
  -- a whole mapped page range can be unmapped
  pub unmap_mapped :
      (e : State) (base size : ℕ)
      → IsPageRange base size
      → ((p : ℕ) → in_range base size p ≡ true → covered (regions e) p ≡ true)
      → (e' : State) × (unmap_range e base size ≡ some e')
