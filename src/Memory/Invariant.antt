-- ===== src/Memory/Invariant.antt =====
-- What holds of a `MemoryManager` of speakeasy/memmgr.py between calls.
pub mod Mapping
pub mod Blocks
pub mod Small
pub mod Marks
pub mod Freeing
pub mod Reserving
pub mod Success
use speakeasy.Base.{
  ℕ, ◌+◌, ◌%◌, ◌≤◌, ◌<◌, ◌^◌, Bool, true, false, ◌≡◌, ◌⊎◌, inl, inr, Option, none, some, List, [],
  ◌∷◌, ◌++◌, arith, All, All-append, All-map, ◌&&◌, ◌||◌, ltb, leb,
}
use speakeasy.Memory.Pages.{page_size}
use speakeasy.Memory.Engine.{Engine, covered, in_range}
use speakeasy.Memory.State.{MemMap, Manager}
use speakeasy.Memory.Search.{IsAligned, IsFree, is_taken}

abbrev pub IsApart : ℕ → ℕ → ℕ → ℕ → Type 0
IsApart base size base' size' = (base + size ≤ base') ⊎ (base' + size' ≤ base)

abbrev pub IsSameBlock : MemMap → MemMap → Type 0
IsSameBlock m n = (m.block_base ≡ n.block_base) × (m.block_size ≡ n.block_size)

abbrev pub AreBlocksApart : MemMap → MemMap → Type 0
AreBlocksApart m n = IsApart m.block_base m.block_size n.block_base n.block_size

-- two allocations share no byte, and lie in one block or in blocks that share no byte
abbrev pub AreApart : MemMap → MemMap → Type 0
AreApart m n = IsApart m.base m.size n.base n.size × (IsSameBlock m n ⊎ AreBlocksApart m n)

abbrev pub Pairwise {ℓ} : (MemMap → MemMap → Type ℓ) → List MemMap → Type ℓ
Pairwise R [] = Unit
Pairwise R (m ∷ ms) = All (R m) ms × Pairwise R ms

pub swap-IsApart : (a n b m : ℕ) → IsApart a n b m → IsApart b m a n
swap-IsApart a n b m (inl h) = inr h
swap-IsApart a n b m (inr h) = inl h

module _ (g : Engine) where
  abbrev pub IsMapped : g.State → ℕ → ℕ → Type 0
  IsMapped e base size = (p : ℕ) → in_range base size p ≡ true → covered (g.regions e) p ≡ true

  -- An allocation lies in its block, the block is whole pages, and the engine maps the block.
  abbrev pub IsPlaced : g.State → MemMap → Type 0
  IsPlaced e m =
      (m.block_base ≤ m.base)
      × (m.base + m.size ≤ m.block_base + m.block_size)
      × (0 < m.size)
      × (m.block_base % page_size ≡ 0)
      × (m.block_size % page_size ≡ 0)
      × (m.block_base + m.block_size ≤ 2 ^ 64)
      × IsMapped e m.block_base m.block_size

  -- an allocation of the shared block ends where the block is used up, any other is elsewhere
  abbrev pub IsBelowOffset : Manager g → MemMap → Type 0
  IsBelowOffset s m =
      ((m.block_base ≡ s.block_base)
        × (m.block_size ≡ page_size)
        × (m.base + m.size ≤ s.block_base + s.block_offset))
      ⊎ IsApart s.block_base page_size m.block_base m.block_size

  pub record HasBlock (s : Manager g) : Type 0 where
    pub is_page : s.block_size ≡ page_size
    pub aligned : s.block_base % page_size ≡ 0
    pub in_space : s.block_base + page_size ≤ 2 ^ 64
    pub is_mapped : IsMapped s.engine s.block_base page_size
    pub below : All (IsBelowOffset s) s.maps

  pub record IsSound (s : Manager g) : Type 0 where
    pub placed : All (IsPlaced s.engine) s.maps
    pub apart : Pairwise AreApart s.maps
    pub shared : (s.block_base ≡ 0) ⊎ HasBlock s
    pub small_block : s.block_size ≤ page_size
    pub reserves : All IsAligned s.mem_reserves

pub Pairwise-append {ℓ} :
    (R : MemMap → MemMap → Type ℓ) (ms : List MemMap) (n : MemMap)
    → Pairwise R ms
    → All (λ m. R m n) ms
    → Pairwise R (ms ++ n ∷ [])
Pairwise-append R [] n p a = (tt, tt)
Pairwise-append R (m ∷ ms) n p a =
    (All-append (R m) ms (n ∷ []) p.0 (a.0, tt), Pairwise-append R ms n p.1 a.1)

module _ {g : Engine} where
  -- a free range shares no byte with a mapped one
  pub IsFree-IsApart :
      (s : Manager g) (base size base' size' : ℕ)
      → 0 < size
      → 0 < size'
      → IsFree s base size
      → IsMapped g s.engine base' size'
      → IsApart base size base' size'
  IsFree-IsApart s base size base' size' pos pos' free mapped =
      ground (arith, free base, free base', mapped base, mapped base')

module _ (g : Engine) where
  pub IsMapped-map_range :
      (e e' : g.State) (base size perms b n : ℕ)
      → g.map_range e base size perms ≡ some e'
      → IsMapped g e b n
      → IsMapped g e' b n
  IsMapped-map_range e e' base size perms b n h mapped p inside =
      ground (arith, g.map_covers e e' base size perms p h, mapped p inside)

  pub IsMapped-new :
      (e e' : g.State) (base size perms : ℕ)
      → g.map_range e base size perms ≡ some e'
      → IsMapped g e' base size
  IsMapped-new e e' base size perms h p inside =
      ground (arith, g.map_covers e e' base size perms p h)

  pub IsPlaced-map_range :
      (e e' : g.State) (base size perms : ℕ) (ms : List MemMap)
      → g.map_range e base size perms ≡ some e'
      → All (IsPlaced g e) ms
      → All (IsPlaced g e') ms
  IsPlaced-map_range e e' base size perms ms h =
      All-map (IsPlaced g e) (IsPlaced g e')
        (λ m p. (p.0, p.1, p.2, p.3, p.4, p.5, IsMapped-map_range e e' base size perms _ _ h p.6))
        ms
