-- ===== src/Memory/Invariant/Small.antt =====
-- What an allocation adds, and the small allocations of `mem_map` of speakeasy/memmgr.py.
use speakeasy.Base.{
  ℕ, ◌+◌, ◌-◌, ◌%◌, ◌≤◌, ◌<◌, Bool, false, ◌≡◌, refl, ap, inl, inr, Option, some, List, [], ◌∷◌,
  ◌++◌, arith, Bool-cases,
}
use speakeasy.Memory.Pages.{page_size}
use speakeasy.Memory.Engine.{Engine}
use speakeasy.Memory.State.{
  MemMap, Manager, MemError, Outcome, Outcome-cases, ok, raise, mem_map_init,
}
use speakeasy.Memory.Manager.{append_map, map_in_block, new_block, needs_block, map_small}
use speakeasy.Memory.Invariant.{HasBlock, IsSound}
use speakeasy.Memory.Invariant.Blocks.{HasMaps, map_in_block-IsSound, new_block_lem}

module _ (g : Engine) where
  -- what an allocation adds
  pub record IsAllocated (s s' : Manager g) (base size : ℕ) : Type 0 where
    pub mm : MemMap
    pub maps : s'.maps ≡ s.maps ++ mm ∷ []
    pub mm_base : mm.base ≡ base
    pub mm_size : size ≤ mm.size
    pub mm_free : mm.free ≡ false
    pub sound : IsSound g s'

  -- a result that is an address comes with an allocation there
  abbrev pub Allocates : Manager g → ℕ → Outcome ℕ × Manager g → Type 0
  Allocates s size r = (base : ℕ) → r.0 ≡ ok base → IsAllocated s r.1 base size

  pub Allocates-ok :
      (s s' : Manager g) (base size : ℕ)
      → IsAllocated s s' base size
      → Allocates s size (ok base, s')
  Allocates-ok s s' base size a b e = let same : b ≡ base = ground arith in rw same a

  pub Allocates-raise :
      (s s' : Manager g) (size : ℕ) (x : MemError) → Allocates s size (raise x, s')
  Allocates-raise s s' size x b e = cc

  in_block_allocated :
      (s₀ s : Manager g) (size n perms flags : ℕ) (tag : Option (List ℕ)) (shared : Bool)
      (process : Option ℕ)
      → s.maps ≡ s₀.maps
      → HasMaps g s
      → HasBlock g s
      → 0 < size
      → n ≤ size
      → s.block_offset + size ≤ page_size
      → Allocates s₀ n (map_in_block g s size perms tag flags shared process)
  unfolding map_in_block append_map mem_map_init
  in_block_allocated s₀ s size n perms flags tag shared process same maps block pos fits room =
      Allocates-ok s₀ _ (s.block_base + s.block_offset) n (record {
        mm =
            mem_map_init (s.block_base + s.block_offset) size tag (some perms) flags s.block_base
              s.block_size shared process;
        maps = rw same refl;
        mm_base = refl;
        mm_size = fits;
        mm_free = refl;
        sound = map_in_block-IsSound g s size perms flags tag shared process maps block pos room;
      })

  -- the old shared block, if it has room
  old_block : (s : Manager g) (n : ℕ) → IsSound g s → needs_block g s n ≡ false → HasBlock g s
  unfolding needs_block
  old_block s n h e = elim h.shared [ inl none_yet ↦ absurd (ground arith) | inr block ↦ block ]

  old_room : (s : Manager g) (n : ℕ) → needs_block g s n ≡ false → s.block_offset + n ≤ page_size
  unfolding needs_block
  old_room s n e = ground arith

  pub map_small_lem :
      (s : Manager g) (size perms flags : ℕ) (tag : Option (List ℕ)) (shared : Bool)
      (process : Option ℕ)
      → IsSound g s
      → size < page_size
      → Allocates s size (map_small g s size perms tag flags shared process)
  unfolding map_small
  map_small_lem s size perms flags tag shared process h small =
      elim (Bool-cases (needs_block g s padded)) [
        | inl needed ↦ elim (Outcome-cases (new_block g s).0) [
          | inl (x, failed) ↦ rw (needed, failed) (Allocates-raise s _ size x)
          | inr (u, done) ↦
              let new =
                new_block_lem g s (new_block g s).1 h (ap (λ o. (o, (new_block g s).1)) done) in
              rw (needed, done)
                (in_block_allocated s (new_block g s).1 padded size perms flags tag shared process
                  new.same_maps new.maps new.block (omega arith) (omega arith)
                  (omega (arith, new.offset)))
        ]
        | inr fits ↦ rw fits (
            in_block_allocated s s padded size perms flags tag shared process refl
              (record { placed = h.placed; apart = h.apart; reserves = h.reserves })
              (old_block s padded h fits) (omega arith) (omega arith) (old_room s padded fits))
      ]
    where
      padded : ℕ
      padded = size + (0x10 - size % 0x10)
