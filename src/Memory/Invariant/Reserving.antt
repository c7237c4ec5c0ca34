-- ===== src/Memory/Invariant/Reserving.antt =====
-- Reserved ranges, and the reads of the memory manager of speakeasy/memmgr.py.
use mathlib.Core.Path.{subst}
use speakeasy.Base.{
  ℕ, ◌+◌, ◌≤◌, ◌^◌, ◌∙◌, ◌%◌, sym, ap, Bool, true, false, refl, ◌⊎◌, ◌≡◌, inl, inr, Option, none,
  some, List, [], ◌∷◌, ◌++◌, arith, All, All-append, All_part, Bool-cases, ◌==◌,
}
use speakeasy.Memory.Pages.{page_size, page_total}
use speakeasy.Memory.Pages.Scan.{page_total_pos, page_total_aligned}
use speakeasy.Memory.Engine.{Engine, in_range}
use speakeasy.Memory.State.{
  MemMap, Manager, Outcome-cases, ok, raise, find_map, find_base, remove_map, mem_map_init,
  MemError, addr_or, as_some, perms_or_rwx,
}
use speakeasy.Memory.Search.{IsFree, IsAligned}
use speakeasy.Memory.Search.Lowest.{start}
use speakeasy.Memory.Search.First.{
  IsFirstFree, get_valid_ranges-IsFirstFree, get_valid_ranges_raise,
}
use speakeasy.Memory.Manager.{
  overlaps_reserved, get_address_map, get_valid_ranges, mem_map, map_large, is_small, append_map,
  append_reserve, mem_reserve, mem_map_reserve,
}
use speakeasy.Memory.Invariant.{AreApart, Pairwise, HasBlock, IsSound}
use speakeasy.Memory.Invariant.Small.{IsAllocated}
use speakeasy.Memory.Invariant.Mapping.{mem_map-IsSound}

find_map_part :
    (p : ℕ) (before after : List MemMap) (m : MemMap)
    → Pairwise AreApart (before ++ m ∷ after)
    → in_range m.base m.size p ≡ true
    → find_map p (before ++ m ∷ after) ≡ some m
unfolding find_map
find_map_part p [] after m h inside = rw inside
find_map_part p (n ∷ before) after m h inside =
    let apart : AreApart n m = All_part (AreApart n) before after m h.0 in
    let elsewhere : in_range n.base n.size p ≡ false = ground (arith, apart.0) in
    rw elsewhere (find_map_part p before after m h.1 inside)

module _ (g : Engine) where
  HasBlock-reserve :
      (s : Manager g) (rs : List MemMap)
      → HasBlock g s
      → HasBlock g (record s { mem_reserves = rs })
  HasBlock-reserve s rs b = record {
    is_page = b.is_page;
    aligned = b.aligned;
    in_space = b.in_space;
    is_mapped = b.is_mapped;
    below = b.below;
  }

  IsSound-reserve :
      (s : Manager g) (rs : List MemMap)
      → IsSound g s
      → All IsAligned rs
      → IsSound g (record s { mem_reserves = rs })
  IsSound-reserve s rs h a = record {
    placed = h.placed;
    apart = h.apart;
    shared = elim h.shared [ inl none_yet ↦ inl none_yet | inr b ↦ inr (HasBlock-reserve s rs b) ];
    small_block = h.small_block;
    reserves = a;
  }

  -- In a sound state an address of an allocation leads to that allocation and to no other.
  pub get_address_map_part :
      (s : Manager g) (before after : List MemMap) (m : MemMap) (p : ℕ)
      → IsSound g s
      → s.maps ≡ before ++ m ∷ after
      → in_range m.base m.size p ≡ true
      → get_address_map g s p ≡ some m
  unfolding get_address_map
  get_address_map_part s before after m p h e inside =
      rw e (find_map_part p before after m (rw e at h.apart) inside)

  -- A reservation in a sound state, without a base or with one at the start of a page. It fails
  -- only if no base is given and the search for a range raises, and then it changes nothing.
  -- Otherwise the map of the reserved range is appended to the reserved ranges: with a given base,
  -- which the manager does not check, at this base with the given size; without one at the first free
  -- range, of the size in whole pages. The list of maps stays, and the state is sound again.
  pub mem_reserve-IsSound :
      (s : Manager g) (size : ℕ) (base : Option ℕ) (perms : Option ℕ) (tag : Option (List ℕ))
      (flags : ℕ) (shared : Bool)
      → IsSound g s
      → addr_or base 0 % page_size ≡ 0
      → ((e : MemError) × (base ≡ none)
          × (get_valid_ranges g s size none ≡ raise e)
          × (mem_reserve g s size base perms tag flags shared ≡ (raise e, s)))
        ⊎ ((b : ℕ) × (n : ℕ) × (s' : Manager g) × (mem_reserve g s size base perms tag flags shared
              ≡ (ok b, s'))
            × (s'.mem_reserves
                ≡ s.mem_reserves
                  ++ mem_map_init b n tag perms flags b s.block_size shared none ∷ [])
            × (s'.maps ≡ s.maps)
            × (((base ≡ some b) × (n ≡ size))
                ⊎ ((base ≡ none) × (n ≡ page_total size) × IsFirstFree s (start s none) b n))
            × IsSound g s')
  unfolding mem_reserve append_reserve mem_map_init addr_or
  mem_reserve-IsSound s size (some b) perms tag flags shared h a = inr (
    b,
    size,
    _,
    refl,
    refl,
    refl,
    inl (refl, refl),
    IsSound-reserve s _ h (All-append IsAligned s.mem_reserves _ h.reserves (a, tt)),
  )
  mem_reserve-IsSound s size none perms tag flags shared h a =
      elim (Outcome-cases (get_valid_ranges g s size none)) [
        | inl (x, failed) ↦ inl (x, refl, failed, rw (failed, mem_reserve) refl)
        | inr ((b, t), found) ↦
            let first = get_valid_ranges-IsFirstFree s h.reserves size none found in
            inr (
              b,
              t,
              _,
              rw (found, mem_reserve) refl,
              refl,
              refl,
              inr (refl, first.0, first.1),
              IsSound-reserve s _ h
                  (All-append IsAligned s.mem_reserves _ h.reserves (first.1.aligned, tt)),
            )
      ]

  find_base-IsAligned :
      (a : ℕ) (rs : List MemMap) (r : MemMap)
      → find_base a rs ≡ some r
      → All IsAligned rs
      → (r.base ≡ a) × IsAligned r
  unfolding find_base
  find_base-IsAligned a [] r e h = cc
  find_base-IsAligned a (n ∷ rs) r e h = elim (Bool-cases (a == n.base)) [
    | inl here ↦ let same : r ≡ n = ground arith in rw same (ground arith, h.0)
    | inr there ↦ find_base-IsAligned a rs r (ground arith) h.1
  ]

  All-remove_map : (a : ℕ) (rs : List MemMap) → All IsAligned rs → All IsAligned (remove_map a rs)
  unfolding remove_map
  All-remove_map a [] h = tt
  All-remove_map a (r ∷ rs) h = elim (Bool-cases (r.base == a)) [
    | inl here ↦ rw here h.1
    | inr there ↦ rw there (h.0, All-remove_map a rs h.1)
  ]

  -- the search finds the page at which it starts, if that is free and below the limit
  search_exact :
      (s : Manager g) (size a l : ℕ)
      → All IsAligned s.mem_reserves
      → a % page_size ≡ 0
      → s.address_limit ≡ some l
      → a + page_total size ≤ l
      → IsFree s a (page_total size)
      → overlaps_reserved a (page_total size) ≡ false
      → get_valid_ranges g s size (some a) ≡ ok (a, page_total size)
  unfolding addr_or
  search_exact s size a l kept aligned set fits free outside =
      elim (Outcome-cases (get_valid_ranges g s size (some a))) [
        | inl (x, failed) ↦
            let (l', set', same, below, above) =
              get_valid_ranges_raise s kept size (some a) failed in
            let one : l ≡ l' = ground arith in
            absurd (omega (arith, above a aligned (omega arith) free outside))
        | inr ((b, t), found) ↦
            let (total, first) = get_valid_ranges-IsFirstFree s kept size (some a) found in
            let here : b ≤ a =
              first.is_first a aligned (omega arith) (rw total free) (rw total outside) in
            let same : b ≡ a = omega (arith, first.after) in found ∙ rw (same, total) refl
      ]

  -- `mem_map` at a free page maps it, and leaves the reserved ranges
  map_exact :
      (s : Manager g) (size a l perms : ℕ) (tag : Option (List ℕ)) (flags : ℕ) (shared : Bool)
      (process : Option ℕ)
      → All IsAligned s.mem_reserves
      → a % page_size ≡ 0
      → s.address_limit ≡ some l
      → l ≤ 2 ^ 64
      → a + page_total size ≤ l
      → IsFree s a (page_total size)
      → overlaps_reserved a (page_total size) ≡ false
      → ((mem_map g s size (some a) perms tag flags shared process).0 ≡ ok a)
        × ((mem_map g s size (some a) perms tag flags shared process).1.mem_reserves
            ≡ s.mem_reserves)
  unfolding mem_map map_large is_small append_map
  map_exact s size a l perms tag flags shared process kept aligned set space fits free outside =
      let found = search_exact s size a l kept aligned set fits free outside in
      let page = page_total_pos size in
      let (en, mapped) =
        g.map_free s.engine a (page_total size) perms
          (record {
            base_aligned = aligned;
            size_aligned = page_total_aligned size;
            nonempty = omega arith;
            in_space = omega arith;
          })
          (λ p inside. let here = free p inside in ground arith) in
      rw (found, mapped, map_large) (refl, refl)

  -- the state in which `mem_map_reserve` calls `mem_map`
  abbrev pub released : Manager g → MemMap → Manager g
  released s r = record s { mem_reserves = remove_map r.base s.mem_reserves }

  -- In a sound state with an address limit of at most 2 ^ 64, if nothing but the reservation holds
  -- the pages of a reserved range, and they end below the limit and lie outside the reserved range of
  -- the emulator, then `mem_map_reserve` returns the reserved address itself. The new state has one
  -- allocation more, at this address and with the reserved size at least, the reservation is
  -- released, and the state is sound.
  pub mem_map_reserve_exact :
      (s : Manager g) (a : ℕ) (r : MemMap) (l : ℕ)
      → IsSound g s
      → find_base a s.mem_reserves ≡ some r
      → s.address_limit ≡ some l
      → l ≤ 2 ^ 64
      → a + page_total r.size ≤ l
      → IsFree (released s r) a (page_total r.size)
      → overlaps_reserved a (page_total r.size) ≡ false
      → ((mem_map_reserve g s a).0 ≡ ok (some a))
        × IsAllocated g (released s r) (mem_map_reserve g s a).1 a r.size
        × ((mem_map_reserve g s a).1.mem_reserves ≡ remove_map a s.mem_reserves)
  unfolding mem_map_reserve
  mem_map_reserve_exact s a r l h e set space fits free outside =
      let (at_a, aligned) = find_base-IsAligned a s.mem_reserves r e h.reserves in
      let kept = All-remove_map r.base s.mem_reserves h.reserves in
      let sound = IsSound-reserve s (remove_map r.base s.mem_reserves) h kept in
      let free_there : IsFree (released s r) r.base (page_total r.size) =
        subst (λ x. IsFree (released s r) x (page_total r.size)) (sym at_a) free in
      let (done, reserves) =
        map_exact (released s r) r.size r.base l (perms_or_rwx r.prot) r.tag 0 false none kept
          aligned set space (omega arith) free_there (rw at_a outside) in
      let made =
        mem_map-IsSound g (released s r) r.size (some r.base) (perms_or_rwx r.prot) r.tag 0 false
          none r.base sound done in
      subst
        (λ x.
          ((mem_map_reserve g s a).0 ≡ ok (some x))
          × IsAllocated g (released s r) (mem_map_reserve g s a).1 x r.size
          × ((mem_map_reserve g s a).1.mem_reserves ≡ remove_map x s.mem_reserves))
        at_a (rw (e, mem_map_reserve) (ap as_some done, made, reserves))
