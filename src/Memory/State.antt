-- ===== src/Memory/State.antt =====
-- The state of `MemoryManager` of speakeasy/memmgr.py, and its reads of the lists of maps.
use speakeasy.Base.{
  ℕ, ◌+◌, Bool, true, false, ◌&&◌, ◌||◌, Option, none, some, List, [], ◌∷◌, ◌++◌, ltb, leb, ◌==◌,
  if◌then◌else◌, ◌≡◌, refl, ◌⊎◌, inl, inr,
}
use speakeasy.Memory.Pages.{range}
use speakeasy.Memory.Tag.{is_prefix, map_tag}
use speakeasy.Memory.Engine.{Engine, Region}

-- PERM_MEM_RWX of speakeasy/common.py
abbrev pub perm_mem_rwx : ℕ
perm_mem_rwx = 0x16

-- ALLOCATION_GRANULARITY
abbrev pub allocation_granularity : ℕ
allocation_granularity = 0x10000

-- a process is known by a number
pub record MemMap : Type 0 where
  pub base : ℕ
  pub size : ℕ
  pub tag : Option (List ℕ)
  pub prot : Option ℕ
  pub flags : ℕ
  pub shared : Bool
  pub free : Bool
  pub process : Option ℕ
  pub block_base : ℕ
  pub block_size : ℕ

-- MemMap.__init__
unfoldable pub mem_map_init :
    ℕ → ℕ → Option (List ℕ) → Option ℕ → ℕ → ℕ → ℕ → Bool → Option ℕ → MemMap
mem_map_init base size tag prot flags block_base block_size shared process = record {
  base = base;
  size = size;
  tag = map_tag base tag;
  prot = prot;
  flags = flags;
  shared = shared;
  free = false;
  process = process;
  block_base = block_base;
  block_size = block_size;
}

-- a hook of HOOK_MEM_MAP; `id` stands for its callback
pub record MapHook : Type 0 where
  pub id : ℕ
  pub enabled : Bool
  pub begin : ℕ
  pub end : ℕ

-- a call of a callback: the hook, then base, size, tag, perms and flags of the new map
pub record HookCall : Type 0 where
  pub hook : ℕ
  pub base : ℕ
  pub size : ℕ
  pub tag : Option (List ℕ)
  pub prot : Option ℕ
  pub flags : ℕ

-- OutOfMemoryError with the size and the limit of its message, and UcError of the engine
pub data MemError : Type 0 where
  out_of_memory : ℕ → ℕ → MemError
  engine_error : MemError

pub data Outcome (A : Type 0) : Type 0 where
  ok : A → Outcome A
  raise : MemError → Outcome A

pub record Manager (g : Engine) : Type 0 where
  pub maps : List MemMap
  pub mem_reserves : List MemMap
  pub block_base : ℕ
  pub block_size : ℕ
  pub block_offset : ℕ
  pub alloc_base : ℕ
  pub engine : g.State
  pub hooks : List MapHook
  pub hook_calls : List HookCall
  -- get_current_process, get_address_limit and config.keep_memory_on_free
  pub current_process : Option ℕ
  pub address_limit : Option ℕ
  pub keep_memory_on_free : Bool

-- the tests of `_hook_mem_map_dispatch`
unfoldable pub hook_fires : MemMap → MapHook → Bool
hook_fires mm hook =
    hook.enabled && (leb hook.begin mm.base && (hook.end == 0 || ltb mm.base hook.end))

unfoldable pub fired : MemMap → List MapHook → List HookCall
fired mm [] = []
fired mm (hook ∷ hooks) =
    let rest = fired mm hooks in
    let call : HookCall = record {
      hook = hook.id;
      base = mm.base;
      size = mm.size;
      tag = mm.tag;
      prot = mm.prot;
      flags = mm.flags;
    } in
    if hook_fires mm hook then call ∷ rest else rest

-- the first map that contains the address; `base + size - 1` of an empty map at 0 is -1
unfoldable pub find_map : ℕ → List MemMap → Option MemMap
find_map address [] = none
find_map address (m ∷ ms) =
    if leb m.base address && ltb address (m.base + m.size) then some m else find_map address ms

-- `l.remove(m)`: maps are equal if their bases are
unfoldable pub remove_map : ℕ → List MemMap → List MemMap
remove_map base [] = []
remove_map base (m ∷ ms) = if m.base == base then ms else m ∷ remove_map base ms

-- `for m in ml: self.maps.remove(m)`
unfoldable pub remove_maps : List MemMap → List MemMap → List MemMap
remove_maps [] maps = maps
remove_maps (m ∷ ml) maps = remove_maps ml (remove_map m.base maps)

-- `mm.free = True` on the map object that `get_address_map` returns
unfoldable pub mark_free : ℕ → List MemMap → List MemMap
mark_free address [] = []
mark_free address (m ∷ ms) =
    if leb m.base address && ltb address (m.base + m.size)
    then record m { free = true } ∷ ms
    else m ∷ mark_free address ms

unfoldable pub in_block : ℕ → List MemMap → List MemMap
in_block block [] = []
in_block block (m ∷ ms) =
    let rest = in_block block ms in if m.block_base == block then m ∷ rest else rest

unfoldable pub all_free : List MemMap → Bool
all_free [] = true
all_free (m ∷ ms) = m.free && all_free ms

unfoldable pub region_pages : List Region → List ℕ
region_pages [] = []
region_pages ((first, last) ∷ regions) = range first last ++ region_pages regions

unfoldable pub reserve_pages : List MemMap → List ℕ
reserve_pages [] = []
reserve_pages (r ∷ rs) = range r.base (r.base + r.size) ++ reserve_pages rs

unfoldable pub addr_or : Option ℕ → ℕ → ℕ
addr_or none base = base
addr_or (some addr) base = addr

-- `limit is not None and addr < limit < base + total`
unfoldable pub crosses : Option ℕ → ℕ → ℕ → Bool
crosses none addr last = false
crosses (some limit) addr last = ltb addr limit && ltb limit last

unfoldable pub limit_value : Option ℕ → ℕ
limit_value none = 0
limit_value (some limit) = limit

unfoldable pub starts_with_emu : List ℕ → Bool
starts_with_emu tag = is_prefix (b'e' ∷ b'm' ∷ b'u' ∷ []) tag

-- the process of a new map: a nonempty tag that does not start with "emu" takes the current one
unfoldable pub map_process : Option ℕ → Option (List ℕ) → Option ℕ → Option ℕ
map_process (some p) tag current = some p
map_process none none current = none
map_process none (some []) current = none
map_process none (some (c ∷ cs)) current = if starts_with_emu (c ∷ cs) then none else current

unfoldable pub is_found : Option MemMap → Bool
is_found none = false
is_found (some m) = true

unfoldable pub found_tag : Option MemMap → Option (List ℕ)
found_tag none = none
found_tag (some m) = m.tag

-- `[r for r in self.mem_reserves if r.base != base]`
unfoldable pub without_base : ℕ → List MemMap → List MemMap
without_base base [] = []
without_base base (r ∷ rs) =
    let rest = without_base base rs in if r.base == base then rest else r ∷ rest

-- the first reserved range with the base
unfoldable pub find_base : ℕ → List MemMap → Option MemMap
find_base base [] = none
find_base base (r ∷ rs) = if base == r.base then some r else find_base base rs

unfoldable pub perms_or_rwx : Option ℕ → ℕ
perms_or_rwx none = perm_mem_rwx
perms_or_rwx (some perms) = perms

abbrev pub as_some : Outcome ℕ → Outcome (Option ℕ)
as_some (ok base) = ok (some base)
as_some (raise e) = raise e

pub Outcome-cases :
    {A : Type 0} (o : Outcome A) → ((e : MemError) × (o ≡ raise e)) ⊎ ((a : A) × (o ≡ ok a))
Outcome-cases (ok a) = inr (a, refl)
Outcome-cases (raise e) = inl (e, refl)
