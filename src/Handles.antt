-- ===== src/Handles.antt =====
-- speakeasy/windows/handles.py (`HandleTable`) and `HandleAllocator` of
-- speakeasy/windows/objman.py. An object is known by a number.
pub mod Distinct
pub mod Access
mod Tests
use speakeasy.Base.{
  ℕ, ◌+◌, ◌%◌, ◌^◌, Bool, true, false, not, ◌&&◌, ◌||◌, Option, none, some, List, [], ◌∷◌, ◌==◌,
  if◌then◌else◌,
}

pub record Allocator : Type 0 where
  pub handle : ℕ
  pub kernel_object_id : ℕ
  -- _closed_handles, the last one first
  pub closed_handles : List ℕ
  pub reuse_closed_handles : Bool

-- HandleAllocator.__init__, with REUSE_CLOSED_HANDLES
unfoldable pub allocator_init : Allocator
allocator_init = record {
  handle = 0x80;
  kernel_object_id = 0x400;
  closed_handles = [];
  reuse_closed_handles = false;
}

unfoldable pub allocate_from : List ℕ → Allocator → ℕ × Allocator
allocate_from [] a = (a.handle, record a { handle = a.handle + 4 })
allocate_from (h ∷ closed) a = (h, record a { closed_handles = closed })

unfoldable pub allocate_handle : Allocator → ℕ × Allocator
allocate_handle a = allocate_from a.closed_handles a

unfoldable pub free_handle : Allocator → ℕ → Allocator
free_handle a handle =
    if a.reuse_closed_handles then record a { closed_handles = handle ∷ a.closed_handles } else a

unfoldable pub allocate_kernel_object_id : Allocator → ℕ × Allocator
allocate_kernel_object_id a =
    (a.kernel_object_id, record a { kernel_object_id = a.kernel_object_id + 4 })

-- handle & HANDLE_MASK
abbrev pub masked : ℕ → ℕ
masked handle = handle % 2 ^ 32

-- a dict from handle values to objects, in the order of insertion
abbrev pub Objects : Type 0
Objects = List (ℕ × ℕ)

unfoldable pub find : ℕ → Objects → Option ℕ
find h [] = none
find h ((k, obj) ∷ objects) = if k == h then some obj else find h objects

-- objects[h] = obj
unfoldable pub put : ℕ → ℕ → Objects → Objects
put h obj [] = (h, obj) ∷ []
put h obj ((k, old) ∷ objects) = if k == h then (k, obj) ∷ objects else (k, old) ∷ put h obj objects

-- objects.pop(h, None), but for the result
unfoldable pub drop_key : ℕ → Objects → Objects
drop_key h [] = []
drop_key h ((k, obj) ∷ objects) = if k == h then objects else (k, obj) ∷ drop_key h objects

-- What the owner of a table gives: the object of a pseudo handle, the instances of a type, and
-- the reference counts of objects that have one, with what `new_handle` and `close` do to them.
pub record Owner : Type 1 where
  pub Refs : Type 0
  pub pseudo : ℕ → Option ℕ
  pub is_instance : ℕ → ℕ → Bool
  pub retain : Refs → ℕ → Refs
  pub release : Refs → ℕ → Refs

module _ (o : Owner) where
  pub record Table : Type 0 where
    pub allocator : Allocator
    pub objects : Objects
    pub refs : o.Refs

  unfoldable pub new_handle : Table → ℕ → ℕ × Table
  new_handle t obj =
      let (handle, a) = allocate_handle t.allocator in
      (
        handle,
        record { allocator = a; objects = put handle obj t.objects; refs = o.retain t.refs obj },
      )

  unfoldable pub pseudo_or : Option ℕ → Option ℕ → Option ℕ
  pseudo_or none obj = obj
  pseudo_or (some obj) other = some obj

  unfoldable pub any_instance : ℕ → List ℕ → Bool
  any_instance obj [] = false
  any_instance obj (ty ∷ types) = o.is_instance obj ty || any_instance obj types

  -- `types and not isinstance(obj, types)`
  unfoldable pub of_types : List ℕ → Option ℕ → Option ℕ
  of_types types none = none
  of_types [] (some obj) = some obj
  of_types (ty ∷ types) (some obj) = if any_instance obj (ty ∷ types) then some obj else none

  unfoldable pub get : Table → ℕ → List ℕ → Option ℕ
  get t handle types = of_types types (pseudo_or (o.pseudo handle) (find (masked handle) t.objects))

  unfoldable pub close_object : Table → ℕ → Option ℕ → Bool × Table
  close_object t handle none = (false, t)
  close_object t handle (some obj) = (
    true,
    record {
      allocator = free_handle t.allocator (masked handle);
      objects = drop_key (masked handle) t.objects;
      refs = o.release t.refs obj;
    },
  )

  unfoldable pub close : Table → ℕ → Bool × Table
  close t handle = elim (o.pseudo handle) [
    | some obj ↦ (true, t)
    | none ↦ close_object t handle (find (masked handle) t.objects)
  ]

  -- `handle in table`
  unfoldable pub contains : Table → ℕ → Bool
  contains t handle = elim (find (masked handle) t.objects) [ none ↦ false | some obj ↦ true ]
