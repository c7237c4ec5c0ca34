-- ===== src/Objects.antt =====
-- `ObjectManager` of speakeasy/windows/objman.py. A kernel object is known by a number, and `store` has
-- its fields.
pub mod Counts
mod Tests
use speakeasy.Base.{
  ℕ, zero, suc, ◌+◌, ◌-◌, ◌*◌, Bool, true, false, ◌&&◌, not, Option, none, some, List, [], ◌∷◌,
  ◌++◌, ◌==◌, leb, if◌then◌else◌,
}
use speakeasy.Base.Int.{ℤ, pos, negsuc, ◌+ℤ◌, ◌-ℤ◌}
use speakeasy.Handles.{
  Allocator, Owner, Table, allocate_kernel_object_id, allocate_handle, new_handle, get,
}
use speakeasy.Registry.{Text, same_text, rstrip, is_empty}

-- KernelObject: what the manager uses of it. An id of 0 is none.
pub record KernelObject : Type 0 where
  pub address : Option ℕ
  pub name : Text
  pub ref_cnt : ℤ
  pub id : ℕ

-- a dict from addresses to objects, in the order of insertion
abbrev pub Objects : Type 0
Objects = List (Option ℕ × ℕ)

unfoldable pub same_address : Option ℕ → Option ℕ → Bool
same_address none none = true
same_address none (some b) = false
same_address (some a) none = false
same_address (some a) (some b) = a == b

pub record ObjectManager : Type 0 where
  pub objects : Objects
  pub store : ℕ → KernelObject
  pub symlinks : List (Text × Text)
  pub allocator : Allocator

-- objects.get(addr)
unfoldable pub find_address : Option ℕ → Objects → Option ℕ
find_address addr [] = none
find_address addr ((a, obj) ∷ objects) =
    if same_address a addr then some obj else find_address addr objects

-- objects.pop(addr)
unfoldable pub pop_address : Option ℕ → Objects → Objects
pop_address addr [] = []
pop_address addr ((a, obj) ∷ objects) =
    let rest = pop_address addr objects in if same_address a addr then objects else (a, obj) ∷ rest

unfoldable pub add_symlink : Text → Text → ObjectManager → ObjectManager
add_symlink link dev m = record m { symlinks = m.symlinks ++ (link, dev) ∷ [] }

unfoldable pub get_object_from_addr : Option ℕ → ObjectManager → Option ℕ
get_object_from_addr addr m = find_address addr m.objects

unfoldable pub set_object : ℕ → KernelObject → ObjectManager → ObjectManager
set_object obj fields m = record m { store = λ x. if x == obj then fields else m.store x }

-- the update of the dict, if the address has no object
unfoldable pub register : ℕ → Option ℕ → ObjectManager → ObjectManager
register obj (some other) m = m
register obj none m = record m { objects = m.objects ++ ((m.store obj).address, obj) ∷ [] }

-- a new id, if the object has none
unfoldable pub give_id : ℕ → ObjectManager → ObjectManager
give_id obj m =
    let (id, allocator) = allocate_kernel_object_id m.allocator in
    if (m.store obj).id == 0
    then set_object obj (record (m.store obj) { id = id }) (record m { allocator = allocator })
    else m

unfoldable pub add_ref : ℕ → ℤ → ObjectManager → ObjectManager
add_ref obj n m = set_object obj (record (m.store obj) { ref_cnt = (m.store obj).ref_cnt +ℤ n }) m

unfoldable pub add_object : ℕ → ObjectManager → ObjectManager
add_object obj m =
    add_ref obj (pos 1)
      (give_id obj (register obj (get_object_from_addr (m.store obj).address m) m))

-- the first address of an object
unfoldable pub address_of : ℕ → Objects → Option (Option ℕ)
address_of obj [] = none
address_of obj ((a, x) ∷ objects) = if x == obj then some a else address_of obj objects

-- `if addr: self.objects.pop(addr)`, where 0 and None are no address
unfoldable pub pop_found : Option (Option ℕ) → Objects → Objects
pop_found none objects = objects
pop_found (some none) objects = objects
pop_found (some (some zero)) objects = objects
pop_found (some (some (suc a))) objects = pop_address (some (suc a)) objects

unfoldable pub remove_object : ℕ → ObjectManager → ObjectManager
remove_object obj m = record m { objects = pop_found (address_of obj m.objects) m.objects }

unfoldable pub is_positive : ℤ → Bool
is_positive (pos zero) = false
is_positive (pos (suc n)) = true
is_positive (negsuc n) = false

unfoldable pub remove_unused : ℕ → ObjectManager → ObjectManager
remove_unused obj m = if is_positive (m.store obj).ref_cnt then m else remove_object obj m

-- the count, and the new state, of an object that has a count
unfoldable pub dec_ref : ℕ → ObjectManager → ℤ × ObjectManager
dec_ref obj m = let m' = add_ref obj (negsuc 0) m in ((m'.store obj).ref_cnt, remove_unused obj m')

unfoldable pub new_id : ObjectManager → ℕ × ObjectManager
new_id m =
    let (id, allocator) = allocate_kernel_object_id m.allocator in
    (id, record m { allocator = allocator })

unfoldable pub find_id : ℕ → (ℕ → KernelObject) → Objects → Option ℕ
find_id id store [] = none
find_id id store ((a, obj) ∷ objects) =
    if (store obj).id == id then some obj else find_id id store objects

unfoldable pub get_object_from_id : ℕ → ObjectManager → Option ℕ
get_object_from_id id m = find_id id m.store m.objects

-- str.lower is a parameter
module _ (lower : Text → Text) where
  unfoldable pub find_name : Text → (ℕ → KernelObject) → Objects → Option ℕ
  find_name name store [] = none
  find_name name store ((a, obj) ∷ objects) =
      if not (is_empty (store obj).name) && same_text (lower (store obj).name) (lower name)
      then some obj
      else find_name name store objects

  -- the target of the first link of a name, or the name
  unfoldable pub follow : Text → List (Text × Text) → Text
  follow name [] = name
  follow name ((link, dev) ∷ symlinks) =
      if same_text (lower name) (lower link) then dev else follow name symlinks

  unfoldable pub find_direct : Text → ObjectManager → Option ℕ
  find_direct name m = if is_empty name then none else find_name (rstrip name) m.store m.objects

  unfoldable pub or_linked : Text → Bool → ObjectManager → Option ℕ → Option ℕ
  or_linked name check_symlinks m (some obj) = some obj
  or_linked name check_symlinks m none =
      if check_symlinks then find_direct (follow (rstrip name) m.symlinks) m else none

  unfoldable pub get_object_from_name : Text → Bool → ObjectManager → Option ℕ
  get_object_from_name name check_symlinks m =
      if is_empty name then none else or_linked name check_symlinks m (find_direct name m)
