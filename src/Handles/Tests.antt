-- ===== src/Handles/Tests.antt =====
-- A handle table with a pseudo handle -1 for object 7, and reference counts.
use speakeasy.Base.{
  ℕ, List, ◌+◌, ◌-◌, ◌≡◌, ◌≢◌, ◌⊎◌, true, false, refl, none, some, [], ◌∷◌, ◌==◌, if◌then◌else◌,
  arith,
}
use speakeasy.Handles.{
  allocator_init, allocate_from, allocate_handle, free_handle, masked, find, put, drop_key, Owner,
  Table, new_handle, pseudo_or, any_instance, of_types, get, close_object, close,
}
use speakeasy.Handles.Distinct.{
  key_count, count, IsDistinct, new_handle-IsDistinct, close-IsDistinct,
}
use speakeasy.Handles.Access.{get-new_handle, get-close}

program : Unit {0}
unfolding allocator_init allocate_from allocate_handle free_handle find put drop_key new_handle
    pseudo_or any_instance of_types get close_object close
program = tt

abbrev owner : Owner
owner = record {
  Refs = ℕ → ℕ;
  pseudo = λ h. if h == 0xFFFFFFFF then some 7 else none;
  is_instance = λ obj ty. obj == ty;
  retain = λ refs obj x. if x == obj then refs x + 1 else refs x;
  release = λ refs obj x. if x == obj then refs x - 1 else refs x;
}

abbrev empty : Table owner
empty = record { allocator = allocator_init; objects = []; refs = λ x. 0 }

abbrev one : ℕ × Table owner
one = new_handle owner empty 5

abbrev two : ℕ × Table owner
two = new_handle owner one.1 6

values :
    (one.0 ≡ 0x80)
    × (two.0 ≡ 0x84)
    × (get owner two.1 0x80 [] ≡ some 5)
    × (get owner two.1 0x80 (6 ∷ []) ≡ none)
    × (get owner two.1 0xFFFFFFFF [] ≡ some 7)
    × (two.1.refs 5 ≡ 1)
    × ((close owner two.1 0x80).1.refs 5 ≡ 0)
unfolding program
values = (refl, refl, refl, refl, refl, refl, refl)

empty-IsDistinct : IsDistinct empty (0x40 ∷ [])
unfolding program
empty-IsDistinct = record { once = λ h. ground arith; below = λ h p. ground arith }

new_handle-IsDistinct_example :
    (key_count one.0 empty.objects ≡ 0)
    × (count one.0 (0x40 ∷ []) ≡ 0)
    × IsDistinct one.1 (0x40 ∷ [])
new_handle-IsDistinct_example = new_handle-IsDistinct owner empty (0x40 ∷ []) empty-IsDistinct 5

close-IsDistinct_example : IsDistinct (close owner one.1 0x80).1 (0x40 ∷ [])
close-IsDistinct_example =
    close-IsDistinct owner one.1 (0x40 ∷ []) new_handle-IsDistinct_example.2 0x80

get-new_handle_example :
    ((two.0 ≢ 0x84) × (get owner two.1 0x84 (6 ∷ []) ≡ get owner one.1 0x84 (6 ∷ [])))
    ⊎ ((two.0 ≡ 0x84)
        × (owner.pseudo 0x84 ≢ none)
        × (get owner two.1 0x84 (6 ∷ []) ≡ get owner one.1 0x84 (6 ∷ [])))
    ⊎ ((two.0 ≡ 0x84)
        × (owner.pseudo 0x84 ≡ none)
        × (((◌≡◌ {A = List ℕ} (6 ∷ []) []) × (get owner two.1 0x84 (6 ∷ []) ≡ some 6))
            ⊎ ((◌≢◌ {A = List ℕ} (6 ∷ []) [])
                × (any_instance owner 6 (6 ∷ []) ≡ true)
                × (get owner two.1 0x84 (6 ∷ []) ≡ some 6))
            ⊎ ((◌≢◌ {A = List ℕ} (6 ∷ []) [])
                × (any_instance owner 6 (6 ∷ []) ≡ false)
                × (get owner two.1 0x84 (6 ∷ []) ≡ none))))
get-new_handle_example = get-new_handle owner one.1 6 0x84 (6 ∷ []) (omega arith)

get-close_example : get owner (close owner one.1 0x80).1 0x84 [] ≡ (
    if masked 0x80 == masked 0x84
    then of_types owner [] (owner.pseudo 0x84)
    else get owner one.1 0x84 [])
get-close_example =
    get-close owner one.1 (0x40 ∷ []) 0x80 0x84 [] new_handle-IsDistinct_example.2 refl
