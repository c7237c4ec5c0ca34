-- ===== src/Objects/Tests.antt =====
-- An object that the manager registers and removes.
use speakeasy.Base.{◌≡◌, refl, none, some, [], ◌∷◌}
use speakeasy.Base.Int.{pos}
use speakeasy.Handles.{allocator_init}
use speakeasy.Objects.{
  ObjectManager, find_address, same_address, get_object_from_addr, add_object, dec_ref,
}
use speakeasy.Objects.Counts.{dec_ref-add_object}

abbrev manager : ObjectManager
manager = record {
  objects = (some 0x1000, 0) ∷ [];
  store = λ obj. record { address = some 0x2000; name = []; ref_cnt = pos 0; id = 0 };
  symlinks = [];
  allocator = allocator_init;
}

absent : get_object_from_addr (some 0x2000) manager ≡ none
unfolding get_object_from_addr find_address same_address
absent = refl

dec_ref-add_object_example :
    ((dec_ref 5 (add_object 5 manager)).0 ≡ pos 0)
    × ((dec_ref 5 (add_object 5 manager)).1.objects ≡ (some 0x1000, 0) ∷ [])
dec_ref-add_object_example = dec_ref-add_object 5 0x1FFF manager refl refl absent (refl, tt)
