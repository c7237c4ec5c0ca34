-- ===== src/Objects/Counts.antt =====
-- The references of kernel objects in `ObjectManager` of speakeasy/windows/objman.py.
use speakeasy.Base.{
  ℕ, suc, false, Option, none, some, [], ◌∷◌, ◌++◌, ◌==◌, ◌≡◌, refl, ap, ◌∙◌, inl, inr, Bool-cases,
  ==_iff, if◌then◌else◌, All,
}
use mathlib.Core.Path.{subst}
use speakeasy.Base.Int.{ℤ, pos, negsuc, ◌+ℤ◌}
use speakeasy.Objects.{
  KernelObject, Objects, ObjectManager, same_address, find_address, pop_address,
  get_object_from_addr, set_object, register, give_id, add_ref, add_object, address_of, pop_found,
  remove_object, is_positive, remove_unused, dec_ref,
}

address_of_last :
    (obj : ℕ) (addr : Option ℕ) (objects : Objects)
    → All (λ (p : Option ℕ × ℕ). (p.1 == obj) ≡ false) objects
    → address_of obj (objects ++ (addr, obj) ∷ []) ≡ some addr
unfolding address_of
address_of_last obj addr [] others = rw ((==_iff obj obj).1 refl) refl
address_of_last obj addr ((a, x) ∷ objects) others =
    rw others.0 (address_of_last obj addr objects others.1)

pop_last :
    (obj a : ℕ) (objects : Objects)
    → find_address (some a) objects ≡ none
    → pop_address (some a) (objects ++ (some a, obj) ∷ []) ≡ objects
unfolding pop_address find_address same_address
pop_last obj a [] absent = rw ((==_iff a a).1 refl) refl
pop_last obj a ((b, x) ∷ objects) absent = elim (Bool-cases (same_address b (some a))) [
  | inl same ↦
      cc (subst (λ t. (if t then some x else find_address (some a) objects) ≡ none) same absent)
  | inr other ↦
      let later : find_address (some a) objects ≡ none =
        subst (λ t. (if t then some x else find_address (some a) objects) ≡ none) other absent in
      rw other (ap (λ os. (b, x) ∷ os) (pop_last obj a objects later))
]

give_id-objects : (obj : ℕ) (m : ObjectManager) → (give_id obj m).objects ≡ m.objects
unfolding give_id set_object
give_id-objects obj m = elim (Bool-cases ((m.store obj).id == 0)) [
  | inl no_id ↦ rw no_id refl
  | inr id ↦ rw id refl
]

give_id-ref_cnt :
    (obj : ℕ) (m : ObjectManager) → ((give_id obj m).store obj).ref_cnt ≡ (m.store obj).ref_cnt
unfolding give_id set_object
give_id-ref_cnt obj m = elim (Bool-cases ((m.store obj).id == 0)) [
  | inl no_id ↦ rw (no_id, (==_iff obj obj).1 refl) refl
  | inr id ↦ rw id refl
]

add_ref-ref_cnt :
    (obj : ℕ) (n : ℤ) (m : ObjectManager)
    → ((add_ref obj n m).store obj).ref_cnt ≡ (m.store obj).ref_cnt +ℤ n
unfolding add_ref set_object
add_ref-ref_cnt obj n m = rw ((==_iff obj obj).1 refl) refl

kept_objects : (obj : ℕ) (n : ℤ) (m : ObjectManager) → (add_ref obj n m).objects ≡ m.objects
unfolding add_ref set_object
kept_objects obj n m = refl

one_less : pos 0 +ℤ pos 1 +ℤ negsuc 0 ≡ pos 0
unfolding ◌+ℤ◌
one_less = refl

added-objects :
    (obj a : ℕ) (m : ObjectManager)
    → (m.store obj).address ≡ some (suc a)
    → get_object_from_addr (some (suc a)) m ≡ none
    → (add_object obj m).objects ≡ m.objects ++ (some (suc a), obj) ∷ []
unfolding add_object add_ref set_object register
added-objects obj a m addr absent =
    give_id-objects obj (register obj (get_object_from_addr (m.store obj).address m) m)
    ∙ rw (addr, absent, addr) refl

register-ref_cnt :
    (obj : ℕ) (other : Option ℕ) (m : ObjectManager) → (register obj other m).store ≡ m.store
unfolding register
register-ref_cnt obj none m = refl
register-ref_cnt obj (some other) m = refl

added-ref_cnt :
    (obj : ℕ) (m : ObjectManager) (n : ℤ)
    → (m.store obj).ref_cnt ≡ n
    → ((add_object obj m).store obj).ref_cnt ≡ n +ℤ pos 1
unfolding add_object
added-ref_cnt obj m n eq =
    let registered = register obj (get_object_from_addr (m.store obj).address m) m in
    add_ref-ref_cnt obj (pos 1) (give_id obj registered)
    ∙ ap (λ z. z +ℤ pos 1)
        (give_id-ref_cnt obj registered
          ∙ ap (λ (st : ℕ → KernelObject). (st obj).ref_cnt)
              (register-ref_cnt obj (get_object_from_addr (m.store obj).address m) m)
          ∙ eq)

removed-objects :
    (obj a : ℕ) (m m' : ObjectManager)
    → All (λ (p : Option ℕ × ℕ). (p.1 == obj) ≡ false) m.objects
    → get_object_from_addr (some (suc a)) m ≡ none
    → m'.objects ≡ m.objects ++ (some (suc a), obj) ∷ []
    → (remove_object obj m').objects ≡ m.objects
unfolding remove_object pop_found get_object_from_addr
removed-objects obj a m m' others absent eq =
    rw (eq, address_of_last obj (some (suc a)) m.objects others)
      (pop_last obj (suc a) m.objects absent)

-- An object that is new to the manager, with an address that no object has and with no references:
-- after `add_object` and then `dec_ref` the count is 0 and the manager has the objects of before, in
-- their order.
pub dec_ref-add_object :
    (obj a : ℕ) (m : ObjectManager)
    → (m.store obj).address ≡ some (suc a)
    → (m.store obj).ref_cnt ≡ pos 0
    → get_object_from_addr (some (suc a)) m ≡ none
    → All (λ (p : Option ℕ × ℕ). (p.1 == obj) ≡ false) m.objects
    → ((dec_ref obj (add_object obj m)).0 ≡ pos 0)
      × ((dec_ref obj (add_object obj m)).1.objects ≡ m.objects)
unfolding dec_ref remove_unused is_positive
dec_ref-add_object obj a m addr count absent others =
    let dropped : ObjectManager = add_ref obj (negsuc 0) (add_object obj m) in
    let zero_left : (dropped.store obj).ref_cnt ≡ pos 0 =
      add_ref-ref_cnt obj (negsuc 0) (add_object obj m)
      ∙ ap (λ z. z +ℤ negsuc 0) (added-ref_cnt obj m (pos 0) count)
      ∙ one_less in
    (
      zero_left,
      rw zero_left (
          removed-objects obj a m dropped others absent
            (kept_objects obj (negsuc 0) (add_object obj m) ∙ added-objects obj a m addr absent)),
    )
