-- ===== src/Handles/Access.antt =====
-- What a lookup returns after the operations of `HandleTable` of speakeasy/windows/handles.py.
use speakeasy.Base.{
  ℕ, ◌+◌, ◌*◌, ◌^◌, ◌≤◌, ◌<◌, ◌≡◌, ◌≢◌, ◌⊎◌, ◌∙◌, ==_iff, refl, true, false, Option, none, some,
  List, [], ◌∷◌, ◌==◌, if◌then◌else◌, arith, Bool-cases, Option-cases, inl, inr,
}
use speakeasy.Handles.{
  masked, Objects, find, put, drop_key, Owner, Table, new_handle, pseudo_or, any_instance, of_types,
  get, close_object, close,
}
use speakeasy.Handles.Distinct.{key_count, IsDistinct}

find-put :
    (h k obj : ℕ) (objects : Objects)
    → find h (put k obj objects) ≡ (if k == h then some obj else find h objects)
unfolding find put
find-put h k obj [] = refl
find-put h k obj ((j, old) ∷ objects) = ground (arith, find-put h k obj objects)

find_absent : (k : ℕ) (objects : Objects) → key_count k objects ≡ 0 → find k objects ≡ none
unfolding find
find_absent k [] e = refl
find_absent k ((j, old) ∷ objects) e = ground (arith, find_absent k objects)

drop_key_absent : (k : ℕ) (objects : Objects) → find k objects ≡ none → drop_key k objects ≡ objects
unfolding find drop_key
drop_key_absent k [] e = refl
drop_key_absent k ((j, old) ∷ objects) e = ground (arith, drop_key_absent k objects)

find-drop_key :
    (h k : ℕ) (objects : Objects)
    → key_count k objects ≤ 1
    → find h (drop_key k objects) ≡ (if k == h then none else find h objects)
unfolding find drop_key
find-drop_key h k [] e = ground arith
find-drop_key h k ((j, old) ∷ objects) e =
    ground (arith, find-drop_key h k objects, find_absent k objects)

module _ (o : Owner) (t : Table o) where
  -- what a lookup with types gives of an object
  of_types_lem :
      (obj : ℕ) (types : List ℕ)
      → ((types ≡ []) × (of_types o types (some obj) ≡ some obj))
        ⊎ ((types ≢ [])
            × (any_instance o obj types ≡ true)
            × (of_types o types (some obj) ≡ some obj))
        ⊎ ((types ≢ []) × (any_instance o obj types ≡ false) × (of_types o types (some obj) ≡ none))
  unfolding of_types
  of_types_lem obj [] = inl (refl, refl)
  of_types_lem obj (ty ∷ types) = elim (Bool-cases (any_instance o obj (ty ∷ types))) [
    | inl one ↦ inr (inl ((λ e. cc), one, rw one refl))
    | inr no_one ↦ inr (inr ((λ e. cc), no_one, rw no_one refl))
  ]

  looked_up :
      (obj h : ℕ) (types : List ℕ)
      → h < 2 ^ 32
      → get o (new_handle o t obj).1 h types ≡ (
          if (new_handle o t obj).0 == h
          then of_types o types (pseudo_or o (o.pseudo h) (some obj))
          else get o t h types)
  unfolding get new_handle
  looked_up obj h types small =
      let entry : masked h ≡ h = omega arith in rw (entry, find-put) (ground arith)

  -- A lookup of a value below 2 ^ 32 after `new_handle`. For every value but the new one it gives
  -- what it gave before. For the new value, if that is no pseudo handle, it gives the new object,
  -- unless types are asked for and the object is an instance of none of them: then it gives None.
  -- If the new value is a pseudo handle, it gives what it gave before.
  pub get-new_handle :
      (obj h : ℕ) (types : List ℕ)
      → h < 2 ^ 32
      → (((new_handle o t obj).0 ≢ h) × (get o (new_handle o t obj).1 h types ≡ get o t h types))
        ⊎ (((new_handle o t obj).0 ≡ h)
            × (o.pseudo h ≢ none)
            × (get o (new_handle o t obj).1 h types ≡ get o t h types))
        ⊎ (((new_handle o t obj).0 ≡ h)
            × (o.pseudo h ≡ none)
            × (((types ≡ []) × (get o (new_handle o t obj).1 h types ≡ some obj))
                ⊎ ((types ≢ [])
                    × (any_instance o obj types ≡ true)
                    × (get o (new_handle o t obj).1 h types ≡ some obj))
                ⊎ ((types ≢ [])
                    × (any_instance o obj types ≡ false)
                    × (get o (new_handle o t obj).1 h types ≡ none))))
  unfolding get pseudo_or
  get-new_handle obj h types small =
      let looked = looked_up obj h types small in
      elim (Bool-cases ((new_handle o t obj).0 == h)) [
        | inr other ↦ inl (ground (arith, other), looked ∙ rw other refl)
        | inl new ↦
            let same = (==_iff (new_handle o t obj).0 h).0 new in
            elim (Option-cases (o.pseudo h)) [
              | inr (p, pseudo) ↦
                  inr (inl (same, λ e. ground arith, looked ∙ rw (new, pseudo) refl))
              | inl usual ↦
                  let plain : get o (new_handle o t obj).1 h types ≡ of_types o types (some obj) =
                    looked ∙ rw (new, usual) refl in
                  inr (inr (same, usual, rw plain (of_types_lem obj types)))
            ]
      ]

  -- A handle that a 64-bit guest passes sign-extended refers to the same entry.
  pub get_sign_extended :
      (h k : ℕ) (types : List ℕ)
      → o.pseudo (h + k * 2 ^ 32) ≡ o.pseudo h
      → get o t (h + k * 2 ^ 32) types ≡ get o t h types
  unfolding get
  get_sign_extended h k types same =
      let entry : masked (h + k * 2 ^ 32) ≡ masked h = omega arith in rw (same, entry)

  pseudo_or-none : (p : Option ℕ) → pseudo_or o p none ≡ p
  unfolding pseudo_or
  pseudo_or-none none = refl
  pseudo_or-none (some obj) = refl

  missing :
      (h k : ℕ) (types : List ℕ)
      → find (masked h) t.objects ≡ none
      → get o t k types
        ≡ (if masked h == masked k then of_types o types (o.pseudo k) else get o t k types)
  unfolding get
  missing h k types e = elim (Bool-cases (masked h == masked k)) [
    | inl same ↦ ground (arith, pseudo_or-none (o.pseudo k))
    | inr other ↦ rw other refl
  ]

  -- After a handle that is not a pseudo handle is closed, a lookup of it and of every value with
  -- the same low 32 bits finds at most what a pseudo handle gives, and other lookups find what they
  -- found before.
  pub get-close :
      (others : List ℕ) (h k : ℕ) (types : List ℕ)
      → IsDistinct t others
      → o.pseudo h ≡ none
      → get o (close o t h).1 k types
        ≡ (if masked h == masked k then of_types o types (o.pseudo k) else get o t k types)
  unfolding get close close_object
  get-close others h k types d usual = elim (Option-cases (find (masked h) t.objects)) [
    | inl none_there ↦ rw (usual, none_there, close) (missing h k types none_there)
    | inr (obj, found) ↦
        rw (usual, found, close)
          (rw (find-drop_key (masked k) (masked h) t.objects (omega (arith, d.once (masked h))))
            (ground (arith, pseudo_or-none (o.pseudo k))))
  ]

  -- A second close of a handle that is not a pseudo handle returns False and changes nothing.
  pub close_twice :
      (others : List ℕ) (h : ℕ)
      → IsDistinct t others
      → o.pseudo h ≡ none
      → close o (close o t h).1 h ≡ (false, (close o t h).1)
  unfolding close close_object
  close_twice others h d usual = elim (Option-cases (find (masked h) t.objects)) [
    | inl none_there ↦ ground arith
    | inr (obj, found) ↦
        let gone =
          find-drop_key (masked h) (masked h) t.objects (omega (arith, d.once (masked h))) in
        ground arith
  ]
