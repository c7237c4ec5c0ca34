-- ===== src/Handles/Distinct.antt =====
-- No two open handles have the same value, in whatever tables they are: the tables of
-- speakeasy/windows/handles.py share one allocator.
use speakeasy.Base.{
  ℕ, ◌+◌, ◌≤◌, ◌<◌, ◌≡◌, refl, some, List, [], ◌∷◌, ◌==◌, if◌then◌else◌, arith, Option-cases, inl,
  inr,
}
use speakeasy.Handles.{
  Allocator, allocate_from, allocate_handle, free_handle, masked, Objects, find, put, drop_key,
  Owner, Table, new_handle, close_object, close,
}

-- how often a value is among the handles of a table, and in a list
abbrev pub key_count : ℕ → Objects → ℕ
key_count h [] = 0
key_count h ((k, obj) ∷ objects) = (if k == h then 1 else 0) + key_count h objects

abbrev pub count : ℕ → List ℕ → ℕ
count h [] = 0
count h (k ∷ ks) = (if k == h then 1 else 0) + count h ks

module _ {o : Owner} where
  -- `others` are the handles that are open in the other tables of the allocator
  pub record IsDistinct (t : Table o) (others : List ℕ) : Type 0 where
    pub once :
        (h : ℕ) → key_count h t.objects + count h others + count h t.allocator.closed_handles ≤ 1
    pub below :
        (h : ℕ)
        → 0 < key_count h t.objects + count h others + count h t.allocator.closed_handles
        → h < t.allocator.handle

key_count-put :
    (h k obj : ℕ) (objects : Objects)
    → key_count k objects ≡ 0
    → key_count h (put k obj objects) ≡ (if k == h then 1 else 0) + key_count h objects
unfolding put
key_count-put h k obj [] e = refl
key_count-put h k obj ((j, old) ∷ objects) e = ground (arith, key_count-put h k obj objects)

key_count-drop_key :
    (h k obj : ℕ) (objects : Objects)
    → find k objects ≡ some obj
    → (if k == h then 1 else 0) + key_count h (drop_key k objects) ≡ key_count h objects
unfolding find drop_key
key_count-drop_key h k obj [] e = cc
key_count-drop_key h k obj ((j, old) ∷ objects) e =
    ground (arith, key_count-drop_key h k obj objects)

-- What an allocation gives, for the counts `open` of the values that are open anywhere.
record IsFresh (a' : Allocator) (value : ℕ) (opens : ℕ → ℕ) : Type 0 where
  new : opens value ≡ 0
  once : (h : ℕ) → (if value == h then 1 else 0) + opens h + count h a'.closed_handles ≤ 1
  below :
      (h : ℕ)
      → 0 < (if value == h then 1 else 0) + opens h + count h a'.closed_handles
      → h < a'.handle

allocate_from-IsFresh :
    (closed : List ℕ) (a : Allocator) (opens : ℕ → ℕ)
    → a.closed_handles ≡ closed
    → ((h : ℕ) → opens h + count h closed ≤ 1)
    → ((h : ℕ) → 0 < opens h + count h closed → h < a.handle)
    → IsFresh (allocate_from closed a).1 (allocate_from closed a).0 opens
unfolding allocate_from
allocate_from-IsFresh [] a opens e once below = record {
  new = ground (arith, below a.handle);
  once = λ h. rw e (ground (arith, once h, below h));
  below = λ h p. ground (arith, rw e at p, below h);
}
allocate_from-IsFresh (c ∷ cs) a opens e once below = record {
  new = ground (arith, once c);
  once = λ h. ground (arith, once h);
  below = λ h p. ground (arith, below h);
}

module _ (o : Owner) (t : Table o) (others : List ℕ) (d : IsDistinct t others) where
  abbrev opens : ℕ → ℕ
  opens h = key_count h t.objects + count h others

  allocated : IsFresh (allocate_handle t.allocator).1 (allocate_handle t.allocator).0 opens
  unfolding allocate_handle
  allocated = allocate_from-IsFresh t.allocator.closed_handles t.allocator opens refl d.once d.below

  -- A new handle is open in no table of the allocator, and the handles stay distinct.
  pub new_handle-IsDistinct :
      (obj : ℕ)
      → (key_count (new_handle o t obj).0 t.objects ≡ 0)
        × (count (new_handle o t obj).0 others ≡ 0)
        × IsDistinct (new_handle o t obj).1 others
  unfolding new_handle
  new_handle-IsDistinct obj =
      let new : opens (allocate_handle t.allocator).0 ≡ 0 = allocated.new in
      let none_there : key_count (allocate_handle t.allocator).0 t.objects ≡ 0 = omega arith in
      (
        none_there,
        omega arith,
        record {
          once = λ h. omega (arith, key_count-put h _ obj t.objects none_there, allocated.once h);
          below =
              λ h p. allocated.below h (omega (arith, key_count-put h _ obj t.objects none_there));
        },
      )

  -- Closing a handle, also one that is not open, keeps the handles distinct.
  pub close-IsDistinct : (handle : ℕ) → IsDistinct (close o t handle).1 others
  unfolding close close_object free_handle
  close-IsDistinct handle = elim (Option-cases (o.pseudo handle)) [
    | inr (obj, p) ↦ rw (p, close) d
    | inl usual ↦ elim (Option-cases (find (masked handle) t.objects)) [
      | inl none_there ↦ rw (usual, none_there, close) d
      | inr (obj, found) ↦
          rw (usual, found, close)
            (record {
              once = λ h.
                  ground
                    (arith, key_count-drop_key h (masked handle) obj t.objects found, d.once h);
              below = λ h p.
                  ground
                    (arith, key_count-drop_key h (masked handle) obj t.objects found, d.below h);
            })
    ]
  ]
