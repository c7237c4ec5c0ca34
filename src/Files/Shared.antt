-- ===== src/Files/Shared.antt =====
-- File objects that share a buffer, and file objects that do not (speakeasy/windows/fileman.py):
-- `duplicate` and `write_data`.
use speakeasy.Base.{
  ℕ, ◌<◌, ◌≡◌, refl, sym, ap, ◌∙◌, ◌≢◌, false, Option, none, some, List, length, arith,
}
use speakeasy.Files.Bytes.{write_at}
use speakeasy.Files.{
  File, Store, new_object, blank, origin_or, buffer_of, get_buffer, write_position, write_data,
  duplicate,
}
use speakeasy.Files.Io.{
  set_at_same, set_at_other, contents, count_written_field, contents_of, get_buffer-HasBuffer,
  target, write_data-written, data_id-write_data, contents-write_data,
}

get_buffer_of : (f b : ℕ) (s : Store) → (s.files f).data_id ≡ some b → get_buffer f s ≡ (b, s)
unfolding get_buffer buffer_of
get_buffer_of f b s has = ap (λ (d : Option ℕ). buffer_of d f s) has

-- a field of another file object after a write
module _ {A : Type 0} (field : File → A)
    (kept : (x : File) (n : ℕ) → field (record x { bytes_written = n }) ≡ field x) where
  write_data-field :
      (f g : ℕ) (bytes : List ℕ) (s : Store)
      → (s.files f).is_null ≡ false
      → f ≢ g
      → field ((write_data f bytes s).files g) ≡ field ((get_buffer f s).1.files g)
  write_data-field f g bytes s usual apart = rw (write_data-written f bytes s usual) (
      count_written_field field kept f (length bytes) _ g
      ∙ ap field (set_at_other f g _ (get_buffer f s).1.files apart))

get_buffer-other : (f g : ℕ) (s : Store) → f ≢ g → (get_buffer f s).1.files g ≡ s.files g
unfolding get_buffer buffer_of
get_buffer-other f g s apart = of_id (s.files f).data_id
  where
    of_id : (d : Option ℕ) → (buffer_of d f s).1.files g ≡ s.files g
    of_id (some b) = refl
    of_id none = set_at_other f g _ s.files apart

-- two objects of one buffer
module _ (f g b : ℕ) (bytes : List ℕ) (s : Store) (apart : f ≢ g)
    (usual : (s.files f).is_null ≡ false) (f_has : (s.files f).data_id ≡ some b)
    (g_has : (s.files g).data_id ≡ some b) where
  shared_write :
      (contents g (write_data f bytes s)
        ≡ write_at (s.buffers b) (write_position (s.files f) (s.buffers b)) bytes)
      × (((write_data f bytes s).files g).pos ≡ (s.files g).pos)
  shared_write =
      let same = get_buffer_of f b s f_has in
      let g_still =
        write_data-field (λ x. x.data_id) (λ x n. refl) f g bytes s usual apart
        ∙ ap (λ (x : File). x.data_id) (get_buffer-other f g s apart)
        ∙ g_has in
      let f_still = data_id-write_data f bytes s usual ∙ ap (λ (r : ℕ × Store). some r.0) same in
      (
        contents_of g b (write_data f bytes s) g_still
            ∙ sym (contents_of f b (write_data f bytes s) f_still)
            ∙ contents-write_data f bytes s usual
            ∙ ap (λ (buffer : List ℕ). write_at buffer (write_position (s.files f) buffer) bytes)
                (contents_of f b s f_has),
        write_data-field (λ x. x.pos) (λ x n. refl) f g bytes s usual apart
            ∙ ap (λ (x : File). x.pos) (get_buffer-other f g s apart),
      )

get_buffer-next_file : (f : ℕ) (s : Store) → (get_buffer f s).1.next_file ≡ s.next_file
unfolding get_buffer buffer_of
get_buffer-next_file f s = of_id (s.files f).data_id
  where
    of_id : (d : Option ℕ) → (buffer_of d f s).1.next_file ≡ s.next_file
    of_id (some b) = refl
    of_id none = refl

module _ (f : ℕ) (s : Store) (usual : (s.files f).is_null ≡ false) (exists : f < s.next_file) where
  abbrev g : ℕ
  g = (duplicate f s).0

  abbrev s1 : Store
  s1 = (duplicate f s).1

  abbrev b : ℕ
  b = (get_buffer f s).0

  abbrev s' : Store
  s' = (get_buffer f s).1

  -- the object of the duplicate
  abbrev object : File
  object = record (blank (s'.files f).path (s'.files f).config false) {
    data_id = some b;
    origin = some (origin_or (s'.files f).origin f);
    is_dir = (s'.files f).is_dir;
  }

  duplicate_usual : duplicate f s ≡ new_object object s'
  unfolding duplicate
  duplicate_usual = rw usual refl

  number : g ≡ s.next_file
  number = ap (λ (r : ℕ × Store). r.0) duplicate_usual ∙ (get_buffer-next_file f s)

  apart : f ≢ g
  apart = omega (arith, number)

  new_data : (s1.files g).data_id ≡ some b
  new_data =
      ap (λ (r : ℕ × Store). (r.1.files r.0).data_id) duplicate_usual
      ∙ (ap (λ (x : File). x.data_id) (set_at_same s'.next_file object s'.files))

  new_pos : (s1.files g).pos ≡ 0
  new_pos =
      ap (λ (r : ℕ × Store). (r.1.files r.0).pos) duplicate_usual
      ∙ (ap (λ (x : File). x.pos) (set_at_same s'.next_file object s'.files))

  new_null : (s1.files g).is_null ≡ false
  new_null =
      ap (λ (r : ℕ × Store). (r.1.files r.0).is_null) duplicate_usual
      ∙ (ap (λ (x : File). x.is_null) (set_at_same s'.next_file object s'.files))

  new_append : (s1.files g).append ≡ false
  new_append =
      ap (λ (r : ℕ × Store). (r.1.files r.0).append) duplicate_usual
      ∙ (ap (λ (x : File). x.append) (set_at_same s'.next_file object s'.files))

  old_file : s1.files f ≡ record (s.files f) { data_id = some b }
  old_file =
      ap (λ (r : ℕ × Store). r.1.files f) duplicate_usual
      ∙ (set_at_other s'.next_file f object s'.files (omega (arith, get_buffer-next_file f s))
          ∙ (get_buffer-HasBuffer f s).file)

  same_buffer : s1.buffers b ≡ contents f s
  same_buffer =
      ap (λ (r : ℕ × Store). r.1.buffers b) duplicate_usual ∙ (get_buffer-HasBuffer f s).kept

  -- A duplicate of a file has the contents of the file, and its own position, 0.
  pub duplicate-contents :
      (contents g s1 ≡ contents f s) × ((s1.files g).pos ≡ 0) × ((s1.files f).pos ≡ (s.files f).pos)
  duplicate-contents =
      (contents_of g b s1 new_data ∙ same_buffer, new_pos, ap (λ (x : File). x.pos) old_file)

  -- A write through a file shows in the contents of its duplicate, and a write through the duplicate
  -- in those of the file; neither write moves the file pointer of the other object.
  pub duplicate-write_data :
      (bytes : List ℕ)
      → (contents g (write_data f bytes s1) ≡ write_at (contents f s) (target f s) bytes)
        × (((write_data f bytes s1).files g).pos ≡ 0)
        × (contents f (write_data g bytes s1) ≡ write_at (contents f s) 0 bytes)
        × (((write_data g bytes s1).files f).pos ≡ (s.files f).pos)
  unfolding write_position
  duplicate-write_data bytes =
      let old_null = ap (λ (x : File). x.is_null) old_file ∙ usual in
      let old_data = ap (λ (x : File). x.data_id) old_file in
      let (there, there_pos) = shared_write f g b bytes s1 apart old_null old_data new_data in
      let (back, back_pos) =
        shared_write g f b bytes s1 (λ e. apart (sym e)) new_null new_data old_data in
      (
        there
            ∙ ap (λ (x : File). write_at (s1.buffers b) (write_position x (s1.buffers b)) bytes)
                old_file
            ∙ ap (λ (buffer : List ℕ). write_at buffer (write_position (s.files f) buffer) bytes)
                same_buffer,
        there_pos ∙ new_pos,
        back
            ∙ rw new_append
                (rw new_pos (ap (λ (buffer : List ℕ). write_at buffer 0 bytes) same_buffer)),
        back_pos ∙ ap (λ (x : File). x.pos) old_file,
      )
