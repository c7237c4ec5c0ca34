-- ===== src/Files/Io.antt =====
-- Reads and writes of one file object of speakeasy/windows/fileman.py.
use speakeasy.Base.{
  ℕ, ◌+◌, ◌≡◌, refl, sym, ap, ◌∙◌, ◌≢◌, inl, inr, Bool, true, false, Option, none, some, List, [],
  ◌∷◌, ◌++◌, length, take, drop, ◌==◌, if◌then◌else◌, Bool-cases, Option-cases, ==_iff, arith,
}
use speakeasy.Base.Int.{pos}
use speakeasy.Files.Bytes.{write_at, read-write_at, length-write_at, write_at_end}
use speakeasy.Files.{
  File, Store, set_at, set_file, set_buffer, handle_file_data, buffer_of, get_buffer, get_contents,
  read_from, read_at, get_data, seek_set, seek_position, moved, seek, count_at, count_origin,
  count_written, write_position, write_data,
}

pub set_at_same {ℓ} : {A : Type ℓ} (k : ℕ) (x : A) (f : ℕ → A) → set_at k x f k ≡ x
unfolding set_at
set_at_same k x f = ground arith

pub set_at_other {ℓ} : {A : Type ℓ} (k j : ℕ) (x : A) (f : ℕ → A) → k ≢ j → set_at k x f j ≡ f j
unfolding set_at
set_at_other k j x f h = ground arith

-- the contents of a file
abbrev pub contents : ℕ → Store → List ℕ
contents f s = (get_contents f s).0

-- a field of a file that a count of written bytes keeps
module _ {A : Type 0} (field : File → A)
    (kept : (x : File) (n : ℕ) → field (record x { bytes_written = n }) ≡ field x) where
  count_at_field :
      (f n : ℕ) (s : Store) (g : ℕ) → field ((count_at f n s).files g) ≡ field (s.files g)
  unfolding count_at set_at
  count_at_field f n s g = elim (Bool-cases (f == g)) [
    | inl same ↦ rw same (
        kept (s.files f) ((s.files f).bytes_written + n)
        ∙ ap (λ k. field (s.files k)) ((==_iff f g).0 same))
    | inr other ↦ rw other refl
  ]

  pub count_written_field :
      (f n : ℕ) (s : Store) (g : ℕ) → field ((count_written f n s).files g) ≡ field (s.files g)
  unfolding count_written count_origin
  count_written_field f n s g = elim (Option-cases (s.files f).origin) [
    | inl none_there ↦ rw (none_there, count_origin) (count_at_field f n s g)
    | inr (o, there) ↦
        rw (there, count_origin) (count_at_field o n (count_at f n s) g ∙ count_at_field f n s g)
  ]

pub count_written_buffers : (f n : ℕ) (s : Store) → (count_written f n s).buffers ≡ s.buffers
unfolding count_written count_origin count_at
count_written_buffers f n s = elim (Option-cases (s.files f).origin) [
  | inl none_there ↦ rw (none_there, count_origin) refl
  | inr (o, there) ↦ rw (there, count_origin) refl
]

buffer_kept :
    (f b : ℕ) (s : Store)
    → (buffer_of (some b) f s).1.buffers (buffer_of (some b) f s).0 ≡ s.buffers b
unfolding buffer_of
buffer_kept f b s = refl

buffer_fresh :
    (f : ℕ) (s : Store)
    → (buffer_of none f s).1.buffers (buffer_of none f s).0 ≡ handle_file_data (s.files f).config
unfolding buffer_of
buffer_fresh f s = set_at_same s.next_buffer (handle_file_data (s.files f).config) s.buffers

-- a file that has a buffer, and a file that has none yet
pub contents_of : (f b : ℕ) (s : Store) → (s.files f).data_id ≡ some b → contents f s ≡ s.buffers b
unfolding get_contents get_buffer
contents_of f b s e =
    ap (λ (d : Option ℕ). (buffer_of d f s).1.buffers (buffer_of d f s).0) e ∙ buffer_kept f b s

pub contents-none :
    (f : ℕ) (s : Store)
    → (s.files f).data_id ≡ none
    → contents f s ≡ handle_file_data (s.files f).config
unfolding get_contents get_buffer
contents-none f s e =
    ap (λ (d : Option ℕ). (buffer_of d f s).1.buffers (buffer_of d f s).0) e ∙ buffer_fresh f s

-- `get_buffer` gives the file a buffer, and keeps its contents and its other fields
pub record HasBuffer (f : ℕ) (s : Store) (b : ℕ) (s' : Store) : Type 0 where
  pub has_id : (s'.files f).data_id ≡ some b
  pub kept : s'.buffers b ≡ contents f s
  pub file : s'.files f ≡ record (s.files f) { data_id = some b }

buffer_of-HasBuffer :
    (d : Option ℕ) (f : ℕ) (s : Store)
    → (s.files f).data_id ≡ d
    → HasBuffer f s (buffer_of d f s).0 (buffer_of d f s).1
unfolding buffer_of
buffer_of-HasBuffer (some b) f s e = record {
  has_id = e;
  kept = sym (contents_of f b s e);
  file = ap (λ (d : Option ℕ). record (s.files f) { data_id = d }) e;
}
buffer_of-HasBuffer none f s e = record {
  has_id = ap (λ (x : File). x.data_id) (set_at_same f _ s.files);
  kept = set_at_same s.next_buffer _ s.buffers ∙ sym (contents-none f s e);
  file = set_at_same f _ s.files;
}

pub get_buffer-HasBuffer : (f : ℕ) (s : Store) → HasBuffer f s (get_buffer f s).0 (get_buffer f s).1
unfolding get_buffer
get_buffer-HasBuffer f s = buffer_of-HasBuffer (s.files f).data_id f s refl

-- where a write of the file goes
abbrev pub target : ℕ → Store → ℕ
target f s = write_position (s.files f) (contents f s)

at_end : (x : File) (bytes : List ℕ) → x.append ≡ true → write_position x bytes ≡ length bytes
unfolding write_position
at_end x bytes e = rw e refl

module _ (f : ℕ) (bytes : List ℕ) (s : Store) (usual : (s.files f).is_null ≡ false) where
  abbrev b : ℕ
  b = (get_buffer f s).0

  abbrev s' : Store
  s' = (get_buffer f s).1

  position : write_position (s'.files f) (s'.buffers b) ≡ target f s
  unfolding write_position
  position = let has = get_buffer-HasBuffer f s in rw (has.file, has.kept) refl

  -- the state before the counts
  abbrev written : Store
  written =
      set_file f (record (s'.files f) { pos = target f s + length bytes })
        (set_buffer b (write_at (contents f s) (target f s) bytes) s')

  pub write_data-written : write_data f bytes s ≡ count_written f (length bytes) written
  unfolding write_data write_position
  write_data-written = rw usual (rw position (rw (get_buffer-HasBuffer f s).kept refl))

  pub data_id-write_data : ((write_data f bytes s).files f).data_id ≡ some b
  data_id-write_data = rw write_data-written (
      count_written_field (λ x. x.data_id) (λ x n. refl) f (length bytes) written f
      ∙ ap (λ (x : File). x.data_id) (set_at_same f _ s'.files)
      ∙ (get_buffer-HasBuffer f s).has_id)

  pub buffers-write_data :
      (write_data f bytes s).buffers
      ≡ set_at b (write_at (contents f s) (target f s) bytes) s'.buffers
  buffers-write_data = rw write_data-written (count_written_buffers f (length bytes) written)

  pub contents-write_data :
      contents f (write_data f bytes s) ≡ write_at (contents f s) (target f s) bytes
  contents-write_data =
      contents_of f b (write_data f bytes s) data_id-write_data
      ∙ ap (λ (g : ℕ → List ℕ). g b) buffers-write_data
      ∙ set_at_same b _ s'.buffers

  pub pos-write_data : ((write_data f bytes s).files f).pos ≡ target f s + length bytes
  pos-write_data = rw write_data-written (
      count_written_field (λ x. x.pos) (λ x n. refl) f (length bytes) written f
      ∙ ap (λ (x : File). x.pos) (set_at_same f _ s'.files))

  pub is_null-write_data : ((write_data f bytes s).files f).is_null ≡ false
  is_null-write_data = rw write_data-written (
      count_written_field (λ x. x.is_null) (λ x n. refl) f (length bytes) written f
      ∙ ap (λ (x : File). x.is_null) (set_at_same f _ s'.files)
      ∙ ap (λ (x : File). x.is_null) (get_buffer-HasBuffer f s).file
      ∙ usual)

  -- A write to a file that is open for appending puts the data at the end, wherever the file pointer
  -- is, and moves the file pointer to the new end.
  pub write_data_append :
      (s.files f).append ≡ true
      → (contents f (write_data f bytes s) ≡ contents f s ++ bytes)
        × (((write_data f bytes s).files f).pos ≡ length (contents f s) + length bytes)
  write_data_append append =
      let end : target f s ≡ length (contents f s) = at_end (s.files f) (contents f s) append in
      (
        contents-write_data ∙ rw end (write_at_end (contents f s) bytes),
        pos-write_data ∙ rw end refl,
      )

-- what a read gives at a file pointer of a buffer
abbrev read_of : ℕ → ℕ → List ℕ → List ℕ
read_of n at buffer = if at == length buffer then [] else take n (drop at buffer)

-- a read of a file that has a buffer
get_data_of :
    (f b n : ℕ) (s : Store)
    → (s.files f).is_null ≡ false
    → (s.files f).data_id ≡ some b
    → (get_data f (some n) false s).0 ≡ read_of n (s.files f).pos (s.buffers b)
unfolding get_data get_buffer read_at read_from buffer_of
get_data_of f b n s usual has = rw usual (ap (λ (d : Option ℕ). (read_with d).0) has ∙ got)
  where
    read_with : Option ℕ → List ℕ × Store
    read_with d =
        let (b, s') = buffer_of d f s in
        if (s'.files f).pos == length (s'.buffers b)
        then ([], s')
        else read_at f b (some n) (s'.files f).pos s'

    got : (read_with (some b)).0 ≡ read_of n (s.files f).pos (s.buffers b)
    got = elim (Bool-cases ((s.files f).pos == length (s.buffers b))) [
      | inl end ↦ rw end refl
      | inr more ↦ rw more refl
    ]

read_of-write_at :
    (buffer : List ℕ) (at : ℕ) (bytes : List ℕ)
    → read_of (length bytes) at (write_at buffer at bytes) ≡ bytes
read_of-write_at buffer at [] = elim (Bool-cases (at == length (write_at buffer at []))) [
  | inl end ↦ rw end refl
  | inr more ↦ rw more refl
]
read_of-write_at buffer at (c ∷ bytes) =
    let inside : (at == length (write_at buffer at (c ∷ bytes))) ≡ false =
      ground (arith, length-write_at buffer at c bytes) in
    rw inside (read-write_at buffer at (c ∷ bytes))

-- the file pointer after a seek from the start
seek_set_lem :
    (f b at : ℕ) (s : Store)
    → (s.files f).data_id ≡ some b
    → (seek f (pos at) seek_set s).1 ≡ set_file f (record (s.files f) { pos = at }) s
unfolding seek get_buffer buffer_of moved seek_position
seek_set_lem f b at s has = ap (λ (d : Option ℕ). (sought d).1) has
  where
    sought : Option ℕ → Bool × Store
    sought d =
        let (b, s') = buffer_of d f s in
        moved f (seek_position seek_set (s'.files f).pos (length (s'.buffers b)) (pos at)) s'

-- What is written to a file is read back from the position where it was written, also behind the
-- old end of the file and for a file that had no buffer yet.
pub get_data-write_data :
    (f : ℕ) (bytes : List ℕ) (s : Store)
    → (s.files f).is_null ≡ false
    → (get_data f
        (some (length bytes))
        false
        (seek f (pos (target f s)) seek_set (write_data f bytes s)).1).0
      ≡ bytes
get_data-write_data f bytes s usual =
    let b : ℕ = (get_buffer f s).0 in
    let after : Store = write_data f bytes s in
    let has = data_id-write_data f bytes s usual in
    let back : Store = set_file f (record (after.files f) { pos = target f s }) after in
    let at : back.files f ≡ record (after.files f) { pos = target f s } =
      set_at_same f _ after.files in
    rw (seek_set_lem f b (target f s) after has) (
      get_data_of f b (length bytes) back
        (ap (λ (x : File). x.is_null) at ∙ is_null-write_data f bytes s usual)
        (ap (λ (x : File). x.data_id) at ∙ has)
      ∙ ap (λ (x : File). read_of (length bytes) x.pos (after.buffers b)) at
      ∙ ap (λ (buffer : List ℕ). read_of (length bytes) (target f s) buffer)
          (sym (contents_of f b after has) ∙ contents-write_data f bytes s usual)
      ∙ read_of-write_at (contents f s) (target f s) bytes)
