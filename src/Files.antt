-- ===== src/Files.antt =====
-- The file objects of speakeasy/windows/fileman.py: `File` and `NullDevice`. Two file objects can
-- share one buffer (`io.BytesIO`), so files and buffers are kept by number in a store. A buffer's
-- own position has no effect: each method seeks before it reads or writes.
pub mod Bytes
pub mod Shared
pub mod Io
mod Tests
use speakeasy.Base.{
  ℕ, ◌+◌, ◌%◌, Bool, true, false, Option, none, some, List, [], ◌∷◌, ◌++◌, length, take, drop,
  replicate, ◌==◌, if◌then◌else◌,
}
use speakeasy.Base.Int.{ℤ, pos, negsuc, pos_part, ◌+ℤ◌}
use speakeasy.Files.Bytes.{write_at}

-- FileEntry of the configuration: none, a host file that exists (its contents), a byte fill (the
-- value of its hexadecimal text, and its size), or an entry without data
pub data Config : Type 0 where
  no_config no_data : Config
  host_file : List ℕ → Config
  byte_fill : ℕ → ℕ → Config

pub record File : Type 0 where
  pub path : List ℕ
  -- the buffer, once there is one
  pub data_id : Option ℕ
  pub pos : ℕ
  pub origin : Option ℕ
  pub bytes_written : ℕ
  pub is_dir : Bool
  pub append : Bool
  pub config : Config
  -- a NullDevice
  pub is_null : Bool

pub record Store : Type 0 where
  pub files : ℕ → File
  pub next_file : ℕ
  pub buffers : ℕ → List ℕ
  pub next_buffer : ℕ

unfoldable pub set_at {ℓ} : {A : Type ℓ} → ℕ → A → (ℕ → A) → ℕ → A
set_at k x f j = if k == j then x else f j

abbrev pub set_file : ℕ → File → Store → Store
set_file f x s = record s { files = set_at f x s.files }

abbrev pub set_buffer : ℕ → List ℕ → Store → Store
set_buffer b x s = record s { buffers = set_at b x s.buffers }

abbrev pub new_buffer : List ℕ → Store → ℕ × Store
new_buffer bytes s = (
  s.next_buffer,
  record s { buffers = set_at s.next_buffer bytes s.buffers; next_buffer = s.next_buffer + 1 },
)

abbrev pub new_object : File → Store → ℕ × Store
new_object x s =
    (s.next_file, record s { files = set_at s.next_file x s.files; next_file = s.next_file + 1 })

-- File.__init__ but for its data, and NullDevice
abbrev pub blank : List ℕ → Config → Bool → File
blank path config is_null = record {
  path = path;
  data_id = none;
  pos = 0;
  origin = none;
  bytes_written = 0;
  is_dir = false;
  append = false;
  config = config;
  is_null = is_null;
}

-- File.__init__: empty data gives no buffer
unfoldable pub new_file : List ℕ → Config → List ℕ → Store → ℕ × Store
new_file path config [] s = new_object (blank path config false) s
new_file path config (c ∷ bytes) s =
    let (b, s') = new_buffer (c ∷ bytes) s in
    new_object (record (blank path config false) { data_id = some b }) s'

-- handle_file_data, and the empty buffer of a file without configuration
unfoldable pub handle_file_data : Config → List ℕ
handle_file_data no_config = []
handle_file_data no_data = []
handle_file_data (host_file bytes) = bytes
handle_file_data (byte_fill byte size) = replicate size (byte % 256)

-- get_buffer of the file `f`, whose `data` is given
unfoldable pub buffer_of : Option ℕ → ℕ → Store → ℕ × Store
buffer_of (some b) f s = (b, s)
buffer_of none f s =
    let (b, s') = new_buffer (handle_file_data (s.files f).config) s in
    (b, set_file f (record (s.files f) { data_id = some b }) s')

unfoldable pub get_buffer : ℕ → Store → ℕ × Store
get_buffer f s = buffer_of (s.files f).data_id f s

abbrev pub origin_or : Option ℕ → ℕ → ℕ
origin_or none f = f
origin_or (some o) f = o

unfoldable pub duplicate : ℕ → Store → ℕ × Store
duplicate f s =
    if (s.files f).is_null
    then new_object (blank (s.files f).path no_config true) s
    else (let (b, s') = get_buffer f s in
        new_object
          (record (blank (s'.files f).path (s'.files f).config false) {
            data_id = some b;
            origin = some (origin_or (s'.files f).origin f);
            is_dir = (s'.files f).is_dir;
          })
          s')

unfoldable pub get_size : ℕ → Store → ℕ × Store
get_size f s = let (b, s') = get_buffer f s in (length (s'.buffers b), s')

unfoldable pub get_contents : ℕ → Store → List ℕ × Store
get_contents f s = let (b, s') = get_buffer f s in (s'.buffers b, s')

-- buf.read(size): all of the rest for a negative size, which is `none`
unfoldable pub read_from : Option ℕ → ℕ → List ℕ → List ℕ
read_from none at bytes = drop at bytes
read_from (some size) at bytes = take size (drop at bytes)

-- the read of `get_data` at a position, which moves the file pointer behind the data
unfoldable pub read_at : ℕ → ℕ → Option ℕ → ℕ → Store → List ℕ × Store
read_at f b size at s =
    let bytes = read_from size at (s.buffers b) in
    (bytes, set_file f (record (s.files f) { pos = at + length bytes }) s)

unfoldable pub get_data : ℕ → Option ℕ → Bool → Store → List ℕ × Store
get_data f size reset_pointer s =
    if (s.files f).is_null
    then ([], s)
    else (let (b, s') = get_buffer f s in
        if (s'.files f).pos == length (s'.buffers b)
        then (if reset_pointer then read_at f b size 0 s' else ([], s'))
        else read_at f b size (s'.files f).pos s')

pub data Whence : Type 0 where
  seek_set seek_cur seek_end other_whence : Whence

-- BytesIO.seek: a negative offset from the start is a ValueError, which is `none`; the other
-- positions stop at 0
unfoldable pub seek_position : Whence → ℕ → ℕ → ℤ → Option ℕ
seek_position seek_set at size (pos n) = some n
seek_position seek_set at size (negsuc n) = none
seek_position seek_cur at size offset = some (pos_part (pos at +ℤ offset))
seek_position seek_end at size offset = some (pos_part (pos size +ℤ offset))
seek_position other_whence at size offset = some at

-- the result is False for a ValueError
unfoldable pub moved : ℕ → Option ℕ → Store → Bool × Store
moved f none s = (false, s)
moved f (some p) s = (true, set_file f (record (s.files f) { pos = p }) s)

unfoldable pub seek : ℕ → ℤ → Whence → Store → Bool × Store
seek f offset other_whence s = (true, s)
seek f offset whence s =
    let (b, s') = get_buffer f s in
    moved f (seek_position whence (s'.files f).pos (length (s'.buffers b)) offset) s'

unfoldable pub tell : ℕ → Store → ℕ
tell f s = (s.files f).pos

-- `bytes_written` of the file and of its origin
unfoldable pub count_at : ℕ → ℕ → Store → Store
count_at f n s = set_file f (record (s.files f) { bytes_written = (s.files f).bytes_written + n }) s

unfoldable pub count_origin : Option ℕ → ℕ → Store → Store
count_origin none n s = s
count_origin (some o) n s = count_at o n s

unfoldable pub count_written : ℕ → ℕ → Store → Store
count_written f n s = count_origin (s.files f).origin n (count_at f n s)

unfoldable pub add_data : ℕ → List ℕ → Store → Store
add_data f bytes s =
    if (s.files f).is_null
    then s
    else (let (b, s') = get_buffer f s in
        count_written f (length bytes) (set_buffer b (s'.buffers b ++ bytes) s'))

-- the file pointer of a write: the end for an append-only handle
unfoldable pub write_position : File → List ℕ → ℕ
write_position x bytes = if x.append then length bytes else x.pos

unfoldable pub write_data : ℕ → List ℕ → Store → Store
write_data f bytes s =
    if (s.files f).is_null
    then s
    else (let (b, s') = get_buffer f s in
        let at = write_position (s'.files f) (s'.buffers b) in
        let written = set_buffer b (write_at (s'.buffers b) at bytes) s' in
        count_written f (length bytes)
          (set_file f (record (s'.files f) { pos = at + length bytes }) written))

unfoldable pub remove_data : ℕ → Store → Store
remove_data f s =
    let (b, s') = get_buffer f s in
    set_buffer b [] (set_file f (record (s'.files f) { pos = 0 }) s')
