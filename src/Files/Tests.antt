-- ===== src/Files/Tests.antt =====
-- A file with four bytes, with its pointer at the second, and its duplicate.
use speakeasy.Base.{ℕ, ◌≡◌, refl, true, false, none, some, List, [], ◌∷◌, arith}
use speakeasy.Base.Int.{pos}
use speakeasy.Files.Bytes.{before, write_at}
use speakeasy.Files.{
  File, Store, no_config, set_at, new_file, handle_file_data, buffer_of, get_buffer, get_contents,
  read_from, read_at, get_data, seek_position, moved, seek, seek_set, count_at, count_origin,
  count_written, write_position, write_data, duplicate, blank,
}
use speakeasy.Files.Io.{contents, target, get_data-write_data}
use speakeasy.Files.Shared.{duplicate-write_data}

program : Unit {0}
unfolding before write_at set_at new_file handle_file_data buffer_of get_buffer get_contents
    read_from read_at get_data seek_position moved seek count_at count_origin count_written
    write_position write_data duplicate
program = tt

abbrev file : File
file = record (blank (b'a' ∷ []) no_config false) { data_id = some 0; pos = 1 }

abbrev store : Store
store = record {
  files = λ f. file;
  next_file = 1;
  buffers = λ b. 10 ∷ 20 ∷ 30 ∷ 40 ∷ [];
  next_buffer = 1;
}

-- the same file, open for appending
abbrev append_store : Store
append_store = record store { files = λ f. record file { append = true } }

abbrev bytes : List ℕ
bytes = 7 ∷ 8 ∷ []

get_data-write_data_example :
    (get_data 0
      (some 2)
      false
      (seek 0 (pos (target 0 store)) seek_set (write_data 0 bytes store)).1).0
    ≡ bytes
get_data-write_data_example = get_data-write_data 0 bytes store refl

duplicate-write_data_example :
    (contents (duplicate 0 store).0 (write_data 0 bytes (duplicate 0 store).1)
      ≡ write_at (contents 0 store) (target 0 store) bytes)
    × (((write_data 0 bytes (duplicate 0 store).1).files (duplicate 0 store).0).pos ≡ 0)
    × (contents 0 (write_data (duplicate 0 store).0 bytes (duplicate 0 store).1)
        ≡ write_at (contents 0 store) 0 bytes)
    × (((write_data (duplicate 0 store).0 bytes (duplicate 0 store).1).files 0).pos ≡ 1)
duplicate-write_data_example = duplicate-write_data 0 store refl (omega arith) bytes

values :
    (contents 0 (write_data 0 bytes store) ≡ 10 ∷ 7 ∷ 8 ∷ 40 ∷ [])
    × (write_at (1 ∷ []) 3 bytes ≡ 1 ∷ 0 ∷ 0 ∷ 7 ∷ 8 ∷ [])
    × ((get_data 0 none false store).0 ≡ 20 ∷ 30 ∷ 40 ∷ [])
unfolding program
values = (refl, refl, refl)
