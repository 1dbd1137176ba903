-- ===== src/Disk/Tests.antt =====
-- Runs of the file object, and its theorems at concrete data.
use pungoo.Common.{
  ◌≤◌, ◌++◌, ℕ, ◌≡◌, refl, false, none, some, List, [], ◌∷◌, arith, done, undefined, Run, Ends,
  replicate,
}
use pungoo.Common.Int.{ℤ, pos, negsuc, minus_one}
use pungoo.Clib.Bytes.{Bytes, lit, c_str, str_eq}
use pungoo.Clib.Stdio.{
  Fate, broken, Mode, reading, writing, Stream, World, set_stream, set_file, fread, fwrite, ferror,
  feof, overwrite,
}
use pungoo.Disk.{
  Disk, disk_t_file_open, disk_t_file_close, disk_t_destroy, disk_t_file_read, disk_t_file_write,
  disk_t_file_seek, eagain, file_open_mod_read,
}
use pungoo.Disk.Read.{IsOpenAt, ReadResult, disk_t_file_read-ReadResult}
use pungoo.Disk.Write.{IsWritableAt, WriteResult, disk_t_file_write-WriteResult}
use pungoo.Disk.Objects.{
  closed_world, disk_t_file_close-undefined, disk_t_file_seek-IsOpenAt, unopened,
}
use pungoo.Disk.Opening.{Opened, disk_t_file_open-Opened}

abbrev name : Bytes
name = lit "f"

abbrev letters : Bytes
letters = lit "abcdef"

abbrev stream_of : Mode → ℕ → Stream
stream_of mode offset = record {
  path = name;
  mode = mode;
  offset = offset;
  at_eof = false;
  error = 0;
}

-- A world with the one file, open as stream 0.
abbrev world_of : Mode → ℕ → List Fate → World
world_of mode offset fates = record {
  files = set_file name letters (λ _. none);
  streams = set_stream 0 (some (stream_of mode offset)) (λ _. none);
  next = 1;
  fates = fates;
  slept = 0;
}

abbrev object : Disk
object = record { filename_ = lit "f" ++ (0 ∷ []); handle_ = some 0; flag_ = file_open_mod_read }

-- The same object before its open.
abbrev closed_object : ℤ → Disk
closed_object flag = record object { handle_ = none; flag_ = flag }

-- The world before the open.
abbrev still_world : World
still_world = record (world_of reading 0 []) { streams = λ _. none; next = 7 }

IsOpenAt-start :
    (o : ℕ) (fates : List Fate) → o ≤ 6 → IsOpenAt 0 letters o (world_of reading o fates)
unfolding str_eq
IsOpenAt-start o fates h = record {
  stream = stream_of reading o;
  opened = refl;
  mode = refl;
  offset = refl;
  ended = λ g. cc;
  file = refl;
}

IsWritableAt-start :
    (o : ℕ) (fates : List Fate) → IsWritableAt 0 name letters o (world_of writing o fates)
unfolding str_eq
IsWritableAt-start o fates = record {
  stream = stream_of writing o;
  opened = refl;
  mode = λ g. cc;
  path_of = refl;
  offset = refl;
  file = refl;
}

-- An interrupted fread of two bytes, then one retry, then the rest up to the end of the file.
interrupted : Run (ℤ × Bytes × World)
unfolding disk_t_file_read fread ferror feof str_eq
interrupted =
    disk_t_file_read (some object) (replicate 8 0) (pos 8)
      (world_of reading 1 (broken 2 eagain ∷ broken 0 eagain ∷ []))

interrupted_bytes :
    Ends
      (λ (r, b, v). (r ≡ pos 5) × (b ≡ lit "bcdef" ++ (0 ∷ 0 ∷ 0 ∷ [])) × (v.slept ≡ 10_000))
      interrupted
unfolding interrupted
interrupted_bytes = (refl, refl, refl)

-- A file that can not be written to the end: the call returns 0, and two bytes are written.
full_disk : Run (ℤ × World)
unfolding disk_t_file_write fwrite ferror str_eq overwrite
full_disk =
    disk_t_file_write (some object) (lit "xyz") (pos 3)
      (world_of writing 4 (broken 2 5 ∷ broken 0 5 ∷ []))

full_disk_bytes : Ends (λ (r, v). (r ≡ pos 0) × (v.files name ≡ some (lit "abcdxy"))) full_disk
unfolding full_disk
full_disk_bytes = (refl, refl)

disk_t_file_read-ReadResult_example :
    Ends
      (λ (r, b, v).
        ReadResult 0 (pos 8) (replicate 8 0) letters 1 (world_of reading 1 (broken 2 5 ∷ [])) r b v)
      (disk_t_file_read
        (some object)
        (replicate 8 0)
        (pos 8)
        (world_of reading 1 (broken 2 5 ∷ [])))
disk_t_file_read-ReadResult_example =
    disk_t_file_read-ReadResult object 0 (replicate 8 0) letters 1 (pos 8)
      (world_of reading 1 (broken 2 5 ∷ [])) refl (IsOpenAt-start 1 _ (omega arith)) (omega arith)

disk_t_file_write-WriteResult_example :
    Ends
      (λ (r, v).
        WriteResult 0 name (lit "xyz") (pos 3) letters 4 (world_of writing 4 (broken 2 5 ∷ [])) r v)
      (disk_t_file_write (some object) (lit "xyz") (pos 3) (world_of writing 4 (broken 2 5 ∷ [])))
disk_t_file_write-WriteResult_example =
    disk_t_file_write-WriteResult object 0 name (lit "xyz") (pos 3) letters 4
      (world_of writing 4 (broken 2 5 ∷ [])) refl (IsWritableAt-start 4 _) (omega arith)

disk_t_file_open-Opened_example :
    Ends
      (Opened (closed_object file_open_mod_read) name still_world)
      (disk_t_file_open (some (closed_object file_open_mod_read)) still_world)
unfolding c_str
disk_t_file_open-Opened_example =
    disk_t_file_open-Opened (closed_object file_open_mod_read) name still_world refl

abbrev faulty_world : World
faulty_world = world_of reading 0 (broken 0 5 ∷ [])

abbrev calm_world : World
calm_world = world_of reading 0 []

disk_t_file_close-undefined_example :
    (disk_t_file_close (some object) faulty_world
      ≡ done (minus_one, some object, closed_world 0 (stream_of reading 0) faulty_world))
    × (disk_t_file_close (some object) (closed_world 0 (stream_of reading 0) faulty_world)
        ≡ undefined)
    × (disk_t_destroy (some object) (closed_world 0 (stream_of reading 0) faulty_world) ≡ undefined)
disk_t_file_close-undefined_example =
    disk_t_file_close-undefined object 0 faulty_world refl (stream_of reading 0) refl (λ e. cc)

disk_t_file_seek-IsOpenAt_example :
    ((v : World) × (disk_t_file_seek (some object) (pos 9) (world_of reading 3 [])
        ≡ done (pos 0, v))
      × IsOpenAt 0 letters 9 v
      × (v.files ≡ (world_of reading 3 []).files))
    × ((v : World) × (disk_t_file_seek (some object) (negsuc 9) (world_of reading 3 [])
          ≡ done (minus_one, v))
        × IsOpenAt 0 letters 3 v
        × (v.files ≡ (world_of reading 3 []).files))
disk_t_file_seek-IsOpenAt_example =
    disk_t_file_seek-IsOpenAt object 0 letters 3 (world_of reading 3 []) refl
      (IsOpenAt-start 3 [] (omega arith)) refl 9

unopened_example :
    let d = closed_object file_open_mod_read in
    (disk_t_file_close (some d) still_world ≡ done (minus_one, some d, still_world))
    × (disk_t_destroy (some d) still_world ≡ done (pos 0, still_world))
    × (disk_t_file_seek (some d) (pos 2) still_world ≡ undefined)
    × (disk_t_file_read (some d) letters (pos 3) still_world ≡ undefined)
    × (disk_t_file_write (some d) letters (pos 3) still_world ≡ undefined)
unopened_example = unopened (closed_object file_open_mod_read) letters 2 still_world refl
