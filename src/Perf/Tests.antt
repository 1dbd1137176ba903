-- ===== src/Perf/Tests.antt =====
-- A round of the writer and one of the reader, at concrete data.
use pungoo.Common.{
  Bool, Run, done, Option, some, false, ◌≡◌, ◌≤◌, ◌+◌, ◌*◌, refl, true, none, [], ◌∷◌, arith, Ends,
}
use pungoo.Common.Int.{pos}
use pungoo.Clib.Bytes.{c_str, Bytes, lit, decimal, str_eq}
use pungoo.Clib.Stdio.{fopen, fwrite, ferror, fclose, smooth, broken, World, set_file}
use pungoo.Disk.{disk_t_destroy}
use pungoo.Perf.Reader.{LeavesFiles, main_read-LeavesFiles}
use pungoo.Perf.{
  main_read, pattern_from, file_len, file_count, main_write, file_name, read_file, write_file,
}
use pungoo.Perf.Whole.{HoldSeries, main_write-main_read}
use pungoo.Perf.Readback.{FileWasRead, read_file-FileWasRead}

file_name_7 : file_name 7 ≡ lit "./cache/data00007"
unfolding file_name decimal
file_name_7 = refl

abbrev name : Bytes
name = lit "f"

-- One file, and a kernel that breaks the second call.
abbrev small_world : World
small_world = record {
  files = set_file name (lit "abcdef") (λ _. none);
  streams = λ _. none;
  next = 3;
  fates = broken 0 4 ∷ broken 1 5 ∷ [];
  slept = 0;
}

read_file-FileWasRead_example :
    Ends
      (λ (ok, b, v). FileWasRead 2 (lit "abcdef") small_world ok b v)
      (read_file true 2 name small_world)
unfolding str_eq
read_file-FileWasRead_example =
    read_file-FileWasRead 2 name (lit "abcdef") small_world (omega arith) refl refl (omega arith)
      (omega arith)

-- A kernel that breaks the third call, the fclose: the round counts as good, and the file is short.
abbrev losing_world : World
losing_world = record small_world { fates = smooth ∷ smooth ∷ broken 3 28 ∷ [] }

written_content : Run (Bool × World) → Bool × Option Bytes
written_content (done (ok, v)) = (ok, v.files name)
written_content _ = (false, none)

loses_bytes :
    written_content (write_file true (lit "pattern") 7 name losing_world)
    ≡ (true, some (lit "patt"))
unfolding write_file written_content str_eq c_str fopen fwrite ferror disk_t_destroy fclose
loses_bytes = refl

main_read-LeavesFiles_example :
    Ends (λ (r, v). (r ≡ pos 0) × LeavesFiles small_world v) (main_read true small_world)
main_read-LeavesFiles_example = main_read-LeavesFiles small_world λ n h. refl

-- No fault and no file.
abbrev calm_world : World
calm_world = record { files = λ p. none; streams = λ h. none; next = 3; fates = []; slept = 0 }

main_write-main_read_example :
    Ends
      (λ (r, v).
        (r ≡ pos 0)
        × HoldSeries file_count 0 (pattern_from 0 file_len) v
        × Ends
            (λ (r', u).
              (r' ≡ pos 0)
              × (u.streams ≡ calm_world.streams)
              × (u.files ≡ v.files)
              × (v.slept + 100 * file_count ≤ u.slept))
            (main_read true v))
      (main_write true calm_world)
main_write-main_read_example = main_write-main_read calm_world (λ n above. refl) refl
