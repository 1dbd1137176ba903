-- ===== src/Perf/Reader.antt =====
-- The whole of read.c: what it leaves behind.
use pungoo.Common.{
  ℕ, zero, suc, ◌+◌, ◌<◌, ◌≤◌, ◌≡◌, inl, inr, refl, ◌∙◌, ap, Bool, true, false, Option-cases, none,
  [], arith, length, replicate, length-replicate, done, Ends, Ends-bind, Ends-weaken,
}
use pungoo.Common.Int.{pos}
use pungoo.Clib.Bytes.{Bytes, IsText}
use pungoo.Clib.Stdio.{World, later_fates, usleep}
use pungoo.Clib.Stdio.Streams.{fopen-missing}
use pungoo.Disk.{file_open_mod_read, max_path_len}
use pungoo.Disk.Objects.{disk_t_create-IsFresh, unopened, disk_t_file_open-opening}
use pungoo.Perf.{
  file_len, file_count, file_name, read_file, read_with, read_opened, read_files, main_read,
}
use pungoo.Perf.Readback.{FileWasRead, read_file-FileWasRead}
use pungoo.Perf.Names.{file_name-IsText, length-file_name, snprintf-file_name}
use pungoo.Perf.Outcome.{HasFreshHandles}

-- No stream stays open and no file changes.
pub record LeavesFiles (w v : World) : Type 0 where
  pub streams : v.streams ≡ w.streams
  pub files : v.files ≡ w.files
  pub next : w.next ≤ v.next

module _ (len : ℕ) (some_bytes : 0 < len) where
  read_file-missing :
      (name : Bytes) (w : World)
      → IsText name
      → length name < max_path_len
      → w.files name ≡ none
      → Ends (λ (ok, b, v). LeavesFiles w v) (read_file true len name w)
  unfolding read_file read_with read_opened
  read_file-missing name w t h e =
      let (d, made, f) = disk_t_create-IsFresh name file_open_mod_read t h in
      let w' : World = record w { fates = later_fates w.fates } in
      rw (made, disk_t_file_open-opening d name file_open_mod_read w f, fopen-missing name w e)
        (rw (unopened (record d { handle_ = none }) [] 0 w' refl).1
          (record { streams = refl; files = refl; next = omega arith }))

  read_file-LeavesFiles :
      (name : Bytes) (w : World)
      → IsText name
      → length name < max_path_len
      → HasFreshHandles w
      → Ends (λ (ok, b, v). LeavesFiles w v) (read_file true len name w)
  read_file-LeavesFiles name w t h fresh = elim (Option-cases (w.files name)) [
    | inl missing ↦ read_file-missing name w t h missing
    | inr (c, exists) ↦
        Ends-weaken (λ (ok, b, v). FileWasRead len c w ok b v) (λ (ok, b, v). LeavesFiles w v)
          (read_file true len name w)
          (read_file-FileWasRead len name c w some_bytes (fresh w.next (omega arith)) exists t h)
          λ x r. record { streams = r.streams; files = r.files; next = r.next }
  ]

  later : (w v u : World) → LeavesFiles w v → LeavesFiles v u → LeavesFiles w u
  later w v u r s = record {
    streams = s.streams ∙ r.streams;
    files = s.files ∙ r.files;
    next = omega (arith, r.next, s.next);
  }

  rest_of_files :
      (k time : ℕ) (filename : Bytes) (w v : World) (ok : Bool)
      → LeavesFiles w v
      → Ends (LeavesFiles v) (read_files k (time + 1) filename len (usleep 100 v))
      → Ends
          (LeavesFiles w)
          (elim ok [ true ↦ read_files k (time + 1) filename len (usleep 100 v) | false ↦ done v ])
  rest_of_files k time filename w v false r rest = r
  rest_of_files k time filename w v true r rest =
      Ends-weaken (LeavesFiles v) (LeavesFiles w)
        (read_files k (time + 1) filename len (usleep 100 v)) rest λ u s. later w v u r s

  read_files-LeavesFiles :
      (k time : ℕ) (filename : Bytes) (w : World)
      → length filename ≡ 256
      → time + k ≤ 10_000_000
      → HasFreshHandles w
      → Ends (LeavesFiles w) (read_files k time filename len w)
  unfolding read_files
  read_files-LeavesFiles zero time filename w size bound fresh = record {
    streams = refl;
    files = refl;
    next = omega arith;
  }
  read_files-LeavesFiles (suc k) time filename w size bound fresh =
      let text = file_name-IsText time in
      let short = length-file_name time (omega arith) in
      let (b, printed, size', held) =
        snprintf-file_name filename (file_name time) size text (omega arith) in
      rw (printed, held)
        (Ends-bind (λ (ok, x, v). LeavesFiles w v) (LeavesFiles w)
          (read_file true len (file_name time) w)
          (λ (ok, x, v). elim ok [
            | true ↦ read_files k (time + 1) b len (usleep 100 v)
            | false ↦ done v
          ])
          (read_file-LeavesFiles (file_name time) w text (omega arith) fresh)
          λ (ok, x, v) r. rest_of_files k time b w v ok r (
            Ends-weaken (LeavesFiles (usleep 100 v)) (LeavesFiles v)
              (read_files k (time + 1) b len (usleep 100 v))
              (read_files-LeavesFiles k (time + 1) b (usleep 100 v) size' (omega arith)
                λ n above. ap (λ s. s n) r.streams ∙ fresh n (omega (arith, r.next, above)))
              λ u s. record { streams = s.streams; files = s.files; next = s.next }))

file_count_lem : file_count ≤ 10_000_000
unfolding file_count
file_count_lem = omega arith

file_len_lem : 0 < file_len
unfolding file_len
file_len_lem = omega arith

-- main of read.c as a whole, when malloc finds memory, from a world whose next handles are free:
-- whatever the kernel does and whichever files exist, it ends, returns 0, leaves no stream open and
-- changes no file.
pub main_read-LeavesFiles :
    (w : World)
    → HasFreshHandles w
    → Ends (λ (r, v). (r ≡ pos 0) × LeavesFiles w v) (main_read true w)
unfolding main_read
main_read-LeavesFiles w fresh =
    Ends-bind (LeavesFiles w) (λ (r, v). (r ≡ pos 0) × LeavesFiles w v)
      (read_files file_count 0 (replicate 256 0) file_len w) (λ v. done (pos 0, v))
      (read_files-LeavesFiles file_len file_len_lem file_count 0 (replicate 256 0) w
        (length-replicate {A = ℕ} 256 0) (omega (arith, file_count_lem)) fresh)
      λ v r. (refl, r)
