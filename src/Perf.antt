-- ===== src/Perf.antt =====
-- c/disk_perf_test: main.c writes a series of files of one pattern, read.c reads them back.
pub mod Files
pub mod Readback
pub mod Names
pub mod Outcome
pub mod Series
pub mod Reader
pub mod Whole
mod Tests
use pungoo.Common.{
  ℕ, zero, suc, ◌+◌, ◌-◌, ◌*◌, ◌%◌, Bool, true, false, Option, none, some, List, [], ◌∷◌, ◌++◌,
  if◌then◌else◌, length, take, drop, replicate, store, Run, done, undefined, ◌>>=◌,
}
use pungoo.Common.Int.{ℤ, pos, minus_one, eqb_ℤ}
use pungoo.Clib.Bytes.{Bytes, lit, c_str, snprintf, decimal}
use pungoo.Clib.Stdio.{World, usleep}
use pungoo.Disk.{
  Disk, or_undefined, file_open_mod_read, file_open_mod_write, disk_t_create, disk_t_destroy,
  disk_t_file_open, disk_t_file_read, disk_t_file_write,
}

-- LEN, 64 MB, and the number of rounds.
unfoldable pub file_len : ℕ
file_len = 64 * 1024 * 1024

unfoldable pub file_count : ℕ
file_count = 10_000_000

-- The bytes `i & 0x7F`, from i on.
unfoldable pub pattern_from : ℕ → ℕ → Bytes
pattern_from i zero = []
pattern_from i (suc k) = (i % 128) ∷ pattern_from (i + 1) k

-- The text of snprintf(filename, sizeof(filename), "./cache/data%05d", time).
unfoldable pub file_name : ℕ → Bytes
file_name time =
    let digits = decimal (pos time) in
    lit "./cache/data" ++ (replicate (5 - length digits) b'0' ++ digits)

-- Whether a loop of main goes on, once the object is destroyed.
destroyed : Bool → Option Disk → World → Run (Bool × World)
destroyed ok disk w = disk_t_destroy disk w >>= λ (r, v). done (ok, v)

-- The part of main.c's loop behind the open.
write_opened : Bytes → ℕ → ℤ × Option Disk × World → Run (Bool × World)
unfolding destroyed disk_t_file_write
write_opened buff len (r, disk, w) =
    if eqb_ℤ r (pos 0)
    then (disk_t_file_write disk buff (pos len) w >>= λ (n, v).
        destroyed (eqb_ℤ n (pos len)) disk v)
    else destroyed false disk w

write_with : Bytes → ℕ → Option Disk → World → Run (Bool × World)
unfolding write_opened disk_t_file_open
write_with buff len none w = done (false, w)
write_with buff len (some d) w = disk_t_file_open (some d) w >>= write_opened buff len

-- One round of main.c's loop for a file name: whether the loop goes on, and the world.
unfoldable pub write_file : Bool → Bytes → ℕ → Bytes → World → Run (Bool × World)
unfolding write_with disk_t_create
write_file memory buff len name w =
    disk_t_create (some name) file_open_mod_write memory >>= λ disk. write_with buff len disk w

-- main.c's loop, with the rounds left. The file name is made in an array that is used again.
unfoldable pub write_files : ℕ → ℕ → Bytes → Bytes → ℕ → World → Run (ℤ × World)
write_files zero time filename buff len w = done (pos 0, w)
write_files (suc k) time filename buff len w =
    or_undefined (snprintf filename 256 (file_name time)) >>= λ filename'.
    or_undefined (c_str filename') >>= λ name. write_file true buff len name w >>= λ (ok, v).
    elim ok [ true ↦ write_files k (time + 1) filename' buff len v | false ↦ done (minus_one, v) ]

-- main of main.c: the buffer is filled without a look at malloc's result.
unfoldable pub main_write : Bool → World → Run (ℤ × World)
unfolding write_files
main_write false w = undefined
main_write true w = write_files file_count 0 (replicate 256 0) (pattern_from 0 file_len) file_len w

-- The part of read.c's loop behind the open: also the buffer that it leaves.
read_opened : Bytes → ℕ → ℤ × Option Disk × World → Run (Bool × Bytes × World)
unfolding disk_t_file_read
read_opened buff len (r, disk, w) =
    if eqb_ℤ r (pos 0)
    then (disk_t_file_read disk buff (pos len) w >>= λ (n, b, v).
        disk_t_destroy disk v >>= λ (_, v'). done (eqb_ℤ n (pos len), b, v'))
    else (disk_t_destroy disk w >>= λ (_, v). done (false, buff, v))

read_with : Bytes → ℕ → Option Disk → World → Run (Bool × Bytes × World)
unfolding read_opened disk_t_file_open
read_with buff len none w = done (false, buff, w)
read_with buff len (some d) w = disk_t_file_open (some d) w >>= read_opened buff len

-- One round of read.c's loop for a file name, without the sleep at its end.
unfoldable pub read_file : Bool → ℕ → Bytes → World → Run (Bool × Bytes × World)
unfolding read_with disk_t_create
read_file memory len name w = disk_t_create (some name) file_open_mod_read memory >>= λ disk.
    read_with (replicate (len + 1) 0) len disk w

-- read.c's loop, with the rounds left.
unfoldable pub read_files : ℕ → ℕ → Bytes → ℕ → World → Run World
read_files zero time filename len w = done w
read_files (suc k) time filename len w =
    or_undefined (snprintf filename 256 (file_name time)) >>= λ filename'.
    or_undefined (c_str filename') >>= λ name. read_file true len name w >>= λ (ok, buff, v).
    elim ok [ true ↦ read_files k (time + 1) filename' len (usleep 100 v) | false ↦ done v ]

-- main of read.c, which returns 0 in every case.
unfoldable pub main_read : Bool → World → Run (ℤ × World)
unfolding read_files
main_read false w = undefined
main_read true w = read_files file_count 0 (replicate 256 0) file_len w >>= λ v. done (pos 0, v)
