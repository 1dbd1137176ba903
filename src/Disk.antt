-- ===== src/Disk.antt =====
-- c/base/disk.c and c/base/disk.h: a file object over stdio, with retries.
-- c/disk_perf_test/disk.c is the same text.

pub mod Read
pub mod Write
pub mod Objects
pub mod Opening
mod Tests
use pungoo.Common.{
  ℕ, ◌+◌, ◌-◌, Bool, true, false, not, ◌&&◌, Option, none, some, ltb, leb, ◌==◌, if◌then◌else◌,
  length, take, drop, replicate, store, Run, done, undefined, ◌>>=◌, Round, return, again,
  while_loop,
}
use pungoo.Common.Int.{ℤ, pos, minus_one, pos_part, eqb_ℤ}
use pungoo.Clib.Bytes.{Bytes, c_str, strncpy}
use pungoo.Clib.Stdio.{
  World, Mode, reading, writing, appending, fopen, fclose, fread, fwrite, ferror, feof, fseek,
  usleep,
}

abbrev pub max_path_len : ℕ
max_path_len = 256

-- FILE_OPEN_MOD_WRITE and its neighbours.
abbrev pub file_open_mod_write : ℤ
file_open_mod_write = pos 0

abbrev pub file_open_mod_write_append : ℤ
file_open_mod_write_append = pos 1

abbrev pub file_open_mod_read : ℤ
file_open_mod_read = pos 2

abbrev pub eintr : ℕ
eintr = 4

abbrev pub eagain : ℕ
eagain = 11

pub record Disk : Type 0 where
  pub filename_ : Bytes
  pub handle_ : Option ℕ
  pub flag_ : ℤ

abbrev pub or_undefined {ℓ} : {A : Type ℓ} → Option A → Run A
or_undefined none = undefined
or_undefined (some a) = done a

-- What follows a malloc: through a null pointer memset is undefined behaviour.
fill_disk : Bytes → ℤ → Bool → Run (Option Disk)
unfolding strncpy
fill_disk name flag false = undefined
fill_disk name flag true =
    or_undefined (strncpy (replicate max_path_len 0) name (max_path_len - 1)) >>= λ buf.
    done (some (record { filename_ = buf; handle_ = none; flag_ = flag }))

-- disk_t_create. A name is given by its bytes before the NUL; the last argument is whether
-- malloc finds memory.
unfoldable pub disk_t_create : Option Bytes → ℤ → Bool → Run (Option Disk)
unfolding fill_disk
disk_t_create none flag memory = done none
disk_t_create (some name) flag memory =
    if leb max_path_len (length name)
    then done none
    else if leb max_path_len (length name)
    then done none
    else fill_disk name flag memory

-- The mode that disk_t_file_open passes to fopen.
abbrev pub open_mode : ℤ → Mode
open_mode flag =
    if eqb_ℤ flag file_open_mod_write
    then writing
    else if eqb_ℤ flag file_open_mod_write_append
    then appending
    else reading

abbrev pub status_of : Option ℕ → ℤ
status_of none = minus_one
status_of (some h) = pos 0

unfoldable pub disk_t_file_open : Option Disk → World → Run (ℤ × Option Disk × World)
disk_t_file_open none w = done (minus_one, none, w)
disk_t_file_open (some d) w = or_undefined (c_str d.filename_) >>= λ name.
    let (handle, w') = fopen name (open_mode d.flag_) w in
    done (status_of handle, some (record d { handle_ = handle }), w')

abbrev pub after_close : Disk → Bool → World → ℤ × Option Disk × World
after_close d true w = (pos 0, some (record d { handle_ = none }), w)
after_close d false w = (minus_one, some d, w)

close_handle : Disk → Option ℕ → World → Run (ℤ × Option Disk × World)
close_handle d none w = done (minus_one, some d, w)
close_handle d (some h) w = fclose (some h) w >>= λ (ok, w'). done (after_close d ok w')

unfoldable pub disk_t_file_close : Option Disk → World → Run (ℤ × Option Disk × World)
unfolding close_handle
disk_t_file_close none w = done (minus_one, none, w)
disk_t_file_close (some d) w = close_handle d d.handle_ w

-- disk_t_destroy. The object is gone after it, and the result of the close is not looked at.
unfoldable pub disk_t_destroy : Option Disk → World → Run (ℤ × World)
unfolding disk_t_file_close
disk_t_destroy none w = done (pos 0, w)
disk_t_destroy (some d) w = disk_t_file_close (some d) w >>= λ (r, d', w'). done (pos 0, w')

-- The variables of the loop in disk_t_file_read, and the caller's array.
pub record Reading : Type 0 where
  pub buf : Bytes
  pub read_len : ℕ
  pub retry : ℕ
  pub world : World

abbrev pub max_retry : ℕ
max_retry = 6000

abbrev is_fatal : ℕ → Bool
is_fatal err = not (err == eagain) && not (err == eintr)

-- The three branches of the loop's body, once fread has delivered n bytes.
read_branch : ℕ → ℕ → Bool → Reading → Round Reading
read_branch n err eof s =
    if n == 0 && (is_fatal err && not eof)
    then return minus_one s
    else if n == 0
    then if eof
      then return (pos s.read_len) s
      else if ltb (s.retry + 1) max_retry
      then again (record s { retry = s.retry + 1; world = usleep 10000 s.world })
      else return minus_one (record s { retry = s.retry + 1 })
    else again (record s { read_len = s.read_len + n })

unfoldable pub read_round : Option ℕ → ℕ → Reading → Run (Round Reading)
unfolding read_branch store
read_round handle len s = fread handle (len - s.read_len) s.world >>= λ (bytes, w).
    or_undefined (store s.buf s.read_len bytes) >>= λ buf. ferror handle w >>= λ err.
    feof handle w >>= λ eof.
    done (read_branch (length bytes) err eof (record s { buf = buf; world = w }))

abbrev pub is_read_short : ℕ → Reading → Bool
is_read_short len s = ltb s.read_len len

-- Each round moves a byte or is one of the retries.
abbrev pub loop_fuel : ℤ → ℕ
loop_fuel len = pos_part len + max_retry + 1

unfoldable pub disk_t_file_read : Option Disk → Bytes → ℤ → World → Run (ℤ × Bytes × World)
unfolding while_loop read_round
disk_t_file_read none buf len w = done (minus_one, buf, w)
disk_t_file_read (some d) buf len w =
    while_loop (is_read_short (pos_part len)) (read_round d.handle_ (pos_part len))
      (λ s. pos s.read_len) (loop_fuel len)
      (record { buf = buf; read_len = 0; retry = 0; world = w })
    >>= λ (r, s). done (r, s.buf, s.world)

-- The variables of the loop in disk_t_file_write.
pub record Writing : Type 0 where
  pub write_len : ℕ
  pub retry : ℕ
  pub world : World

write_branch : ℕ → ℕ → Writing → Round Writing
write_branch n err s =
    if n == 0 && is_fatal err
    then return (pos 0) s
    else if n == 0
    then if ltb (s.retry + 1) max_retry
      then again (record s { retry = s.retry + 1; world = usleep 10000 s.world })
      else return (pos 0) (record s { retry = s.retry + 1 })
    else again (record s { write_len = s.write_len + n })

-- The bytes buf[at .. at + n); `none` if they pass the end of the array.
abbrev pub load : Bytes → ℕ → ℕ → Option Bytes
load buf at n = if leb (at + n) (length buf) then some (take n (drop at buf)) else none

unfoldable pub write_round : Option ℕ → Bytes → ℕ → Writing → Run (Round Writing)
unfolding write_branch
write_round handle buf len s = or_undefined (load buf s.write_len (len - s.write_len)) >>= λ bytes.
    fwrite handle bytes s.world >>= λ (n, w).
    ferror handle w >>= λ err. done (write_branch n err (record s { world = w }))

abbrev pub is_write_short : ℕ → Writing → Bool
is_write_short len s = ltb s.write_len len

unfoldable pub disk_t_file_write : Option Disk → Bytes → ℤ → World → Run (ℤ × World)
unfolding while_loop write_round
disk_t_file_write none buf len w = done (minus_one, w)
disk_t_file_write (some d) buf len w =
    while_loop (is_write_short (pos_part len)) (write_round d.handle_ buf (pos_part len))
      (λ s. pos s.write_len) (loop_fuel len) (record { write_len = 0; retry = 0; world = w })
    >>= λ (r, s). done (r, s.world)

abbrev seek_status : Bool → ℤ
seek_status true = pos 0
seek_status false = minus_one

unfoldable pub disk_t_file_seek : Option Disk → ℤ → World → Run (ℤ × World)
disk_t_file_seek none offset w = done (minus_one, w)
disk_t_file_seek (some d) offset w =
    fseek d.handle_ offset w >>= λ (ok, w'). done (seek_status ok, w')
