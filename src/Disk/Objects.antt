-- ===== src/Disk/Objects.antt =====
-- The life of a file object: create, open, close, seek, destroy.
use pungoo.Common.{
  Run, ap, ℕ, suc, ◌+◌, ◌-◌, ◌<◌, ◌≡◌, refl, ◌≢◌, true, false, Bool, Option, none, some, [], ◌++◌,
  arith, leb, length, drop, replicate, done, undefined, Bool-cases, inl, inr, while_loop-undefined,
  lt→leb,
}
use pungoo.Common.Int.{ℤ, pos, negsuc, minus_one}
use pungoo.Clib.Bytes.{Bytes, IsText, c_str, padded}
use pungoo.Clib.Bytes.Laws.{strncpy_lem, c_str-padded_nul}
use pungoo.Clib.Stdio.{
  fopen, smooth, settled, Stream, World, fseek, fread, fwrite, next_fate, later_fates, set_stream,
}
use pungoo.Clib.Stdio.Streams.{
  set_stream_self, fclose-open, fseek-open, fclose-closed, is_smooth-eq,
}
use pungoo.Disk.{
  Disk, status_of, open_mode, Reading, Writing, read_round, write_round, is_read_short,
  is_write_short, loop_fuel, after_close, disk_t_create, disk_t_file_open, disk_t_file_close,
  disk_t_destroy, max_path_len, disk_t_file_read, disk_t_file_write, disk_t_file_seek,
}
use pungoo.Disk.Read.{IsOpenAt}

-- A fresh object for a name: its array holds the name as a C string, and no file is open.
pub record IsFresh (name : Bytes) (flag : ℤ) (d : Disk) : Type 0 where
  pub held : c_str d.filename_ ≡ some name
  pub flag_of : d.flag_ ≡ flag
  pub closed : d.handle_ ≡ none

-- What the open of an object of this name and flag does.
abbrev pub opening : Disk → Bytes → ℤ → World → Run (ℤ × Option Disk × World)
opening d name flag w =
    let r = fopen name (open_mode flag) w in
    done (status_of r.0, some (record d { handle_ = r.0 }), r.1)

pub disk_t_file_open-opening :
    (d : Disk) (name : Bytes) (flag : ℤ) (w : World)
    → IsFresh name flag d
    → disk_t_file_open (some d) w ≡ opening d name flag w
unfolding disk_t_file_open
disk_t_file_open-opening d name flag w f = rw f.held (ap (λ g. opening d name g w) f.flag_of)

-- disk_t_create, when malloc finds memory, makes a fresh object that holds the whole name, if the
-- name has less than 256 bytes.
pub disk_t_create-IsFresh :
    (name : Bytes) (flag : ℤ)
    → IsText name
    → length name < max_path_len
    → (d : Disk) × (disk_t_create (some name) flag true ≡ done (some d)) × IsFresh name flag d
unfolding disk_t_create
disk_t_create-IsFresh name flag t h = (
  record {
    filename_ = padded 255 name ++ drop 255 (replicate 256 0);
    handle_ = none;
    flag_ = flag;
  },
  rw (lt→leb _ _ h, strncpy_lem (replicate 256 0) name 255 (omega arith)),
  record { held = c_str-padded_nul 255 name [] t (omega arith); flag_of = refl; closed = refl },
)

-- When malloc finds no memory for a name of less than 256 bytes, disk_t_create goes on to clear
-- the object through the null pointer.
pub disk_t_create-undefined :
    (name : Bytes) (flag : ℤ)
    → length name < max_path_len
    → disk_t_create (some name) flag false ≡ undefined
unfolding disk_t_create
disk_t_create-undefined name flag h = rw (lt→leb _ _ h)

-- The world once the stream `s` with the handle `h` is closed.
abbrev pub closed_world : ℕ → Stream → World → World
closed_world h s w = record w {
  files = settled s.mode (next_fate w.fates) s.path w.files;
  streams = set_stream h none w.streams;
  fates = later_fates w.fates;
}

after_close_world : (d : Disk) (ok : Bool) (w : World) → (after_close d ok w).2 ≡ w
after_close_world d true w = refl
after_close_world d false w = refl

module _ (d : Disk) (h : ℕ) (w : World) (open_handle : d.handle_ ≡ some h) (s : Stream)
    (e : w.streams h ≡ some s) where
  -- disk_t_file_close on an open file, when fclose fails, gives -1, and the stream is gone (a file that
  -- it writes may have lost its last bytes). The object keeps its pointer, which is dangling: to close or to destroy the object then is undefined
  -- behaviour.
  pub disk_t_file_close-undefined :
      next_fate w.fates ≢ smooth
      → (disk_t_file_close (some d) w ≡ done (minus_one, some d, closed_world h s w))
        × (disk_t_file_close (some d) (closed_world h s w) ≡ undefined)
        × (disk_t_destroy (some d) (closed_world h s w) ≡ undefined)
  unfolding disk_t_file_close disk_t_destroy
  disk_t_file_close-undefined f =
      let gone = fclose-closed h (closed_world h s w) (set_stream_self h none w.streams) in
      (
        rw (open_handle, fclose-open h w s e, is_smooth-eq _ f),
        rw (open_handle, gone),
        rw (open_handle, gone),
      )

  -- disk_t_destroy on an open file ends its stream and returns 0, whether fclose succeeds or loses
  -- bytes of the file.
  pub disk_t_destroy_lem : disk_t_destroy (some d) w ≡ done (pos 0, closed_world h s w)
  unfolding disk_t_destroy
  disk_t_destroy_lem = rw (open_handle, fclose-open h w s e, after_close_world)

-- disk_t_file_seek on a file that is open for reading, when the kernel reports no fault: an offset
-- of n gives 0 and the next read starts at n, also past the end; an offset below 0 gives -1 and
-- leaves the stream where it was. No file changes.
pub disk_t_file_seek-IsOpenAt :
    (d : Disk) (h : ℕ) (c : Bytes) (o : ℕ) (w : World)
    → d.handle_ ≡ some h
    → IsOpenAt h c o w
    → w.fates ≡ []
    → (n : ℕ)
    → ((v : World) × (disk_t_file_seek (some d) (pos n) w ≡ done (pos 0, v))
        × IsOpenAt h c n v
        × (v.files ≡ w.files))
      × ((v : World) × (disk_t_file_seek (some d) (negsuc n) w ≡ done (minus_one, v))
          × IsOpenAt h c o v
          × (v.files ≡ w.files))
unfolding disk_t_file_seek
disk_t_file_seek-IsOpenAt d h c o w e p calm n =
    let s = p.stream in
    (
      (
        record w {
          streams = set_stream h (some (record s { offset = n; at_eof = false })) w.streams;
          fates = [];
        },
        rw (e, fseek-open h w s p.opened (pos n), calm),
        record {
          stream = record s { offset = n; at_eof = false };
          opened = set_stream_self h _ w.streams;
          mode = p.mode;
          offset = refl;
          ended = λ g. cc;
          file = p.file;
        },
        refl,
      ),
      (
        record w { streams = set_stream h (some s) w.streams; fates = [] },
        rw (e, fseek-open h w s p.opened (negsuc n), calm),
        record {
          stream = s;
          opened = set_stream_self h _ w.streams;
          mode = p.mode;
          offset = p.offset;
          ended = p.ended;
          file = p.file;
        },
        refl,
      ),
    )

read_round-unopened :
    {handle : Option ℕ} (len : ℕ) (s : Reading)
    → handle ≡ none
    → read_round handle len s ≡ undefined
unfolding read_round fread
read_round-unopened len s e = rw e

write_round-unopened :
    {handle : Option ℕ} (buf : Bytes) (len : ℕ) (s : Writing)
    → handle ≡ none
    → write_round handle buf len s ≡ undefined
unfolding write_round fwrite
write_round-unopened buf len s e =
    elim (Bool-cases (leb (s.write_len + (len - s.write_len)) (length buf))) [
      | inl t ↦ rw (t, e)
      | inr t ↦ rw t
    ]

-- An object whose file is not open (a fresh one, or one whose open failed): a close fails with -1
-- and no effect, a destroy does nothing to the world, and a seek, or a read or a write of at least
-- one byte, goes through a null `FILE *`.
pub unopened :
    (d : Disk) (buf : Bytes) (n : ℕ) (w : World)
    → d.handle_ ≡ none
    → (disk_t_file_close (some d) w ≡ done (minus_one, some d, w))
      × (disk_t_destroy (some d) w ≡ done (pos 0, w))
      × (disk_t_file_seek (some d) (pos n) w ≡ undefined)
      × (disk_t_file_read (some d) buf (pos (suc n)) w ≡ undefined)
      × (disk_t_file_write (some d) buf (pos (suc n)) w ≡ undefined)
unfolding disk_t_file_close disk_t_destroy disk_t_file_seek disk_t_file_read disk_t_file_write fseek
unopened d buf n w e = (
  rw e,
  rw e,
  rw e,
  rw (
      while_loop-undefined (is_read_short (suc n)) (read_round d.handle_ (suc n))
        (λ s. pos s.read_len) (loop_fuel (pos (suc n)))
        (record { buf = buf; read_len = 0; retry = 0; world = w }) (omega arith) (ground arith)
        (read_round-unopened (suc n) _ e)),
  rw (
      while_loop-undefined (is_write_short (suc n)) (write_round d.handle_ buf (suc n))
        (λ s. pos s.write_len) (loop_fuel (pos (suc n)))
        (record { write_len = 0; retry = 0; world = w }) (omega arith) (ground arith)
        (write_round-unopened buf (suc n) _ e)),
)
