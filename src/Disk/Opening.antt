-- ===== src/Disk/Opening.antt =====
-- disk_t_file_open in its three modes.
use pungoo.Common.{
  arith, ℕ, zero, suc, ◌+◌, ◌⊎◌, inl, inr, ◌≢◌, Option, List, ◌∷◌, Ends, ◌≡◌, refl, sym, ◌∙◌, none,
  some, [], length, done,
}
use pungoo.Common.Int.{ℤ, pos, negsuc, minus_one}
use pungoo.Clib.Bytes.{Bytes, c_str}
use pungoo.Clib.Stdio.{
  Mode, Fate, smooth, broken, fopen, open_stream, opened_file, later_fates, next_fate, set_stream,
  reading, writing, appending, World, content_of, start_stream, set_file,
}
use pungoo.Clib.Stdio.Streams.{set_stream_self, opened_world, fopen-some, fopen-none}
use pungoo.Clib.Stdio.Files.{set_file_self, set_file_same}
use pungoo.Disk.{
  open_mode, status_of, Disk, disk_t_file_open, disk_t_file_close, disk_t_destroy,
  file_open_mod_read, file_open_mod_write, file_open_mod_write_append,
}
use pungoo.Disk.Read.{IsOpenAt}
use pungoo.Disk.Write.{IsWritableAt}

module _ (d : Disk) (name : Bytes) (w : World) (held : c_str d.filename_ ≡ some name)
    (calm : w.fates ≡ []) where
  -- disk_t_file_open for reading on an existing file, when the kernel reports no fault, opens it at
  -- its start, with no file changed.
  disk_t_file_open-IsOpenAt :
      (c : Bytes)
      → d.flag_ ≡ file_open_mod_read
      → w.files name ≡ some c
      → (v : World) × (disk_t_file_open (some d) w
          ≡ done (pos 0, some (record d { handle_ = some w.next }), v))
        × IsOpenAt w.next c 0 v
        × (v.files ≡ w.files)
        × (v.fates ≡ [])
  unfolding disk_t_file_open
  disk_t_file_open-IsOpenAt c f e = (
    opened_world name reading c w,
    rw (held, f, fopen-some name reading w calm c e),
    record {
      stream = start_stream name reading;
      opened = set_stream_self w.next _ w.streams;
      mode = refl;
      offset = refl;
      ended = λ g. cc;
      file = set_file_self name c w.files;
    },
    sym (set_file_same name c w.files e),
    rw calm,
  )

  -- disk_t_file_open for reading on a missing file, when the kernel reports no fault, gives -1 and a
  -- null handle, and changes nothing: a close of the object then gives -1 as well, and a destroy
  -- frees it.
  disk_t_file_open-missing :
      d.flag_ ≡ file_open_mod_read
      → w.files name ≡ none
      → (disk_t_file_open (some d) w ≡ done (minus_one, some (record d { handle_ = none }), w))
        × (disk_t_file_close (some (record d { handle_ = none })) w
            ≡ done (minus_one, some (record d { handle_ = none }), w))
        × (disk_t_destroy (some (record d { handle_ = none })) w ≡ done (pos 0, w))
  unfolding disk_t_file_open disk_t_file_close disk_t_destroy
  disk_t_file_open-missing f e = (rw (held, f, fopen-none name reading w calm e), refl, refl)

  -- disk_t_file_open for writing, when the kernel reports no fault, leaves an empty file of the
  -- name and a stream that writes at its start.
  disk_t_file_open-writing :
      d.flag_ ≡ file_open_mod_write
      → (v : World) × (disk_t_file_open (some d) w
          ≡ done (pos 0, some (record d { handle_ = some w.next }), v))
        × IsWritableAt w.next name [] 0 v
        × (v.files ≡ set_file name [] w.files)
        × (v.fates ≡ [])
  unfolding disk_t_file_open
  disk_t_file_open-writing f = (
    opened_world name writing [] w,
    rw (held, f, fopen-some name writing w calm [] refl),
    record {
      stream = start_stream name writing;
      opened = set_stream_self w.next _ w.streams;
      mode = λ g. cc;
      path_of = refl;
      offset = refl;
      file = set_file_self name [] w.files;
    },
    refl,
    rw calm,
  )

  -- disk_t_file_open for appending, when the kernel reports no fault, keeps what the file holds (a
  -- missing one is made, and is empty) and gives a stream that writes behind it.
  disk_t_file_open-appending :
      d.flag_ ≡ file_open_mod_write_append
      → let c = content_of (w.files name) in
        (v : World) × (disk_t_file_open (some d) w
          ≡ done (pos 0, some (record d { handle_ = some w.next }), v))
        × IsWritableAt w.next name c (length c) v
        × (v.files ≡ set_file name c w.files)
        × (v.fates ≡ [])
  unfolding disk_t_file_open
  disk_t_file_open-appending f =
      let c = content_of (w.files name) in
      (
        opened_world name appending c w,
        rw (held, f, fopen-some name appending w calm c refl),
        record {
          stream = start_stream name appending;
          opened = set_stream_self w.next _ w.streams;
          mode = λ g. cc;
          path_of = refl;
          offset = refl;
          file = set_file_self name c w.files;
        },
        refl,
        rw calm,
      )

-- The mode that a flag stands for: 0 is to write, 1 to append, and every other one to read.
abbrev pub promised_mode : ℤ → Mode
promised_mode (pos zero) = writing
promised_mode (pos (suc zero)) = appending
promised_mode _ = reading

-- The file that an open with a flag leaves, given the one before it: writing empties or makes it,
-- appending keeps or makes it, reading needs it.
abbrev pub promised_file : ℤ → Option Bytes → Option Bytes
promised_file (pos zero) before = some []
promised_file (pos (suc zero)) none = some []
promised_file (pos (suc zero)) (some c) = some c
promised_file _ before = before

open_mode-promised_mode : (flag : ℤ) → open_mode flag ≡ promised_mode flag
open_mode-promised_mode (pos zero) = refl
open_mode-promised_mode (pos (suc zero)) = refl
open_mode-promised_mode (pos (suc (suc n))) = ground arith
open_mode-promised_mode (negsuc n) = refl

opened_file-promised_file :
    (flag : ℤ) (before : Option Bytes)
    → opened_file (promised_mode flag) before ≡ promised_file flag before
opened_file-promised_file (pos zero) before = refl
opened_file-promised_file (pos (suc zero)) none = refl
opened_file-promised_file (pos (suc zero)) (some c) = refl
opened_file-promised_file (pos (suc (suc n))) before = refl
opened_file-promised_file (negsuc n) before = refl

-- What an open of the file `name` by an object comes to: a stream at its start, with the file that
-- the flag promises, or -1, a null handle and nothing changed.
abbrev pub Opened : Disk → Bytes → World → ℤ × Option Disk × World → Type 0
Opened d name w (r, o, v) =
    ((c : Bytes) × (promised_file d.flag_ (w.files name) ≡ some c)
      × (r ≡ pos 0)
      × (o ≡ some (record d { handle_ = some w.next }))
      × (v.streams ≡ set_stream w.next (some (start_stream name (promised_mode d.flag_))) w.streams)
      × (v.files ≡ set_file name c w.files)
      × (v.next ≡ w.next + 1))
    ⊎ (((promised_file d.flag_ (w.files name) ≡ none) ⊎ (w.fates ≢ []))
        × (r ≡ minus_one)
        × (o ≡ some (record d { handle_ = none }))
        × (v.streams ≡ w.streams)
        × (v.files ≡ w.files)
        × (v.next ≡ w.next))

module _ (d : Disk) (name : Bytes) (w : World) where
  abbrev taken : World
  taken = record w { fates = later_fates w.fates }

  smooth_open :
      (file : Option Bytes)
      → opened_file (promised_mode d.flag_) (w.files name) ≡ file
      → let r = open_stream name (promised_mode d.flag_) file taken in
        Opened d name w (status_of r.0, some (record d { handle_ = r.0 }), r.1)
  smooth_open none e =
      let promised = opened_file-promised_file d.flag_ (w.files name) in
      inr (inl (sym promised ∙ e), refl, refl, refl, refl, refl)
  smooth_open (some c) e =
      let promised = opened_file-promised_file d.flag_ (w.files name) in
      inl (c, sym promised ∙ e, refl, refl, refl, refl, refl)

  fated_open :
      (fates : List Fate)
      → w.fates ≡ fates
      → let r : Option ℕ × World = (elim (next_fate fates) [
        | smooth ↦
            open_stream name
              (promised_mode d.flag_)
              (opened_file (promised_mode d.flag_) (w.files name))
              taken
        | broken k e ↦ (none, taken)
      ]) in
        Opened d name w (status_of r.0, some (record d { handle_ = r.0 }), r.1)
  fated_open [] f = smooth_open _ refl
  fated_open (smooth ∷ rest) f = smooth_open _ refl
  fated_open (broken k e ∷ rest) f = inr (inr (λ g. cc), refl, refl, refl, refl, refl)

  -- disk_t_file_open on an object whose array holds a name, as a C string, always ends, whatever
  -- the kernel does. It gives 0 and a stream at the start of the file, which has the mode that the
  -- flag stands for (0 to write, 1 to append, every other flag to read): the file is then empty
  -- for writing, is kept or made for appending, and is kept for reading. Or it gives -1, a null
  -- handle and changes no file and no stream, and this only if the file is missing for reading or
  -- the kernel reported a fault.
  pub disk_t_file_open-Opened :
      c_str d.filename_ ≡ some name → Ends (Opened d name w) (disk_t_file_open (some d) w)
  unfolding disk_t_file_open fopen
  disk_t_file_open-Opened held = rw (held, Ends, open_mode-promised_mode) (fated_open w.fates refl)
