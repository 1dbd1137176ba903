-- ===== src/Disk/Write.antt =====
-- disk_t_file_write of c/base/disk.c as a whole.
mod Progress
mod Rounds
pub use Progress.{IsWritableAt}
use Rounds.{Outcome, Invariant, measure, loop-Outcome}
use pungoo.Common.{
  Round, RoundKeeps, while_loop, Ends-while_loop, ℕ, zero, suc, ◌+◌, ◌-◌, ◌*◌, ◌≤◌, ◌<◌, ◌≡◌, refl,
  ◌∙◌, ◌≢◌, ◌⊎◌, inl, inr, true, false, some, [], arith, ltb, ◌==◌, length, take, drop, length-take,
  length-drop, done, Ends, Ends-bind, Bool-cases, tests, ltb→lt, take-take_add, take-take, le→leb,
}
use native.Mathlib.Nat.{add-zero, add_assoc}
use pungoo.Common.Int.{ℤ, pos, pos_part}
use pungoo.Clib.Bytes.{Bytes}
use pungoo.Clib.Stdio.{
  Mode, reading, writing, appending, Stream, World, fwrite, next_fate, later_fates, set_stream,
  set_file, overwrite, pushed, write_offset, usleep,
}
use pungoo.Clib.Stdio.Streams.{
  fwrite-open, ferror-open, set_stream_self, set_stream-set_stream, set_stream_same,
}
use pungoo.Clib.Stdio.Files.{
  overwrite-overwrite, length-overwrite_end, set_file_self, set_file-set_file, set_file_same,
  Pushed, pushed-Pushed,
}
use pungoo.Disk.{
  Disk, Writing, write_branch, write_round, is_write_short, disk_t_file_write, max_retry, loop_fuel,
  is_fatal,
}

-- What a write of `len` bytes at `at` into a file of content `c` leaves.
pub record WriteResult (h : ℕ) (path buf : Bytes) (len : ℤ) (c : Bytes) (at : ℕ) (w : World) (r : ℤ)
    (v : World) : Type 0 where
  pub count : ℕ
  pub writable : IsWritableAt h path (overwrite c at (take count buf)) (at + count) v
  pub files : v.files ≡ set_file path (overwrite c at (take count buf)) w.files
  pub within : count ≤ pos_part len
  pub slept : v.slept ≤ w.slept + 59_990_000
  pub fates : w.fates ≡ [] → v.fates ≡ []
  pub streams : v.streams ≡ set_stream h (some writable.stream) w.streams
  pub next : v.next ≡ w.next
  pub result : ((r ≡ pos 0) × (w.fates ≢ [])) ⊎ ((r ≡ pos count) × (count ≡ pos_part len))

-- disk_t_file_write on a file that is open for writing or appending, from an array of at least
-- `len` bytes, always ends, with no access out of bounds. Its file then holds the first `count`
-- bytes of the array over its old content, from where the stream writes, every other file is as it
-- was, and the stream goes on behind them; the call sleeps 59.99 seconds at most. It returns `len`
-- (0 for a negative one) and has written all the bytes, or it returns 0, and that only if the
-- kernel reported a fault.
pub disk_t_file_write-WriteResult :
    (d : Disk) (h : ℕ) (path buf : Bytes) (len : ℤ) (c : Bytes) (at : ℕ) (w : World)
    → d.handle_ ≡ some h
    → IsWritableAt h path c at w
    → pos_part len ≤ length buf
    → Ends (λ (r, v). WriteResult h path buf len c at w r v) (disk_t_file_write (some d) buf len w)
unfolding disk_t_file_write overwrite
disk_t_file_write-WriteResult d h path buf len c at w e writable room =
    let start : Writing = record { write_len = 0; retry = 0; world = w } in
    let writable_here : IsWritableAt h path (overwrite c at (take 0 buf)) (at + 0) w =
      rw add-zero writable in
    let inv : Invariant h (pos_part len) path buf c at w start = record {
      progress = record {
        writable = writable_here;
        files = set_file_same path c w.files writable.file;
        within = omega arith;
        fates = λ g. g;
        slept_cap = omega arith;
        streams = set_stream_same h _ w.streams writable_here.opened;
        next = refl;
      };
      tries = omega arith;
      slept = omega arith;
    } in
    rw e (
      Ends-bind (λ (r, s). Outcome h (pos_part len) path buf c at w r s)
        (λ (r, v). WriteResult h path buf len c at w r v) _ (λ (r, s). done (r, s.world))
        (loop-Outcome h (pos_part len) path buf c at w room (loop_fuel len) start inv (omega arith))
        λ (r, s) (p, q). record {
          count = s.write_len;
          writable = p.writable;
          files = p.files;
          within = p.within;
          slept = p.slept_cap;
          fates = p.fates;
          streams = p.streams;
          next = p.next;
          result = q;
        })
