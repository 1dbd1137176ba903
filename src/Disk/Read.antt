-- ===== src/Disk/Read.antt =====
-- disk_t_file_read of c/base/disk.c as a whole.
mod Progress
mod Rounds
pub use Progress.{IsOpenAt}
use Rounds.{Outcome, Invariant, measure, loop-Outcome}
use pungoo.Common.{
  Round, RoundKeeps, while_loop, Ends-while_loop, ℕ, zero, suc, ◌+◌, ◌-◌, ◌*◌, ◌≤◌, ◌<◌, ◌≡◌, refl,
  ◌∙◌, ap, ◌≢◌, ◌⊎◌, inl, inr, true, false, Bool, some, [], ◌++◌, arith, ltb, ◌==◌, length, take,
  drop, length-drop, min, done, Ends, Ends-bind, Bool-cases, tests, store, store-filled, drop-drop,
  ltb→lt,
}
use native.Mathlib.Nat.{add-zero}
use pungoo.Common.Int.{ℤ, pos, minus_one, pos_part}
use pungoo.Clib.Bytes.{Bytes}
use pungoo.Clib.Stdio.{reading, Stream, World, pull, next_fate, later_fates, set_stream, usleep}
use pungoo.Clib.Stdio.Streams.{
  fread-open, ferror-open, feof-open, set_stream_self, set_stream-set_stream, set_stream_same,
}
use pungoo.Clib.Stdio.Laws.{Pulled, pull-Pulled}
use pungoo.Disk.{
  Disk, Reading, read_branch, read_round, is_read_short, disk_t_file_read, max_retry, loop_fuel,
  is_fatal,
}

-- What a read of at most `len` bytes at offset `o` of a file of content `c` leaves.
pub record ReadResult (h : ℕ) (len : ℤ) (buf c : Bytes) (o : ℕ) (w : World) (r : ℤ) (b : Bytes)
    (v : World) : Type 0 where
  pub count : ℕ
  pub open_at : IsOpenAt h c (o + count) v
  pub files : v.files ≡ w.files
  pub buffer : b ≡ take count (drop o c) ++ drop count buf
  pub within : count ≤ pos_part len
  pub slept : v.slept ≤ w.slept + 59_990_000
  pub awake : w.slept ≤ v.slept
  pub fates : w.fates ≡ [] → v.fates ≡ []
  pub streams : v.streams ≡ set_stream h (some open_at.stream) w.streams
  pub next : v.next ≡ w.next
  pub result :
      ((r ≡ minus_one) × (w.fates ≢ []))
      ⊎ ((r ≡ pos count) × (count ≡ min (pos_part len) (length c - o)))

-- disk_t_file_read on a file that is open for reading, into an array with room for `len` bytes,
-- always ends, with no access out of bounds. The array then starts with the bytes of the file from
-- the stream's offset on, as many as the offset has moved, and is unchanged behind them; no file
-- changes; the call sleeps 59.99 seconds at most. It returns the exact number of bytes that the
-- file had to give, at most `len`, or -1, and -1 only if the kernel reported a fault.
pub disk_t_file_read-ReadResult :
    (d : Disk) (h : ℕ) (buf c : Bytes) (o : ℕ) (len : ℤ) (w : World)
    → d.handle_ ≡ some h
    → IsOpenAt h c o w
    → pos_part len ≤ length buf
    → Ends (λ (r, b, v). ReadResult h len buf c o w r b v) (disk_t_file_read (some d) buf len w)
unfolding disk_t_file_read
disk_t_file_read-ReadResult d h buf c o len w e open_at room =
    let start : Reading = record { buf = buf; read_len = 0; retry = 0; world = w } in
    let open_here : IsOpenAt h c (o + 0) w = rw add-zero open_at in
    let inv : Invariant h (pos_part len) buf c o w start = record {
      progress = record {
        open_at = open_here;
        files = refl;
        buffer = refl;
        within = omega arith;
        inside = inr refl;
        fates = λ g. g;
        slept_cap = omega arith;
        awake = omega arith;
        streams = set_stream_same h _ w.streams open_here.opened;
        next = refl;
      };
      tries = omega arith;
      slept = omega arith;
    } in
    rw e (
      Ends-bind (λ (r, s). Outcome h (pos_part len) buf c o w r s)
        (λ (r, b, v). ReadResult h len buf c o w r b v) _ (λ (r, s). done (r, s.buf, s.world))
        (loop-Outcome h (pos_part len) buf c o w room (loop_fuel len) start inv (omega arith))
        λ (r, s) (p, q). record {
          count = s.read_len;
          open_at = p.open_at;
          files = p.files;
          buffer = p.buffer;
          within = p.within;
          slept = p.slept_cap;
          awake = p.awake;
          fates = p.fates;
          streams = p.streams;
          next = p.next;
          result = q;
        })
