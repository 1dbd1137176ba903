-- ===== src/Disk/Read/Progress.antt =====
-- What the loop of disk_t_file_read has done after a number of bytes, and what its fread adds.
use pungoo.Common.{
  ℕ, ◌+◌, ◌-◌, ◌≤◌, ◌≡◌, refl, ◌∙◌, ap, ◌⊎◌, true, some, [], ◌++◌, arith, length, take, drop,
  length-drop, store, store-filled, drop-drop,
}
use pungoo.Clib.Bytes.{Bytes}
use pungoo.Clib.Stdio.{reading, Stream, World, pull, next_fate, later_fates, set_stream}
use pungoo.Clib.Stdio.Streams.{set_stream_self, set_stream-set_stream}
use pungoo.Clib.Stdio.Laws.{Pulled, pull-Pulled}

-- A stream that is open for reading a file of content `c`, at an offset.
pub record IsOpenAt (h : ℕ) (c : Bytes) (o : ℕ) (w : World) : Type 0 where
  pub stream : Stream
  pub opened : w.streams h ≡ some stream
  pub mode : stream.mode ≡ reading
  pub offset : stream.offset ≡ o
  pub ended : stream.at_eof ≡ true → length c ≤ o
  pub file : w.files stream.path ≡ some c

module _ (h len : ℕ) (buf c : Bytes) (o : ℕ) (w : World) where
  -- The loop's variables in a world `v`, once `n` bytes are read.
  pub record Progress (n : ℕ) (b : Bytes) (v : World) : Type 0 where
    pub open_at : IsOpenAt h c (o + n) v
    pub files : v.files ≡ w.files
    pub buffer : b ≡ take n (drop o c) ++ drop n buf
    pub within : n ≤ len
    pub inside : (o + n ≤ length c) ⊎ (n ≡ 0)
    pub fates : w.fates ≡ [] → v.fates ≡ []
    pub slept_cap : v.slept ≤ w.slept + 59_990_000
    pub awake : w.slept ≤ v.slept
    pub streams : v.streams ≡ set_stream h (some open_at.stream) w.streams
    pub next : v.next ≡ w.next

  module _ (m : ℕ) (b : Bytes) (v : World) (p : Progress m b v) (room : len ≤ length buf) where
    unfoldable pub private_stream : Stream
    private_stream = p.open_at.stream

    unfoldable pub pulled : Bytes × Stream
    unfolding private_stream
    pulled =
        pull private_stream.mode private_stream.at_eof (next_fate v.fates) private_stream c
          (len - m)

    unfoldable pub fetched : World
    fetched = record v {
      streams = set_stream h (some pulled.1) v.streams;
      fates = later_fates v.fates;
    }

    pub pulled-Pulled : Pulled (next_fate v.fates) private_stream c (len - m) pulled
    unfolding pulled private_stream
    pulled-Pulled =
        pull-Pulled _ _ _ _ c (len - m) p.open_at.mode refl refl
          (λ e. ground (arith, p.open_at.ended e, p.open_at.offset))

    pub store-pulled :
        store b m pulled.0
        ≡ some (take (m + length pulled.0) (drop o c) ++ drop (m + length pulled.0) buf)
    unfolding private_stream
    store-pulled =
        let q = pulled-Pulled in
        let got : pulled.0 ≡ take (length pulled.0) (drop m (drop o c)) =
          q.bytes ∙ rw (p.open_at.offset, drop-drop o m c) in
        rw (p.buffer) (
          ap (store (take m (drop o c) ++ drop m buf) m) got
          ∙ store-filled (drop o c) buf m (length pulled.0) (omega (arith, q.room, p.within))
              (omega (arith, q.inside, p.inside, length-drop {0} o c, p.open_at.offset)))

    unfoldable pub fetched-Progress :
        Progress
          (m + length pulled.0)
          (take (m + length pulled.0) (drop o c) ++ drop (m + length pulled.0) buf)
          fetched
    unfolding private_stream fetched
    fetched-Progress =
        let q = pulled-Pulled in
        record {
          open_at = record {
            stream = pulled.1;
            opened = set_stream_self h (some pulled.1) v.streams;
            mode = q.mode;
            offset = omega (arith, q.moved, p.open_at.offset);
            ended = λ e. omega (arith, q.ended e, q.moved, p.open_at.offset);
            file = rw q.path p.open_at.file;
          };
          files = p.files;
          buffer = refl;
          within = omega (arith, q.room, p.within);
          inside = omega (arith, q.inside, p.inside, p.open_at.offset);
          fates = λ e. rw (p.fates e);
          slept_cap = p.slept_cap;
          awake = p.awake;
          streams = rw p.streams (set_stream-set_stream h _ _ w.streams);
          next = p.next;
        }
