-- ===== src/Disk/Write/Progress.antt =====
-- What the loop of disk_t_file_write has done after a number of bytes, and what its fwrite adds.
use pungoo.Common.{
  ℕ, ◌+◌, ◌-◌, ◌≤◌, ◌≡◌, refl, ◌∙◌, ◌≢◌, some, [], arith, length, take, drop, length-take,
  length-drop, done, take-take_add, take-take,
}
use native.Mathlib.Nat.{add_assoc}
use pungoo.Clib.Bytes.{Bytes}
use pungoo.Clib.Stdio.{
  Mode, reading, writing, appending, Stream, World, fwrite, next_fate, later_fates, set_stream,
  set_file, overwrite, pushed, write_offset,
}
use pungoo.Clib.Stdio.Streams.{fwrite-open, set_stream_self, set_stream-set_stream}
use pungoo.Clib.Stdio.Files.{
  overwrite-overwrite, length-overwrite_end, set_file_self, set_file-set_file, Pushed,
  pushed-Pushed,
}

-- A stream on which the next write goes to `at` of a file of content `c`.
pub record IsWritableAt (h : ℕ) (path c : Bytes) (at : ℕ) (w : World) : Type 0 where
  pub stream : Stream
  pub opened : w.streams h ≡ some stream
  pub mode : stream.mode ≢ reading
  pub path_of : stream.path ≡ path
  pub offset : write_offset stream.mode stream c ≡ at
  pub file : w.files path ≡ some c

-- Where the next write goes, after one of `x`.
write_offset-overwrite :
    (m : Mode) (s : Stream) (c x : Bytes) (at k e : ℕ)
    → m ≢ reading
    → write_offset m s c ≡ at
    → length x ≡ k
    → write_offset m (record s { offset = at + k; error = e }) (overwrite c at x) ≡ at + k
write_offset-overwrite reading s c x at k e h p q = absurd (h refl)
write_offset-overwrite writing s c x at k e h p q = refl
write_offset-overwrite appending s c x at k e h p q = rw (← p, ← q) (length-overwrite_end c x)

module _ (h len : ℕ) (path buf c : Bytes) (at : ℕ) (w : World) where
  -- The loop's variables in a world `v`, once `n` bytes are written.
  pub record Progress (n : ℕ) (v : World) : Type 0 where
    pub writable : IsWritableAt h path (overwrite c at (take n buf)) (at + n) v
    pub files : v.files ≡ set_file path (overwrite c at (take n buf)) w.files
    pub within : n ≤ len
    pub fates : w.fates ≡ [] → v.fates ≡ []
    pub slept_cap : v.slept ≤ w.slept + 59_990_000
    pub streams : v.streams ≡ set_stream h (some writable.stream) w.streams
    pub next : v.next ≡ w.next

  module _ (room : len ≤ length buf) (n : ℕ) (v : World) (p : Progress n v) where
    unfoldable pub written : ℕ × ℕ
    written =
        pushed p.writable.stream.mode (next_fate v.fates) p.writable.stream
          (length (take (len - n) (drop n buf)))

    unfoldable pub stored : World
    stored = record v {
      files =
          set_file path
            (overwrite (overwrite c at (take n buf)) (at + n)
              (take written.0 (take (len - n) (drop n buf))))
            v.files;
      streams =
          set_stream h
            (some (record p.writable.stream { offset = at + n + written.0; error = written.1 }))
            v.streams;
      fates = later_fates v.fates;
    }

    size : length (take (len - n) (drop n buf)) ≡ len - n
    size = omega (arith, length-take {0} (len - n) (drop n buf), length-drop {0} n buf, p.within)

    pub written-Pushed : Pushed (next_fate v.fates) (len - n) written
    unfolding written
    written-Pushed = rw size (pushed-Pushed _ _ _ (len - n) p.writable.mode)

    grown :
        overwrite
          (overwrite c at (take n buf))
          (at + n)
          (take written.0 (take (len - n) (drop n buf)))
        ≡ overwrite c at (take (n + written.0) buf)
    grown =
        let front : length (take n buf) ≡ n = omega (arith, length-take {0} n buf, p.within) in
        rw (take-take written.0 (len - n) (drop n buf) written-Pushed.room) (
          rw front at (overwrite-overwrite c at (take n buf) (take written.0 (drop n buf)))
          ∙ rw take-take_add)

    -- What the loop's fwrite does.
    pub fwrite-stored : fwrite (some h) (take (len - n) (drop n buf)) v ≡ done (written.0, stored)
    unfolding stored written
    fwrite-stored =
        let t = p.writable.stream in
        let here : v.files t.path ≡ some (overwrite c at (take n buf)) =
          rw p.writable.path_of p.writable.file in
        fwrite-open h v t p.writable.opened _ here (take (len - n) (drop n buf))
        ∙ rw p.writable.offset (simp p.writable.path_of)

    pub stored-slept : stored.slept ≡ v.slept
    unfolding stored
    stored-slept = refl

    pub stored-Progress : Progress (n + written.0) stored
    unfolding stored
    stored-Progress = record {
      writable = record {
        stream = record p.writable.stream { offset = at + n + written.0; error = written.1 };
        opened = set_stream_self h _ v.streams;
        mode = p.writable.mode;
        path_of = p.writable.path_of;
        offset = rw (← grown) (
            write_offset-overwrite _ p.writable.stream _ _ (at + n) written.0 written.1
              p.writable.mode p.writable.offset
              (omega (
                arith,
                size,
                written-Pushed.room,
                length-take {0} written.0 (take (len - n) (drop n buf)),
              ))
            ∙ add_assoc at n written.0);
        file = rw grown (set_file_self path _ v.files);
      };
      files = rw (grown, p.files) (set_file-set_file path _ _ w.files);
      within = omega (arith, written-Pushed.room, p.within);
      fates = λ e. rw (p.fates e);
      slept_cap = p.slept_cap;
      streams = rw p.streams (set_stream-set_stream h _ _ w.streams);
      next = p.next;
    }
