-- ===== src/Perf/Readback.antt =====
-- One round of read.c.
use native.Mathlib.Numerals.{add-one}
use pungoo.Common.{
  drop-replicate, ℕ, ◌+◌, ◌≤◌, ◌<◌, ◌≡◌, refl, sym, ◌∙◌, ap, ◌≢◌, ◌-◌, ◌==◌, Bool-cases, min, ◌⊎◌,
  inl, inr, true, false, Bool, none, some, [], ◌∷◌, ◌++◌, arith, length, take, replicate,
  length-replicate, done, Ends, Ends-bind, ◌>>=◌,
}
use pungoo.Common.Int.{ℤ, pos, minus_one, eqb_ℤ}
use pungoo.Clib.Bytes.{Bytes, IsText}
use pungoo.Clib.Stdio.{reading, start_stream, World, later_fates, next_fate, set_stream}
use pungoo.Clib.Stdio.Streams.{
  settled-reading, fopen-reading, set_stream_self, set_stream-set_stream, set_stream_same,
  opened_world,
}
use pungoo.Clib.Stdio.Files.{set_file_self, set_file_same}
use pungoo.Disk.{Disk, disk_t_destroy, file_open_mod_read, max_path_len}
use pungoo.Disk.Read.{IsOpenAt, ReadResult, disk_t_file_read-ReadResult}
use pungoo.Disk.Objects.{
  disk_t_create-IsFresh, unopened, disk_t_file_open-opening, disk_t_destroy_lem,
}
use pungoo.Perf.{read_file, read_opened, read_with}
use pungoo.Perf.Files.{stays_calm}

-- The result of a read, as the loop tests it.
read_test :
    {F : Type 0} (n : ℤ) (count len k : ℕ)
    → ((n ≡ minus_one) × F) ⊎ ((n ≡ pos count) × (count ≡ min len k))
    → ((eqb_ℤ n (pos len) ≡ true) × (count ≡ len) × (len ≤ k))
      ⊎ ((eqb_ℤ n (pos len) ≡ false) × (F ⊎ (k < len)))
read_test n count len k (inl (e, f)) = inr (rw e refl, inl f)
read_test n count len k (inr (e, c)) = elim (Bool-cases (count == len)) [
  | inl all ↦ inl (rw e all, ground arith, ground (arith, c))
  | inr part ↦ inr (rw e part, inr (ground (arith, c)))
]

-- What a round of the reader leaves: no stream stays open, no file changes, and if the loop goes on
-- the buffer starts with the file's bytes.
pub record FileWasRead (len : ℕ) (c : Bytes) (w : World) (ok : Bool) (b : Bytes) (v : World)
    : Type 0 where
  pub streams : v.streams ≡ w.streams
  pub files : v.files ≡ w.files
  pub next : w.next ≤ v.next
  pub awake : w.slept ≤ v.slept
  pub fates : (v.fates ≡ []) ⊎ (w.fates ≢ [])
  pub result :
      ((ok ≡ true) × (len ≤ length c) × (b ≡ take len c ++ 0 ∷ []))
      ⊎ ((ok ≡ false) × ((w.fates ≢ []) ⊎ (length c < len)))

module _ (len : ℕ) (name c : Bytes) (w : World) (some_bytes : 0 < len)
    (fresh : w.streams w.next ≡ none) (exists : w.files name ≡ some c) where
  read_opened-FileWasRead :
      (d : Disk)
      → d.handle_ ≡ some w.next
      → Ends
          (λ (ok, b, v). FileWasRead len c w ok b v)
          (read_opened (replicate (len + 1) 0) len (pos 0, some d, opened_world name reading c w))
  unfolding read_opened
  read_opened-FileWasRead d e =
      let v0 = opened_world name reading c w in
      let here : IsOpenAt w.next c 0 v0 = record {
        stream = start_stream name reading;
        opened = set_stream_self w.next _ w.streams;
        mode = refl;
        offset = refl;
        ended = λ g. cc;
        file = set_file_self name c w.files;
      } in
      Ends-bind (λ (n, b, v). ReadResult w.next (pos len) (replicate (len + 1) 0) c 0 v0 n b v)
        (λ (ok, b, v). FileWasRead len c w ok b v) _
        (λ (n, b, v). disk_t_destroy (some d) v >>= λ (_, v'). done (eqb_ℤ n (pos len), b, v'))
        (disk_t_file_read-ReadResult d w.next (replicate (len + 1) 0) c 0 (pos len) v0 e here
          (omega (arith, length-replicate {A = ℕ} (len + 1) 0)))
        λ (n, b, v) r.
          rw (disk_t_destroy_lem d w.next v e r.open_at.stream r.open_at.opened) (record {
            streams =
                ap (set_stream w.next none) r.streams
                ∙ (set_stream-set_stream w.next _ none v0.streams
                    ∙ (set_stream-set_stream w.next _ none w.streams
                        ∙ sym (set_stream_same w.next none w.streams fresh)));
            files =
                settled-reading (next_fate v.fates) r.open_at.stream.path v.files r.open_at.mode
                ∙ (r.files ∙ sym (set_file_same name c w.files exists));
            next = omega (arith, r.next);
            awake = r.awake;
            fates =
                stays_calm w.fates (later_fates v.fates)
                  (λ g. let none_left : v0.fates ≡ [] = rw g in rw (r.fates none_left));
            result = elim (read_test n r.count len (length c - 0) r.result) [
              | inl (good, all, room) ↦
                  inl (good, omega arith, r.buffer ∙ rw (all, add-one, drop-replicate len))
              | inr (bad, inl f) ↦ inr (bad, inl (λ g. f (rw g)))
              | inr (bad, inr short) ↦ inr (bad, inr (omega arith))
            ];
          })

  read_failed-FileWasRead :
      (d : Disk)
      → d.handle_ ≡ none
      → w.fates ≢ []
      → Ends
          (λ (ok, b, v). FileWasRead len c w ok b v)
          (read_opened
            (replicate (len + 1) 0)
            len
            (minus_one, some d, record w { fates = later_fates w.fates }))
  unfolding read_opened
  read_failed-FileWasRead d e faulty =
      rw (unopened d [] 0 (record w { fates = later_fates w.fates }) e).1 (record {
        streams = refl;
        files = refl;
        next = omega arith;
        awake = omega arith;
        fates = inr faulty;
        result = inr (refl, inl faulty);
      })

  -- When malloc finds memory, a round of read.c's loop on an existing file always ends, and in each
  -- case, whether a call fails or not, it leaves no stream open and no file changed. If the loop
  -- goes on the buffer holds the first `len` bytes of the file and a NUL, and it goes on whenever
  -- the kernel reports no fault and the file has `len` bytes.
  pub read_file-FileWasRead :
      IsText name
      → length name < max_path_len
      → Ends (λ (ok, b, v). FileWasRead len c w ok b v) (read_file true len name w)
  unfolding read_file read_with
  read_file-FileWasRead t h =
      let (d, made, f) = disk_t_create-IsFresh name file_open_mod_read t h in
      rw (made, disk_t_file_open-opening d name file_open_mod_read w f)
        (elim (fopen-reading name c w exists) [
          | inl e ↦ rw e (read_opened-FileWasRead (record d { handle_ = some w.next }) refl)
          | inr (e, faulty) ↦
              rw e (read_failed-FileWasRead (record d { handle_ = none }) refl faulty)
        ])
