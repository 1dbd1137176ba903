-- ===== src/Disk/Read/Rounds.antt =====
-- The rounds of disk_t_file_read and its loop.
use pungoo.Common.{
  Round, RoundKeeps, while_loop, Ends-while_loop, ℕ, zero, suc, ◌+◌, ◌-◌, ◌*◌, ◌≤◌, ◌<◌, ◌≡◌, refl,
  ◌≢◌, ◌⊎◌, inl, inr, true, false, Bool, some, [], arith, ltb, ◌==◌, length, min, Ends, Bool-cases,
  tests, ltb→lt,
}
use native.Mathlib.Nat.{add-zero}
use pungoo.Common.Int.{ℤ, pos, minus_one}
use pungoo.Clib.Bytes.{Bytes}
use pungoo.Clib.Stdio.{World, pull, usleep}
use pungoo.Clib.Stdio.Streams.{fread-open, ferror-open, feof-open, set_stream_self}
use pungoo.Disk.{Reading, read_branch, read_round, is_read_short, max_retry, is_fatal}
use pungoo.Disk.Read.Progress.{
  Progress, private_stream, pulled, fetched, fetched-Progress, store-pulled, pulled-Pulled,
}

module _ (h len : ℕ) (buf c : Bytes) (o : ℕ) (w : World) where
  abbrev pub At : ℕ → Bytes → World → Type 0
  At = Progress h len buf c o w

  -- How far a result of the loop is right: an error needs a fault, and a count is exact.
  abbrev pub Outcome : ℤ → Reading → Type 0
  Outcome r s =
      At s.read_len s.buf s.world
      × (((r ≡ minus_one) × (w.fates ≢ []))
          ⊎ ((r ≡ pos s.read_len) × (s.read_len ≡ min len (length c - o))))

  pub record Invariant (s : Reading) : Type 0 where
    pub progress : At s.read_len s.buf s.world
    pub tries : s.retry < max_retry
    pub slept : s.world.slept ≤ w.slept + 10_000 * s.retry

  abbrev pub measure : Reading → ℕ
  measure s = (len - s.read_len) + (max_retry - s.retry)

  abbrev RoundIsRight : Reading → Round Reading → Type 0
  RoundIsRight s = RoundKeeps Invariant Outcome measure (measure s)

  module _ (s : Reading) (tries : s.retry < max_retry)
      (slept : s.world.slept ≤ w.slept + 10_000 * s.retry) (more : s.read_len < len) where
    usleep-Progress :
        (n : ℕ) (b : Bytes) (v : World)
        → At n b v
        → v.slept ≤ w.slept + 10_000 * s.retry
        → ltb (s.retry + 1) max_retry ≡ true
        → At n b (usleep 10_000 v)
    usleep-Progress n b v p k t = record {
      open_at = record {
        stream = p.open_at.stream;
        opened = p.open_at.opened;
        mode = p.open_at.mode;
        offset = p.open_at.offset;
        ended = p.open_at.ended;
        file = p.open_at.file;
      };
      files = p.files;
      buffer = p.buffer;
      within = p.within;
      inside = p.inside;
      fates = p.fates;
      slept_cap = omega (tests, t);
      awake = omega (arith, p.awake);
      streams = p.streams;
      next = p.next;
    }

    -- A round that moved no byte.
    read_branch-none :
        (err : ℕ) (eof : Bool)
        → At s.read_len s.buf s.world
        → (eof ≡ true → length c ≤ o + s.read_len)
        → (w.fates ≡ [] → eof ≡ true)
        → RoundIsRight s (read_branch 0 err eof s)
    unfolding read_branch
    read_branch-none err true p e f =
        let all : s.read_len ≡ min len (length c - o) = omega (arith, e refl, p.inside, p.within) in
        elim (Bool-cases (is_fatal err)) [
          | inl t ↦ rw t (p, inr (refl, all))
          | inr t ↦ rw t (p, inr (refl, all))
        ]
    read_branch-none err false p e f = elim (Bool-cases (is_fatal err)) [
      | inl t ↦ rw t (p, inl (refl, λ g. cc (f g)))
      | inr t ↦ rw t (elim (Bool-cases (ltb (s.retry + 1) max_retry)) [
        | inl u ↦ rw u (
          record {
            progress = usleep-Progress _ _ _ p slept u;
            tries = ltb→lt _ _ u;
            slept = omega arith;
          },
          omega tests,
        )
        | inr u ↦ rw u (p, inl (refl, λ g. cc (f g)))
      ])
    ]

    read_branch-some :
        (n err : ℕ) (eof : Bool)
        → 0 < n
        → At (s.read_len + n) s.buf s.world
        → RoundIsRight s (read_branch n err eof s)
    unfolding read_branch
    read_branch-some n err eof q p =
        let moved : (n == 0) ≡ false = ground arith in
        rw moved (record { progress = p; tries = tries; slept = slept }, omega (arith, p.within))

    read_branch-RoundIsRight :
        (n err : ℕ) (eof : Bool)
        → At (s.read_len + n) s.buf s.world
        → (eof ≡ true → length c ≤ o + (s.read_len + n))
        → (w.fates ≡ [] → n ≡ 0 → eof ≡ true)
        → RoundIsRight s (read_branch n err eof s)
    read_branch-RoundIsRight zero err eof p e f =
        read_branch-none err eof (rw add-zero at p) (λ g. omega (arith, e g)) (λ g. f g refl)
    read_branch-RoundIsRight (suc n) err eof p e f =
        read_branch-some (suc n) err eof (omega arith) p

  module _ (room : len ≤ length buf) where
    read_round-RoundIsRight :
        (s : Reading)
        → Invariant s
        → s.read_len < len
        → Ends (RoundIsRight s) (read_round (some h) len s)
    unfolding read_round fetched pulled private_stream pull fetched-Progress
    read_round-RoundIsRight s inv more =
        let p = inv.progress in
        let v = s.world in
        let t = p.open_at.stream in
        let r = pulled h len buf c o w s.read_len s.buf v p room in
        let v' = fetched h len buf c o w s.read_len s.buf v p room in
        let q = fetched-Progress h len buf c o w s.read_len s.buf v p room in
        let self = set_stream_self h (some r.1) v.streams in
        rw
          (
            fread-open h v t p.open_at.opened c p.open_at.file (len - s.read_len),
            store-pulled h len buf c o w s.read_len s.buf v p room,
            ferror-open h v' r.1 self,
            feof-open h v' r.1 self,
          )
          (read_branch-RoundIsRight _ inv.tries inv.slept more (length r.0) r.1.error r.1.at_eof q
            (λ e. q.open_at.ended e)
            (λ e z.
              (pulled-Pulled h len buf c o w s.read_len s.buf v p room).stuck (rw (p.fates e))
                (omega arith) z))

    pub loop-Outcome :
        (fuel : ℕ) (s : Reading)
        → Invariant s
        → measure s < fuel
        → Ends
            (λ (r, s'). Outcome r s')
            (while_loop
              (is_read_short len)
              (read_round (some h) len)
              (λ s'. pos s'.read_len)
              fuel
              s)
    loop-Outcome =
        Ends-while_loop Invariant Outcome measure _ _ _
          (λ s inv more. read_round-RoundIsRight s inv (ltb→lt _ _ more))
          (λ s inv over. let p = inv.progress in (p, inr (refl, omega (tests, p.within, p.inside))))
