-- ===== src/Disk/Write/Rounds.antt =====
-- The rounds of disk_t_file_write and its loop.
use pungoo.Common.{
  Round, RoundKeeps, while_loop, Ends-while_loop, ℕ, zero, suc, ◌+◌, ◌-◌, ◌*◌, ◌≤◌, ◌<◌, ◌≡◌, refl,
  ◌≢◌, ◌⊎◌, inl, inr, true, false, some, [], arith, ltb, ◌==◌, length, Ends, Bool-cases, tests,
  ltb→lt, le→leb,
}
use native.Mathlib.Nat.{add-zero}
use pungoo.Common.Int.{ℤ, pos}
use pungoo.Clib.Bytes.{Bytes}
use pungoo.Clib.Stdio.{World, usleep}
use pungoo.Clib.Stdio.Streams.{ferror-open}
use pungoo.Disk.{Writing, write_branch, write_round, is_write_short, max_retry, is_fatal}
use pungoo.Disk.Write.Progress.{
  Progress, written, stored, stored-Progress, fwrite-stored, written-Pushed, stored-slept,
}

module _ (h len : ℕ) (path buf c : Bytes) (at : ℕ) (w : World) where
  abbrev pub At : ℕ → World → Type 0
  At = Progress h len path buf c at w

  abbrev pub Outcome : ℤ → Writing → Type 0
  Outcome r s =
      At s.write_len s.world
      × (((r ≡ pos 0) × (w.fates ≢ [])) ⊎ ((r ≡ pos s.write_len) × (s.write_len ≡ len)))

  pub record Invariant (s : Writing) : Type 0 where
    pub progress : At s.write_len s.world
    pub tries : s.retry < max_retry
    pub slept : s.world.slept ≤ w.slept + 10_000 * s.retry

  abbrev pub measure : Writing → ℕ
  measure s = (len - s.write_len) + (max_retry - s.retry)

  abbrev RoundIsRight : Writing → Round Writing → Type 0
  RoundIsRight s = RoundKeeps Invariant Outcome measure (measure s)

  module _ (s : Writing) (tries : s.retry < max_retry)
      (slept : s.world.slept ≤ w.slept + 10_000 * s.retry) (more : s.write_len < len) where
    usleep-Progress :
        At s.write_len s.world
        → ltb (s.retry + 1) max_retry ≡ true
        → At s.write_len (usleep 10_000 s.world)
    usleep-Progress p t = record {
      writable = record {
        stream = p.writable.stream;
        opened = p.writable.opened;
        mode = p.writable.mode;
        path_of = p.writable.path_of;
        offset = p.writable.offset;
        file = p.writable.file;
      };
      files = p.files;
      within = p.within;
      fates = p.fates;
      slept_cap = omega (tests, t);
      streams = p.streams;
      next = p.next;
    }

    -- A round that moved no byte needs a fault.
    write_branch-none :
        (err : ℕ) → At s.write_len s.world → w.fates ≢ [] → RoundIsRight s (write_branch 0 err s)
    unfolding write_branch
    write_branch-none err p f = elim (Bool-cases (is_fatal err)) [
      | inl t ↦ rw t (p, inl (refl, f))
      | inr t ↦ rw t (elim (Bool-cases (ltb (s.retry + 1) max_retry)) [
        | inl u ↦ rw u (
          record { progress = usleep-Progress p u; tries = ltb→lt _ _ u; slept = omega arith },
          omega tests,
        )
        | inr u ↦ rw u (p, inl (refl, f))
      ])
    ]

    write_branch-RoundIsRight :
        (n err : ℕ)
        → At (s.write_len + n) s.world
        → (n ≡ 0 → w.fates ≢ [])
        → RoundIsRight s (write_branch n err s)
    unfolding write_branch
    write_branch-RoundIsRight zero err p f = write_branch-none err (rw add-zero at p) (f refl)
    write_branch-RoundIsRight (suc n) err p f =
        let moved : (suc n == 0) ≡ false = ground arith in
        rw moved (record { progress = p; tries = tries; slept = slept }, omega (arith, p.within))

  module _ (room : len ≤ length buf) where
    write_round-RoundIsRight :
        (s : Writing)
        → Invariant s
        → s.write_len < len
        → Ends (RoundIsRight s) (write_round (some h) buf len s)
    unfolding write_round
    write_round-RoundIsRight s inv more =
        let p = inv.progress in
        let n = s.write_len in
        let r = written h len path buf c at w room n s.world p in
        let q = stored-Progress h len path buf c at w room n s.world p in
        rw
          (
            le→leb (n + (len - n)) (length buf) (omega arith),
            fwrite-stored h len path buf c at w room n s.world p,
            ferror-open h (stored h len path buf c at w room n s.world p) q.writable.stream
                q.writable.opened,
          )
          (write_branch-RoundIsRight
            (record s { world = stored h len path buf c at w room n s.world p }) inv.tries
            (rw stored-slept inv.slept) more r.0 q.writable.stream.error q
            (λ z e.
              let moved : r.0 ≡ len - n =
                (written-Pushed h len path buf c at w room n s.world p).all (rw (p.fates e)) in
              omega arith))

    pub loop-Outcome :
        (fuel : ℕ) (s : Writing)
        → Invariant s
        → measure s < fuel
        → Ends
            (λ (r, s'). Outcome r s')
            (while_loop
              (is_write_short len)
              (write_round (some h) buf len)
              (λ s'. pos s'.write_len)
              fuel
              s)
    loop-Outcome =
        Ends-while_loop Invariant Outcome measure _ _ _
          (λ s inv more. write_round-RoundIsRight s inv (ltb→lt _ _ more))
          (λ s inv over. let p = inv.progress in (p, inr (refl, omega (tests, p.within))))
