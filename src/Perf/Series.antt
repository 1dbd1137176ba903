-- ===== src/Perf/Series.antt =====
-- The whole of main.c: the series of files that it leaves.

use pungoo.Common.{
  ℕ, zero, suc, ◌+◌, ◌<◌, ◌≤◌, ◌≡◌, inl, inr, refl, ◌∙◌, ap, Bool, true, false, Bool-cases, arith,
  ltb, ltb→lt, ltb→le, length, take, take_all, replicate, length-replicate, done, Ends, Ends-bind,
  Ends-weaken,
}
use pungoo.Common.Int.{minus_one}
use pungoo.Clib.Bytes.{Bytes, str_eq}
use pungoo.Clib.Bytes.Laws.{str_eq_sound}
use pungoo.Clib.Stdio.{World}
use pungoo.Perf.{file_len, file_count, file_name, pattern_from, write_file, write_files, main_write}
use pungoo.Perf.Files.{WroteFile, write_file-WroteFile}
use pungoo.Perf.Names.{file_name-IsText, length-file_name, length-pattern_from, snprintf-file_name}
use pungoo.Perf.Outcome.{HasFreshHandles, WroteSeries, written, earlier, first, still, calm_or}

module _ (buff : Bytes) (len : ℕ) (some_bytes : 0 < len) (room : len ≤ length buff) where
  -- The round of file `time`, and the rounds behind it.
  next_file :
      (k time : ℕ) (filename : Bytes) (w v : World) (ok : Bool)
      → WroteFile buff len (file_name time) w ok v
      → ((ok ≡ true)
          → Ends
              (λ (r, v'). WroteSeries k (time + 1) (take len buff) v r v')
              (write_files k (time + 1) filename buff len v))
      → Ends
          (λ (r, v'). WroteSeries (suc k) time (take len buff) w r v')
          (elim ok [
            | true ↦ write_files k (time + 1) filename buff len v
            | false ↦ done (minus_one, v)
          ])
  next_file k time filename w v false r rest = record {
    streams = r.streams;
    next = r.next;
    fates = r.fates;
    files = λ p. elim (Bool-cases (str_eq (file_name time) p)) [
      | inl same ↦ inr (time, omega arith, omega arith, str_eq_sound _ p same, inr refl)
      | inr other ↦ inl (r.others p other)
    ];
    result = elim r.result [
      | inl (good, held) ↦ ground arith
      | inr (bad, faulty) ↦ inr (refl, faulty)
    ];
  }
  next_file k time filename w v true r rest =
      Ends-weaken (λ (x, v'). WroteSeries k (time + 1) (take len buff) v x v')
        (λ (x, v'). WroteSeries (suc k) time (take len buff) w x v')
        (write_files k (time + 1) filename buff len v) (rest refl)
        λ (x, v') s. record {
          streams = s.streams ∙ r.streams;
          next = omega (arith, s.next, r.next);
          fates = elim r.fates [ inl calm ↦ still calm s.fates | inr f ↦ inr f ];
          files = λ p. elim (s.files p) [
            | inl same ↦ elim (Bool-cases (str_eq (file_name time) p)) [
              | inl here ↦
                  let name = str_eq_sound (file_name time) p here in
                  inr (
                    time,
                    omega arith,
                    omega arith,
                    name,
                    inl (rw (same, ← name) (written buff len w v r.result)),
                  )
              | inr other ↦ inl (same ∙ r.others p other)
            ]
            | inr (t, above, below, name, inl held) ↦
                inr (t, omega arith, omega arith, name, inl (earlier buff len w v _ r.fates held))
            | inr (t, above, below, name, inr bad) ↦
                inr (t, omega arith, omega arith, name, inr bad)
          ];
          result = elim s.result [
            | inl (good, all) ↦ inl (
              good,
              λ t above below. elim (Bool-cases (ltb time t)) [
                | inl later ↦
                    earlier buff len w v _ r.fates
                      (all t (omega (arith, ltb→lt time t later)) (omega arith))
                | inr here ↦
                    let this : t ≡ time = omega (arith, ltb→le time t here) in
                    rw this (
                      first buff len k w v v' time r.fates (written buff len w v r.result) x good
                        (s.files (file_name time)))
              ],
            )
            | inr (bad, faulty) ↦
                inr (bad, elim r.fates [ inl calm ↦ absurd (faulty calm) | inr f ↦ f ])
          ];
        }

  -- write_files, from an array for the file names, with `k` files to go: whatever the kernel does,
  -- it ends with no stream left open; a file that changed is one of these `k`; either it returns 0
  -- and each of them holds the first `len` bytes of the buffer, or fewer where the kernel reported a
  -- fault; or it returns -1 and the kernel reported a fault.
  write_files-WroteSeries :
      (k time : ℕ) (filename : Bytes) (w : World)
      → length filename ≡ 256
      → time + k ≤ 10_000_000
      → HasFreshHandles w
      → Ends
          (λ (r, v). WroteSeries k time (take len buff) w r v)
          (write_files k time filename buff len w)
  unfolding write_files
  write_files-WroteSeries zero time filename w size bound fresh = record {
    streams = refl;
    next = omega arith;
    fates = calm_or w.fates;
    files = λ p. inl refl;
    result = inl (refl, λ t a b. absurd (omega arith));
  }
  write_files-WroteSeries (suc k) time filename w size bound fresh =
      let text = file_name-IsText time in
      let short = length-file_name time (omega arith) in
      let (b, printed, size', held) =
        snprintf-file_name filename (file_name time) size text (omega arith) in
      rw (printed, held)
        (Ends-bind (λ (ok, v). WroteFile buff len (file_name time) w ok v)
          (λ (r, v'). WroteSeries (suc k) time (take len buff) w r v')
          (write_file true buff len (file_name time) w)
          (λ (ok, v). elim ok [
            | true ↦ write_files k (time + 1) b buff len v
            | false ↦ done (minus_one, v)
          ])
          (write_file-WroteFile buff len (file_name time) w room some_bytes
            (fresh w.next (omega arith)) text (omega arith))
          λ (ok, v) r. next_file k time b w v ok r (λ good.
            write_files-WroteSeries k (time + 1) b v size' (omega arith)
              λ n above. ap (λ s. s n) r.streams ∙ fresh n (omega (arith, r.next, above))))

file_count_lem : file_count ≡ 10_000_000
unfolding file_count
file_count_lem = refl

file_len_lem : file_len ≡ 67_108_864
unfolding file_len
file_len_lem = refl

pub main_write-WroteSeries :
    (w : World)
    → HasFreshHandles w
    → Ends (λ (r, v). WroteSeries file_count 0 (pattern_from 0 file_len) w r v) (main_write true w)
unfolding main_write
main_write-WroteSeries w fresh =
    let size = length-pattern_from 0 file_len in
    let whole : take file_len (pattern_from 0 file_len) ≡ pattern_from 0 file_len =
      take_all file_len (pattern_from 0 file_len) (omega (arith, size)) in
    Ends-weaken (λ (r, v). WroteSeries file_count 0 (take file_len (pattern_from 0 file_len)) w r v)
      (λ (r, v). WroteSeries file_count 0 (pattern_from 0 file_len) w r v)
      (write_files file_count 0 (replicate 256 0) (pattern_from 0 file_len) file_len w)
      (write_files-WroteSeries (pattern_from 0 file_len) file_len (omega (arith, file_len_lem))
        (omega (arith, size)) file_count 0 (replicate 256 0) w (length-replicate {A = ℕ} 256 0)
        (omega (arith, file_count_lem)) fresh)
      λ (r, v) s. rw (← whole) s
