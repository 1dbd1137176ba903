-- ===== src/Perf/Whole.antt =====
-- main.c and then read.c, while the kernel reports no fault.
use pungoo.Common.{
  Option, ℕ, zero, suc, ◌+◌, ◌*◌, ◌<◌, ◌≤◌, ◌≡◌, ◌≢◌, ◌⊎◌, inl, inr, refl, ◌∙◌, ap, Bool, true,
  false, some, [], ◌∷◌, ◌++◌, arith, length, take, replicate, length-replicate, done, Ends,
  Ends-bind, Ends-weaken,
}
use pungoo.Common.Int.{ℤ, pos, minus_one}
use pungoo.Clib.Bytes.{Bytes}
use pungoo.Clib.Stdio.{World, usleep}
use pungoo.Perf.{
  file_len, file_count, file_name, pattern_from, read_file, read_files, main_write, main_read,
}
use pungoo.Perf.Readback.{FileWasRead, read_file-FileWasRead}
use pungoo.Perf.Files.{Holds}
use pungoo.Perf.Outcome.{HasFreshHandles, WroteSeries}
use pungoo.Perf.Series.{main_write-WroteSeries}
use pungoo.Perf.Names.{file_name-IsText, length-file_name, length-pattern_from, snprintf-file_name}

-- No stream stays open, no file changes, and the loop has slept its 100 microseconds `k` times.
record ReadAll (k : ℕ) (w v : World) : Type 0 where
  streams : v.streams ≡ w.streams
  files : v.files ≡ w.files
  slept : w.slept + 100 * k ≤ v.slept

-- Each of the files `time`, ..., `time + k - 1` holds the bytes.
abbrev pub HoldSeries : ℕ → ℕ → Bytes → World → Type 0
HoldSeries k time bytes w = (t : ℕ) → time ≤ t → t < time + k → w.files (file_name t) ≡ some bytes

module _ (len : ℕ) (bytes : Bytes) (some_bytes : 0 < len) (enough : len ≤ length bytes) where
  -- The rounds behind one that goes on.
  goes_on :
      (k time : ℕ) (filename : Bytes) (w v : World) (ok : Bool) (b : Bytes)
      → w.fates ≡ []
      → FileWasRead len bytes w ok b v
      → (v.fates ≡ []
          → Ends (ReadAll k (usleep 100 v)) (read_files k time filename len (usleep 100 v)))
      → Ends
          (ReadAll (suc k) w)
          (elim ok [ true ↦ read_files k time filename len (usleep 100 v) | false ↦ done v ])
  goes_on k time filename w v false b calm r rest = absurd (no_fault r.result)
    where
      no_fault :
          {x : Bytes}
          → ((◌≡◌ {A = Bool} false true) × (len ≤ length bytes) × (x ≡ take len bytes ++ 0 ∷ []))
            ⊎ ((◌≡◌ {A = Bool} false false) × ((w.fates ≢ []) ⊎ (length bytes < len)))
          → ⊥
      no_fault (inl (e, more, held)) = cc
      no_fault (inr (e, inl f)) = f calm
      no_fault (inr (e, inr short)) = omega arith
  goes_on k time filename w v true b calm r rest =
      Ends-weaken (ReadAll k (usleep 100 v)) (ReadAll (suc k) w)
        (read_files k time filename len (usleep 100 v))
        (rest (elim r.fates [ inl e ↦ e | inr f ↦ absurd (f calm) ]))
        λ u s. record {
          streams = s.streams ∙ r.streams;
          files = s.files ∙ r.files;
          slept = omega (arith, s.slept, r.awake);
        }

  read_files-ReadAll :
      (k time : ℕ) (filename : Bytes) (w : World)
      → length filename ≡ 256
      → time + k ≤ 10_000_000
      → HasFreshHandles w
      → w.fates ≡ []
      → HoldSeries k time bytes w
      → Ends (ReadAll k w) (read_files k time filename len w)
  unfolding read_files
  read_files-ReadAll zero time filename w size bound fresh calm held = record {
    streams = refl;
    files = refl;
    slept = omega arith;
  }
  read_files-ReadAll (suc k) time filename w size bound fresh calm held =
      let text = file_name-IsText time in
      let short = length-file_name time (omega arith) in
      let (b, printed, size', named) =
        snprintf-file_name filename (file_name time) size text (omega arith) in
      rw (printed, named)
        (Ends-bind (λ (ok, x, v). FileWasRead len bytes w ok x v) (ReadAll (suc k) w)
          (read_file true len (file_name time) w)
          (λ (ok, x, v). elim ok [
            | true ↦ read_files k (time + 1) b len (usleep 100 v)
            | false ↦ done v
          ])
          (read_file-FileWasRead len (file_name time) bytes w some_bytes
            (fresh w.next (omega arith)) (held time (omega arith) (omega arith)) text (omega arith))
          λ (ok, x, v) r. goes_on k (time + 1) b w v ok x calm r (λ still.
            read_files-ReadAll k (time + 1) b (usleep 100 v) size' (omega arith)
              (λ n above. ap (λ s. s n) r.streams ∙ fresh n (omega (arith, r.next, above))) still
              λ t above below.
                ap (λ f. f (file_name t)) r.files ∙ held t (omega arith) (omega arith)))

file_count_lem : file_count ≡ 10_000_000
unfolding file_count
file_count_lem = refl

file_len_lem : 0 < file_len
unfolding file_len
file_len_lem = omega arith

main_read-ReadAll :
    (v : World)
    → HasFreshHandles v
    → v.fates ≡ []
    → HoldSeries file_count 0 (pattern_from 0 file_len) v
    → Ends (λ (r, u). (r ≡ pos 0) × ReadAll file_count v u) (main_read true v)
unfolding main_read
main_read-ReadAll v fresh calm held =
    let size = length-pattern_from 0 file_len in
    Ends-bind (ReadAll file_count v) (λ (r, u). (r ≡ pos 0) × ReadAll file_count v u)
      (read_files file_count 0 (replicate 256 0) file_len v) (λ u. done (pos 0, u))
      (read_files-ReadAll file_len (pattern_from 0 file_len) file_len_lem (omega (arith, size))
        file_count 0 (replicate 256 0) v (length-replicate {A = ℕ} 256 0)
        (omega (arith, file_count_lem)) fresh calm held)
      λ u r. (refl, r)

-- main.c and then read.c, when malloc finds memory, from a world whose next handles are free, while
-- the kernel reports no fault: the first returns 0 and each of the ten million files holds the
-- pattern; in the world that it leaves the second goes through all of its rounds, each of which
-- sleeps 100 microseconds, returns 0, changes no file and leaves no stream open.
pub main_write-main_read :
    (w : World)
    → HasFreshHandles w
    → w.fates ≡ []
    → Ends
        (λ (r, v).
          (r ≡ pos 0)
          × HoldSeries file_count 0 (pattern_from 0 file_len) v
          × Ends
              (λ (r', u).
                (r' ≡ pos 0)
                × (u.streams ≡ w.streams)
                × (u.files ≡ v.files)
                × (v.slept + 100 * file_count ≤ u.slept))
              (main_read true v))
        (main_write true w)
main_write-main_read w fresh calm =
    Ends-weaken (λ (r, v). WroteSeries file_count 0 (pattern_from 0 file_len) w r v) _
      (main_write true w) (main_write-WroteSeries w fresh)
      λ (r, v) s.
        let (good, held) = wrote v s.result in
        (
          good,
          held,
          Ends-weaken (λ (r', u). (r' ≡ pos 0) × ReadAll file_count v u)
              (λ (r', u).
                (r' ≡ pos 0)
                × (u.streams ≡ w.streams)
                × (u.files ≡ v.files)
                × (v.slept + 100 * file_count ≤ u.slept))
              (main_read true v)
              (main_read-ReadAll v
                (λ n above. ap (λ f. f n) s.streams ∙ fresh n (omega (arith, s.next, above)))
                (elim s.fates [ inl e ↦ e | inr f ↦ absurd (f calm) ]) held)
              λ (r', u) (e, a). (e, a.streams ∙ s.streams, a.files, a.slept),
        )
  where
    whole :
        {content : Option Bytes}
        → Holds w (pattern_from 0 file_len) content
        → content ≡ some (pattern_from 0 file_len)
    whole (inl held) = held
    whole (inr (f, k, part)) = absurd (f calm)

    wrote :
        {r : ℤ} (v : World)
        → ((r ≡ pos 0)
            × ((t : ℕ)
                → 0 ≤ t
                → t < 0 + file_count
                → Holds w (pattern_from 0 file_len) (v.files (file_name t))))
          ⊎ ((r ≡ minus_one) × (w.fates ≢ []))
        → (r ≡ pos 0) × HoldSeries file_count 0 (pattern_from 0 file_len) v
    wrote v (inl (good, all)) = (good, λ t above below. whole (all t above below))
    wrote v (inr (bad, f)) = absurd (f calm)
