-- ===== src/Perf/Names.antt =====
-- The file names and the pattern of the two programs of c/disk_perf_test.

use mathlib.Core.List.{append_assoc}
use pungoo.Common.{
  ℕ, zero, suc, ◌+◌, ◌-◌, ◌<◌, ◌≤◌, ◌≡◌, refl, ◌∙◌, some, [], ◌∷◌, ◌++◌, arith, length, drop,
  take_all, replicate, length-append, length-drop, length-replicate,
}
use pungoo.Common.Int.{pos}
use pungoo.Clib.Bytes.{Bytes, IsText, lit, c_str, snprintf, decimal}
use pungoo.Clib.Bytes.Laws.{append-IsText, c_str-append, snprintf_lem}
use pungoo.Clib.Bytes.Texts.{tens, length-digits_onto, is_text-IsText, is_text, decimal-IsText}
use pungoo.Perf.{file_name, pattern_from}

replicate-IsText : (n c : ℕ) → 0 < c → IsText (replicate n c)
replicate-IsText zero c h = tt
replicate-IsText (suc n) c h = (h, replicate-IsText n c h)

pub file_name-IsText : (t : ℕ) → IsText (file_name t)
unfolding file_name is_text
file_name-IsText t =
    append-IsText (lit "./cache/data") _ (is_text-IsText (lit "./cache/data") refl) (
      append-IsText (replicate (5 - length (decimal (pos t))) b'0') _
        (replicate-IsText _ b'0' (omega arith)) (decimal-IsText (pos t)))

pub length-file_name : (t : ℕ) → t < 10_000_000 → length (file_name t) ≤ 24
unfolding file_name decimal tens
length-file_name t h =
    let digits = decimal (pos t) in
    let short = length-digits_onto 6 (t + 1) t [] h in
    omega (
      arith,
      short,
      length-append {0} (lit "./cache/data") (replicate (5 - length digits) b'0' ++ digits),
      length-append {0} (replicate (5 - length digits) b'0') digits,
      length-replicate {A = ℕ} (5 - length digits) b'0',
    )

pub length-pattern_from : (i k : ℕ) → length (pattern_from i k) ≡ k
unfolding pattern_from
length-pattern_from i zero = refl
length-pattern_from i (suc k) = omega (arith, length-pattern_from (i + 1) k)

-- The array with the file name, used again in each round.
pub snprintf-file_name :
    (filename text : Bytes)
    → length filename ≡ 256
    → IsText text
    → length text < 256
    → (b : Bytes) × (snprintf filename 256 text ≡ some b) × (length b ≡ 256) × (c_str b ≡ some text)
snprintf-file_name filename text size t short =
    let rest = drop (length text + 1) filename in
    (
      text ++ 0 ∷ rest,
      snprintf_lem filename text 256 (omega arith) (omega arith)
          ∙ rw (take_all 255 text (omega arith), append_assoc) refl,
      omega (
        arith,
        length-append {0} text (0 ∷ rest),
        length-drop {A = ℕ} (length text + 1) filename,
      ),
      c_str-append text rest t,
    )
