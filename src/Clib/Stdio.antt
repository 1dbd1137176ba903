-- ===== src/Clib/Stdio.antt =====
-- stdio over a file system: fopen, fclose, fread, fwrite, fseek, ferror, feof and usleep.
-- What the kernel does at each call is a schedule: the calls take their fates from it in turn, and
-- every call after its end is smooth. A `FILE *` is a number, and a closed one is dangling.
pub mod Laws
pub mod Streams
pub mod Files
use pungoo.Common.{
  ℕ, zero, suc, ◌+◌, ◌-◌, Bool, true, false, Option, none, some, List, [], ◌∷◌, ◌++◌, ltb, ◌==◌,
  if◌then◌else◌, length, take, drop, replicate, Run, done, undefined, ◌>>=◌,
}
use pungoo.Common.Int.{ℤ, pos}
use pungoo.Clib.Bytes.{Bytes, str_eq}

-- `broken k e`: a read or a write moves at most `k` bytes and fails, and ferror yields `e` from then
-- on; an fclose fails and loses `k` bytes.
pub data Fate : Type 0 where
  smooth : Fate
  broken : ℕ → ℕ → Fate

-- "rb", "wb" and "ab".
pub data Mode : Type 0 where
  reading writing appending : Mode

pub record Stream : Type 0 where
  pub path : Bytes
  pub mode : Mode
  pub offset : ℕ
  pub at_eof : Bool
  pub error : ℕ

pub record World : Type 0 where
  pub files : Bytes → Option Bytes
  pub streams : ℕ → Option Stream
  pub next : ℕ
  pub fates : List Fate
  pub slept : ℕ

abbrev pub next_fate : List Fate → Fate
next_fate [] = smooth
next_fate (f ∷ fs) = f

abbrev pub later_fates : List Fate → List Fate
later_fates [] = []
later_fates (f ∷ fs) = fs

abbrev pub set_stream : ℕ → Option Stream → (ℕ → Option Stream) → ℕ → Option Stream
set_stream h s streams j = if h == j then s else streams j

abbrev pub set_file : Bytes → Bytes → (Bytes → Option Bytes) → Bytes → Option Bytes
set_file path content files p = if str_eq path p then some content else files p

abbrev pub content_of : Option Bytes → Bytes
content_of none = []
content_of (some c) = c

abbrev pub start_stream : Bytes → Mode → Stream
start_stream path mode = record { path = path; mode = mode; offset = 0; at_eof = false; error = 0 }

-- The file that a successful fopen leaves: `none` if it can not be opened.
abbrev pub opened_file : Mode → Option Bytes → Option Bytes
opened_file reading file = file
opened_file writing file = some []
opened_file appending file = some (content_of file)

abbrev pub open_stream : Bytes → Mode → Option Bytes → World → Option ℕ × World
open_stream path mode none w = (none, w)
open_stream path mode (some c) w = (
  some w.next,
  record w {
    files = set_file path c w.files;
    streams = set_stream w.next (some (start_stream path mode)) w.streams;
    next = w.next + 1;
  },
)

unfoldable pub fopen : Bytes → Mode → World → Option ℕ × World
fopen path mode w =
    let w' = record w { fates = later_fates w.fates } in
    elim (next_fate w.fates) [
      | smooth ↦ open_stream path mode (opened_file mode (w.files path)) w'
      | broken k e ↦ (none, w')
    ]

-- The stream that a `FILE *` points to; a null or dangling pointer is undefined behaviour.
abbrev pub stream_at : Option ℕ → World → Run Stream
stream_at none w = undefined
stream_at (some h) w = elim (w.streams h) [ none ↦ undefined | some s ↦ done s ]

abbrev pub close_stream : Option ℕ → (ℕ → Option Stream) → ℕ → Option Stream
close_stream none streams = streams
close_stream (some h) streams = set_stream h none streams

abbrev pub keep_stream : Option ℕ → Stream → (ℕ → Option Stream) → ℕ → Option Stream
keep_stream none s streams = streams
keep_stream (some h) s streams = set_stream h (some s) streams

abbrev pub is_smooth : Fate → Bool
is_smooth smooth = true
is_smooth (broken k e) = false

-- The files behind an fclose. Where it fails, the last `k` bytes of a file that the stream writes have
-- not come to the disk.
abbrev pub settled : Mode → Fate → Bytes → (Bytes → Option Bytes) → Bytes → Option Bytes
settled reading fate path files = files
settled _ smooth path files = files
settled _ (broken k e) path files =
    let c = content_of (files path) in set_file path (take (length c - k) c) files

-- Whether fclose succeeds. The stream is gone in both cases.
unfoldable pub fclose : Option ℕ → World → Run (Bool × World)
fclose handle w = stream_at handle w >>= λ s.
    let w' = record w {
      files = settled s.mode (next_fate w.fates) s.path w.files;
      streams = close_stream handle w.streams;
      fates = later_fates w.fates;
    } in
    done (is_smooth (next_fate w.fates), w')

abbrev pull_whole : Stream → Bytes → ℕ → Bytes × Stream
pull_whole s c want =
    let got = take want (drop s.offset c) in
    (got, record s { offset = s.offset + length got; at_eof = ltb (length got) want })

abbrev pull_part : Stream → Bytes → ℕ → ℕ → Bytes × Stream
pull_part s c k e =
    let got = take k (drop s.offset c) in
    (got, record s { offset = s.offset + length got; error = e })

-- The bytes that an fread of `want` bytes delivers, and the stream after it. The end-of-file
-- indicator is sticky, and a stream that is not open for reading fails.
unfoldable pub pull : Mode → Bool → Fate → Stream → Bytes → ℕ → Bytes × Stream
pull reading false smooth s c want = pull_whole s c want
pull reading false (broken k e) s c want =
    if ltb k want then pull_part s c k e else pull_whole s c want
pull reading true fate s c want = ([], s)
pull _ _ _ s c want = ([], record s { error = 1 })

-- fread(buf, 1, want, handle): the bytes that it delivers.
unfoldable pub fread : Option ℕ → ℕ → World → Run (Bytes × World)
unfolding pull
fread handle want w = stream_at handle w >>= λ s.
    let (got, s') = pull s.mode s.at_eof (next_fate w.fates) s (content_of (w.files s.path)) want in
    done (got, record w { streams = keep_stream handle s' w.streams; fates = later_fates w.fates })

-- Bytes put over others from an offset on; a gap before the offset is filled with NULs.
splice : Bytes → ℕ → Bytes → Bytes
splice c zero b = b ++ drop (length b) c
splice [] (suc at) b = 0 ∷ splice [] at b
splice (x ∷ c) (suc at) b = x ∷ splice c at b

-- The content of a file after a write of `b` at an offset. A write of nothing fills no gap.
unfoldable pub overwrite : Bytes → ℕ → Bytes → Bytes
unfolding splice
overwrite c at [] = c
overwrite c at (x ∷ b) = splice c at (x ∷ b)

-- Where a write begins.
abbrev pub write_offset : Mode → Stream → Bytes → ℕ
write_offset appending s c = length c
write_offset _ s c = s.offset

-- How many of the bytes a write moves, and the error that it leaves.
unfoldable pub pushed : Mode → Fate → Stream → ℕ → ℕ × ℕ
pushed reading fate s n = (0, 1)
pushed _ smooth s n = (n, s.error)
pushed _ (broken k e) s n = if ltb k n then (k, e) else (n, s.error)

-- fwrite(bytes, 1, length bytes, handle): the number of bytes that it moves.
unfoldable pub fwrite : Option ℕ → Bytes → World → Run (ℕ × World)
unfolding overwrite pushed
fwrite handle bytes w = stream_at handle w >>= λ s.
    let c = content_of (w.files s.path) in
    let at = write_offset s.mode s c in
    let (n, e) = pushed s.mode (next_fate w.fates) s (length bytes) in
    done (
      n,
      record w {
        files = set_file s.path (overwrite c at (take n bytes)) w.files;
        streams = keep_stream handle (record s { offset = at + n; error = e }) w.streams;
        fates = later_fates w.fates;
      },
    )

unfoldable pub ferror : Option ℕ → World → Run ℕ
ferror handle w = stream_at handle w >>= λ s. done s.error

unfoldable pub feof : Option ℕ → World → Run Bool
feof handle w = stream_at handle w >>= λ s. done s.at_eof

abbrev pub seek_stream : Fate → Stream → ℤ → Bool × Stream
seek_stream smooth s (pos n) = (true, record s { offset = n; at_eof = false })
seek_stream _ s _ = (false, s)

-- Whether fseek(handle, offset, SEEK_SET) succeeds: not before the start of the file.
unfoldable pub fseek : Option ℕ → ℤ → World → Run (Bool × World)
fseek handle offset w = stream_at handle w >>= λ s.
    let (ok, s') = seek_stream (next_fate w.fates) s offset in
    done (ok, record w { streams = keep_stream handle s' w.streams; fates = later_fates w.fates })

abbrev pub usleep : ℕ → World → World
usleep us w = record w { slept = w.slept + us }
