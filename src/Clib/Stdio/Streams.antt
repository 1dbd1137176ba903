-- ===== src/Clib/Stdio/Streams.antt =====
-- The calls of stdio on a handle whose stream is known.
use mathlib.Core.Path.{fun_ext}
use pungoo.Common.{
  ◌⊎◌, Bool-cases, ◌==◌, inl, inr, ℕ, ◌+◌, ◌-◌, ◌≡◌, refl, [], false, ◌≢◌, Option, none, some, done,
  undefined, arith, length, take,
}
use pungoo.Common.Int.{ℤ}
use pungoo.Clib.Bytes.{Bytes}
use pungoo.Clib.Stdio.{
  reading, writing, appending, Fate, Mode, Stream, World, stream_at, pull, fread, fwrite,
  write_offset, overwrite, pushed, set_file, ferror, feof, next_fate, later_fates, set_stream,
  start_stream, opened_file, open_stream, fopen, fseek, seek_stream, settled, content_of, fclose,
  is_smooth, smooth, broken,
}

module _ (h : ℕ) (v : World) (s : Stream) (e : v.streams h ≡ some s) where
  stream_at-open : stream_at (some h) v ≡ done s
  stream_at-open = rw (e, stream_at)

  pub ferror-open : ferror (some h) v ≡ done s.error
  unfolding ferror
  ferror-open = rw stream_at-open

  pub feof-open : feof (some h) v ≡ done s.at_eof
  unfolding feof
  feof-open = rw stream_at-open

  pub fclose-open :
      fclose (some h) v
      ≡ done (
        is_smooth (next_fate v.fates),
        record v {
          files = settled s.mode (next_fate v.fates) s.path v.files;
          streams = set_stream h none v.streams;
          fates = later_fates v.fates;
        },
      )
  unfolding fclose
  fclose-open = rw stream_at-open

  pub fseek-open :
      (offset : ℤ)
      → let r = seek_stream (next_fate v.fates) s offset in
        fseek (some h) offset v
        ≡ done (
          r.0,
          record v { streams = set_stream h (some r.1) v.streams; fates = later_fates v.fates },
        )
  unfolding fseek
  fseek-open offset = rw stream_at-open

  module _ (c : Bytes) (f : v.files s.path ≡ some c) where
    pub fread-open :
        (want : ℕ)
        → let r = pull s.mode s.at_eof (next_fate v.fates) s c want in
          fread (some h) want v
          ≡ done (
            r.0,
            record v { streams = set_stream h (some r.1) v.streams; fates = later_fates v.fates },
          )
    unfolding fread
    fread-open want = rw (stream_at-open, f)

    pub fwrite-open :
        (bytes : Bytes)
        → let at = write_offset s.mode s c in
          let r = pushed s.mode (next_fate v.fates) s (length bytes) in
          fwrite (some h) bytes v
          ≡ done (
            r.0,
            record v {
              files = set_file s.path (overwrite c at (take r.0 bytes)) v.files;
              streams = set_stream h (some (record s { offset = at + r.0; error = r.1 })) v.streams;
              fates = later_fates v.fates;
            },
          )
    unfolding fwrite
    fwrite-open bytes = rw (stream_at-open, f)

-- A stream that reads leaves the files as they are when it is closed.
pub settled-reading :
    {mode : Mode} (fate : Fate) (path : Bytes) (files : Bytes → Option Bytes)
    → mode ≡ reading
    → settled mode fate path files ≡ files
settled-reading fate path files e = rw e

-- A stream that writes leaves its file whole, or without its last bytes if the fclose fails.
pub settled-writing :
    {mode : Mode} (fate : Fate) (path : Bytes) (files : Bytes → Option Bytes)
    → mode ≢ reading
    → ((fate ≡ smooth) × (settled mode fate path files ≡ files))
      ⊎ ((fate ≢ smooth)
          × (k : ℕ) × (let c = content_of (files path) in
              settled mode fate path files ≡ set_file path (take (length c - k) c) files))
settled-writing {mode = reading} fate path files h = absurd (h refl)
settled-writing {mode = writing} smooth path files h = inl (refl, refl)
settled-writing {mode = appending} smooth path files h = inl (refl, refl)
settled-writing {mode = writing} (broken k e) path files h = inr (λ g. cc, k, refl)
settled-writing {mode = appending} (broken k e) path files h = inr (λ g. cc, k, refl)

pub fclose-closed : (h : ℕ) (v : World) → v.streams h ≡ none → fclose (some h) v ≡ undefined
unfolding fclose
fclose-closed h v e = rw (e, stream_at)

pub is_smooth-eq : (f : Fate) → f ≢ smooth → is_smooth f ≡ false
is_smooth-eq smooth h = absurd (h refl)
is_smooth-eq (broken k e) h = refl

pub set_stream_self :
    (h : ℕ) (s : Option Stream) (streams : ℕ → Option Stream) → set_stream h s streams h ≡ s
set_stream_self h s streams = ground arith

-- The world after a successful fopen that leaves the file with content `c`.
abbrev pub opened_world : Bytes → Mode → Bytes → World → World
opened_world path mode c w = record w {
  files = set_file path c w.files;
  streams = set_stream w.next (some (start_stream path mode)) w.streams;
  next = w.next + 1;
  fates = later_fates w.fates;
}

module _ (path : Bytes) (mode : Mode) (w : World) (calm : w.fates ≡ []) where
  pub fopen-some :
      (c : Bytes)
      → opened_file mode (w.files path) ≡ some c
      → fopen path mode w ≡ (some w.next, opened_world path mode c w)
  unfolding fopen
  fopen-some c e = rw (calm, next_fate, e, open_stream)

  pub fopen-none : opened_file mode (w.files path) ≡ none → fopen path mode w ≡ (none, w)
  unfolding fopen
  fopen-none e = rw (calm, next_fate, e, open_stream)

pub set_stream-set_stream :
    (h : ℕ) (s t : Option Stream) (streams : ℕ → Option Stream)
    → set_stream h t (set_stream h s streams) ≡ set_stream h t streams
set_stream-set_stream h s t streams = fun_ext λ j. ground arith

pub set_stream_same :
    (h : ℕ) (s : Option Stream) (streams : ℕ → Option Stream)
    → streams h ≡ s
    → streams ≡ set_stream h s streams
set_stream_same h s streams e = fun_ext λ j. elim (Bool-cases (h == j)) [
  | inl t ↦ let same : h ≡ j = ground arith in rw (t, ← same) e
  | inr t ↦ rw t
]

-- fopen for writing makes an empty file, or it gives null and changes nothing.
pub fopen-writing :
    (path : Bytes) (w : World)
    → (fopen path writing w ≡ (some w.next, opened_world path writing [] w))
      ⊎ ((fopen path writing w ≡ (none, record w { fates = later_fates w.fates })) × (w.fates ≢ []))
unfolding fopen
fopen-writing path w = ground arith

-- fopen of an existing file for reading opens it, or it gives null and changes nothing.
pub fopen-reading :
    (path c : Bytes) (w : World)
    → w.files path ≡ some c
    → (fopen path reading w ≡ (some w.next, opened_world path reading c w))
      ⊎ ((fopen path reading w ≡ (none, record w { fates = later_fates w.fates })) × (w.fates ≢ []))
unfolding fopen
fopen-reading path c w e = ground arith

pub fopen-missing :
    (path : Bytes) (w : World)
    → w.files path ≡ none
    → fopen path reading w ≡ (none, record w { fates = later_fates w.fates })
unfolding fopen
fopen-missing path w e = ground arith
