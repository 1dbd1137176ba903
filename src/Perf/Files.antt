-- ===== src/Perf/Files.antt =====
-- One round of main.c.
use pungoo.Common.{
  ℕ, ◌-◌, Option, ◌≤◌, ◌<◌, ◌≡◌, refl, sym, ◌∙◌, ap, ◌≢◌, List, ◌⊎◌, inl, inr, true, false, Bool,
  none, some, [], ◌∷◌, arith, length, take, Ends, Ends-bind,
}
use pungoo.Common.Int.{ℤ, pos, minus_one, eqb_ℤ}
use pungoo.Clib.Bytes.{Bytes, IsText, str_eq}
use pungoo.Clib.Bytes.Laws.{str_eq_refl}
use pungoo.Clib.Stdio.{
  Fate, Stream, next_fate, reading, writing, start_stream, World, later_fates, set_stream,
  overwrite,
}
use pungoo.Clib.Stdio.Streams.{
  settled-writing, fopen-writing, set_stream_self, set_stream-set_stream, set_stream_same,
  opened_world,
}
use pungoo.Clib.Stdio.Files.{set_file_self, overwrite_empty}
use pungoo.Disk.{Disk, file_open_mod_write, max_path_len}
use pungoo.Disk.Write.{IsWritableAt, WriteResult, disk_t_file_write-WriteResult}
use pungoo.Disk.Objects.{
  closed_world, disk_t_create-IsFresh, unopened, disk_t_file_open-opening, disk_t_destroy_lem,
}
use pungoo.Perf.{write_opened, write_with, write_file, destroyed}

-- A file holds the bytes, or a first part of them where the kernel reports a fault.
abbrev pub Holds : World → Bytes → Option Bytes → Type 0
Holds w bytes content =
    (content ≡ some bytes) ⊎ ((w.fates ≢ []) × (k : ℕ) × (content ≡ some (take k bytes)))

-- What a round of the writer leaves: no stream stays open, no other file changes, and if the loop
-- goes on the file holds the data, or a first part of it where fclose has failed.
pub record WroteFile (buff : Bytes) (len : ℕ) (name : Bytes) (w : World) (ok : Bool) (v : World)
    : Type 0 where
  pub streams : v.streams ≡ w.streams
  pub others : (p : Bytes) → str_eq name p ≡ false → v.files p ≡ w.files p
  pub next : w.next ≤ v.next
  pub fates : (v.fates ≡ []) ⊎ (w.fates ≢ [])
  pub result :
      ((ok ≡ true) × Holds w (take len buff) (v.files name)) ⊎ ((ok ≡ false) × (w.fates ≢ []))

-- A call that has kept a calm kernel calm.
pub stays_calm : (x y : List Fate) → (x ≡ [] → y ≡ []) → (y ≡ []) ⊎ (x ≢ [])
stays_calm [] y k = inl (k refl)
stays_calm (f ∷ x) y k = inr (λ e. cc)

-- The files once a stream that writes `name` is closed.
module _ (w v : World) (s : Stream) (h : ℕ) (name : Bytes) (writes : s.mode ≢ reading)
    (path : s.path ≡ name) where
  closed-others : (p : Bytes) → str_eq name p ≡ false → (closed_world h s v).files p ≡ v.files p
  closed-others p other = elim (settled-writing (next_fate v.fates) s.path v.files writes) [
    | inl (smooth, same) ↦ ap (λ g. g p) same
    | inr (rough, k, lost) ↦
        let apart : str_eq s.path p ≡ false = rw path other in ap (λ g. g p) lost ∙ rw apart
  ]

  closed-Holds :
      (bytes : Bytes)
      → v.files name ≡ some bytes
      → (w.fates ≡ [] → v.fates ≡ [])
      → Holds w bytes ((closed_world h s v).files name)
  closed-Holds bytes held calm = elim (settled-writing (next_fate v.fates) s.path v.files writes) [
    | inl (smooth, same) ↦ inl (ap (λ g. g name) same ∙ held)
    | inr (rough, k, lost) ↦ inr (
      λ still. rough (rw (calm still) refl),
      length bytes - k,
      ap (λ g. g name) lost ∙ rw (path, held, str_eq_refl name) refl,
    )
  ]

-- The result of a write, as the loop tests it.
written_test :
    {F : Type 0} (n : ℤ) (count len : ℕ)
    → 0 < len
    → ((n ≡ pos 0) × F) ⊎ ((n ≡ pos count) × (count ≡ len))
    → ((eqb_ℤ n (pos len) ≡ true) × (count ≡ len)) ⊎ ((eqb_ℤ n (pos len) ≡ false) × F)
written_test n count len h (inl (e, f)) = inr (rw e (ground arith), f)
written_test n count len h (inr (e, k)) = inl (ground arith, k)

module _ (buff : Bytes) (len : ℕ) (name : Bytes) (w : World) (room : len ≤ length buff)
    (some_bytes : 0 < len) (fresh : w.streams w.next ≡ none) where
  -- The object behind a successful open is written and destroyed.
  write_opened-WroteFile :
      (d : Disk)
      → d.handle_ ≡ some w.next
      → Ends
          (λ (ok, v). WroteFile buff len name w ok v)
          (write_opened buff len (pos 0, some d, opened_world name writing [] w))
  unfolding write_opened destroyed
  write_opened-WroteFile d e =
      let v0 = opened_world name writing [] w in
      let here : IsWritableAt w.next name [] 0 v0 = record {
        stream = start_stream name writing;
        opened = set_stream_self w.next _ w.streams;
        mode = λ g. cc;
        path_of = refl;
        offset = refl;
        file = set_file_self name [] w.files;
      } in
      Ends-bind (λ (n, v). WriteResult w.next name buff (pos len) [] 0 v0 n v)
        (λ (ok, v). WroteFile buff len name w ok v) _
        (λ (n, v). destroyed (eqb_ℤ n (pos len)) (some d) v)
        (disk_t_file_write-WriteResult d w.next name buff (pos len) [] 0 v0 e here room)
        λ (n, v) r.
          rw (disk_t_destroy_lem d w.next v e r.writable.stream r.writable.opened) (record {
            streams =
                ap (set_stream w.next none) r.streams
                ∙ (set_stream-set_stream w.next _ none v0.streams
                    ∙ (set_stream-set_stream w.next _ none w.streams
                        ∙ sym (set_stream_same w.next none w.streams fresh)));
            others = λ p f.
                closed-others w v r.writable.stream w.next name r.writable.mode r.writable.path_of p
                  f
                ∙ (ap (λ g. g p) r.files ∙ rw f);
            next = omega (arith, r.next);
            fates =
                stays_calm w.fates (later_fates v.fates)
                  (λ c. let none_left : v0.fates ≡ [] = rw c in rw (r.fates none_left));
            result = elim (written_test n r.count len some_bytes r.result) [
              | inl (good, all) ↦ inl (
                good,
                closed-Holds w v r.writable.stream w.next name r.writable.mode r.writable.path_of
                    (take len buff)
                    (ap (λ g. g name) r.files
                      ∙ (set_file_self name (overwrite [] 0 (take r.count buff)) v0.files
                          ∙ rw (overwrite_empty, all)))
                    (λ c. let none_left : v0.fates ≡ [] = rw c in r.fates none_left),
              )
              | inr (bad, f) ↦ inr (bad, λ g. f (rw g))
            ];
          })

  -- The object behind an open that failed is destroyed.
  write_failed-WroteFile :
      (d : Disk)
      → d.handle_ ≡ none
      → w.fates ≢ []
      → Ends
          (λ (ok, v). WroteFile buff len name w ok v)
          (write_opened buff len (minus_one, some d, record w { fates = later_fates w.fates }))
  unfolding write_opened destroyed
  write_failed-WroteFile d e faulty =
      rw (unopened d [] 0 (record w { fates = later_fates w.fates }) e).1 (record {
        streams = refl;
        others = λ p f. refl;
        next = omega arith;
        fates = inr faulty;
        result = inr (refl, faulty);
      })

  -- When malloc finds memory, a round of main.c's loop always ends, and in each case, whether a
  -- call fails or not, it leaves no stream open and no other file changed. If the loop goes on the
  -- file holds the first `len` bytes of the buffer, or fewer of them where the kernel reported a
  -- fault, and it goes on whenever the kernel reports no fault.
  pub write_file-WroteFile :
      IsText name
      → length name < max_path_len
      → Ends (λ (ok, v). WroteFile buff len name w ok v) (write_file true buff len name w)
  unfolding write_file write_with
  write_file-WroteFile t h =
      let (d, made, f) = disk_t_create-IsFresh name file_open_mod_write t h in
      rw (made, disk_t_file_open-opening d name file_open_mod_write w f)
        (elim (fopen-writing name w) [
          | inl e ↦ rw e (write_opened-WroteFile (record d { handle_ = some w.next }) refl)
          | inr (e, faulty) ↦
              rw e (write_failed-WroteFile (record d { handle_ = none }) refl faulty)
        ])
