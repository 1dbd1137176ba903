-- ===== src/Clib/Stdio/Files.antt =====
-- The contents of files under writes.
use Prim.Native.Nat.add
use native.Mathlib.Nat.{add-zero}
use mathlib.Core.Path.{fun_ext}
use mathlib.Core.List.{append-nil, append_assoc}
use pungoo.Common.{
  ℕ, zero, suc, ◌+◌, ◌≤◌, ◌≡◌, refl, ap, ◌≢◌, inl, inr, Option, some, [], ◌∷◌, ◌++◌, arith, length,
  drop, Bool-cases, drop_all,
}
use pungoo.Clib.Bytes.{Bytes, str_eq}
use pungoo.Clib.Bytes.Laws.{str_eq_refl, str_eq_sound}
use pungoo.Clib.Stdio.{
  Fate, smooth, broken, Mode, reading, writing, appending, Stream, splice, overwrite, set_file,
  pushed,
}

splice_behind : (x c y : Bytes) → splice (x ++ c) (length x) y ≡ x ++ (y ++ drop (length y) c)
unfolding splice
splice_behind [] c y = refl
splice_behind (a ∷ x) c y = ap (◌∷◌ a) (splice_behind x c y)

drop_behind : (c x y : Bytes) → drop (length y) (drop (length x) c) ≡ drop (length (x ++ y)) c
drop_behind c [] y = refl
drop_behind [] (a ∷ x) y = drop_all (length y) [] (omega arith)
drop_behind (b ∷ c) (a ∷ x) y = drop_behind c x y

splice-splice :
    (c : Bytes) (at : ℕ) (x y : Bytes)
    → splice (splice c at x) (at + length x) y ≡ splice c at (x ++ y)
unfolding splice
splice-splice c zero x y =
    rw (add.zero, splice_behind x (drop (length x) c) y, drop_behind c x y, append_assoc)
splice-splice [] (suc at) x y = rw add.suc (ap (◌∷◌ 0) (splice-splice [] at x y))
splice-splice (b ∷ c) (suc at) x y = rw add.suc (ap (◌∷◌ b) (splice-splice c at x y))

-- Two writes in a row make one.
pub overwrite-overwrite :
    (c : Bytes) (at : ℕ) (x y : Bytes)
    → overwrite (overwrite c at x) (at + length x) y ≡ overwrite c at (x ++ y)
unfolding overwrite
overwrite-overwrite c at [] y = rw add-zero
overwrite-overwrite c at (a ∷ x) [] = rw append-nil
overwrite-overwrite c at (a ∷ x) (b ∷ y) = splice-splice c at (a ∷ x) (b ∷ y)

length-splice_end : (c x : Bytes) → length (splice c (length c) x) ≡ length c + length x
unfolding splice
length-splice_end [] x = rw (drop_all {A = ℕ} (length x) [] (omega arith), append-nil, add.zero)
length-splice_end (a ∷ c) x = omega (arith, length-splice_end c x)

pub length-overwrite_end : (c x : Bytes) → length (overwrite c (length c) x) ≡ length c + length x
unfolding overwrite
length-overwrite_end c [] = omega arith
length-overwrite_end c (a ∷ x) = length-splice_end c (a ∷ x)

pub set_file_self : (p c : Bytes) (files : Bytes → Option Bytes) → set_file p c files p ≡ some c
set_file_self p c files = rw (str_eq_refl p)

pub set_file-set_file :
    (p c d : Bytes) (files : Bytes → Option Bytes)
    → set_file p d (set_file p c files) ≡ set_file p d files
set_file-set_file p c d files = fun_ext λ q. ground arith

pub set_file_same :
    (p c : Bytes) (files : Bytes → Option Bytes) → files p ≡ some c → files ≡ set_file p c files
set_file_same p c files e =
    fun_ext
      λ q. elim (Bool-cases (str_eq p q)) [ inl t ↦ rw (t, ← str_eq_sound p q t) e | inr t ↦ rw t ]

-- What a write moves.
pub record Pushed (fate : Fate) (n : ℕ) (r : ℕ × ℕ) : Type 0 where
  pub room : r.0 ≤ n
  pub all : fate ≡ smooth → r.0 ≡ n

pub pushed-Pushed :
    (m : Mode) (fate : Fate) (s : Stream) (n : ℕ) → m ≢ reading → Pushed fate n (pushed m fate s n)
unfolding pushed
pushed-Pushed reading fate s n h = absurd (h refl)
pushed-Pushed writing smooth s n h = record { room = omega arith; all = λ _. refl }
pushed-Pushed writing (broken k e) s n h = record { room = ground arith; all = λ g. cc }
pushed-Pushed appending smooth s n h = record { room = omega arith; all = λ _. refl }
pushed-Pushed appending (broken k e) s n h = record { room = ground arith; all = λ g. cc }

-- A write into an empty file at its start leaves the bytes.
pub overwrite_empty : (b : Bytes) → overwrite [] 0 b ≡ b
unfolding overwrite
overwrite_empty [] = refl
overwrite_empty (x ∷ b) = rw append-nil
