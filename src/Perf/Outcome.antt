-- ===== src/Perf/Outcome.antt =====
-- What main.c leaves after a part of its series of files.
use pungoo.Common.{
  Option, ℕ, ◌+◌, ◌<◌, ◌≤◌, ◌≡◌, ◌≢◌, ◌⊎◌, inl, inr, refl, Bool, true, false, none, List, [], ◌∷◌,
  arith, take,
}
use pungoo.Common.Int.{ℤ, pos, minus_one}
use pungoo.Clib.Bytes.{Bytes}
use pungoo.Clib.Stdio.{Fate, World}
use pungoo.Perf.{file_name}
use pungoo.Perf.Files.{Holds}

-- No stream is open under a handle that fopen has still to give.
abbrev pub HasFreshHandles : World → Type 0
HasFreshHandles w = (n : ℕ) → w.next ≤ n → w.streams n ≡ none

-- What the files `time`, ..., `time + k - 1` of the series come to: no stream stays open, a file
-- that differs from before is one of these, and either the result is 0 and each of them holds the
-- bytes, or a first part of them where the kernel reported a fault, or it is -1 and the kernel
-- reported a fault.
pub record WroteSeries (k time : ℕ) (bytes : Bytes) (w : World) (r : ℤ) (v : World) : Type 0 where
  pub streams : v.streams ≡ w.streams
  pub next : w.next ≤ v.next
  pub fates : (v.fates ≡ []) ⊎ (w.fates ≢ [])
  pub files :
      (p : Bytes)
      → (v.files p ≡ w.files p)
        ⊎ ((t : ℕ) × (time ≤ t)
            × (t < time + k)
            × (file_name t ≡ p)
            × (Holds w bytes (v.files p) ⊎ (r ≡ minus_one)))
  pub result :
      ((r ≡ pos 0) × ((t : ℕ) → time ≤ t → t < time + k → Holds w bytes (v.files (file_name t))))
      ⊎ ((r ≡ minus_one) × (w.fates ≢ []))

module _ (buff : Bytes) (len : ℕ) where
  abbrev pub Held : World → World → Bytes → Type 0
  Held w v name = Holds w (take len buff) (v.files name)

  pub written :
      {F : Type 0} (w v : World) {name : Bytes}
      → ((true ≡ true) × Held w v name) ⊎ ((◌≡◌ {A = Bool} true false) × F)
      → Held w v name
  written w v (inl (e, h)) = h
  written w v (inr (e, f)) = ground arith

  -- What is said of the world in the middle holds of the first one.
  pub earlier :
      (w v : World) (content : Option Bytes)
      → (v.fates ≡ []) ⊎ (w.fates ≢ [])
      → Holds v (take len buff) content
      → Holds w (take len buff) content
  earlier w v content calm (inl whole) = inl whole
  earlier w v content (inl calm) (inr (faulty, k, part)) = absurd (faulty calm)
  earlier w v content (inr f) (inr (faulty, k, part)) = inr (f, k, part)

  -- A file that was written stays so when the result is 0.
  pub first :
      (k : ℕ) (w v v' : World) (time : ℕ)
      → (v.fates ≡ []) ⊎ (w.fates ≢ [])
      → Held w v (file_name time)
      → (r : ℤ) → r ≡ pos 0
      → (v'.files (file_name time) ≡ v.files (file_name time))
        ⊎ ((t : ℕ) × (time + 1 ≤ t)
            × (t < time + 1 + k)
            × (file_name t ≡ file_name time)
            × (Held v v' (file_name time) ⊎ (r ≡ minus_one)))
      → Held w v' (file_name time)
  first k w v v' time calm h r good (inl same) = rw same h
  first k w v v' time calm h r good (inr (t, above, below, name, inl held)) =
      earlier w v _ calm held
  first k w v v' time calm h r good (inr (t, above, below, name, inr bad)) = ground arith

pub still : {x y z : List Fate} → y ≡ [] → (z ≡ []) ⊎ (y ≢ []) → (z ≡ []) ⊎ (x ≢ [])
still calm (inl e) = inl e
still calm (inr f) = absurd (f calm)

pub calm_or : (x : List Fate) → (x ≡ []) ⊎ (x ≢ [])
calm_or [] = inl refl
calm_or (f ∷ x) = inr (λ e. cc)
