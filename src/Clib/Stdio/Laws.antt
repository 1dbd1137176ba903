-- ===== src/Clib/Stdio/Laws.antt =====
-- What a transfer on an open stream moves.
use pungoo.Common.{
  ℕ, zero, suc, ap, ◌+◌, ◌-◌, ◌≤◌, ◌<◌, ◌≡◌, refl, sym, true, false, [], ◌∷◌, arith, ltb, length,
  Bool-cases, tests, ltb→lt, take, drop, length-take, length-drop, min, ◌⊎◌, inl, inr, Bool,
}
use pungoo.Clib.Bytes.{Bytes}
use pungoo.Clib.Stdio.{
  Fate, smooth, broken, Mode, reading, writing, appending, Stream, pull, pull_whole, pull_part,
}

take-length-take : (n : ℕ) (xs : Bytes) → take (length (take n xs)) xs ≡ take n xs
take-length-take zero xs = refl
take-length-take (suc n) [] = refl
take-length-take (suc n) (x ∷ xs) = ap (◌∷◌ x) (take-length-take n xs)

-- What fread delivers: the bytes at the offset, which moves past them.
pub record Pulled (fate : Fate) (s : Stream) (c : Bytes) (want : ℕ) (r : Bytes × Stream)
    : Type 0 where
  pub bytes : r.0 ≡ take (length r.0) (drop s.offset c)
  pub room : length r.0 ≤ want
  pub inside : s.offset + length r.0 ≤ length c ⊎ length r.0 ≡ 0
  pub moved : r.1.offset ≡ s.offset + length r.0
  pub path : r.1.path ≡ s.path
  pub mode : r.1.mode ≡ reading
  pub ended : r.1.at_eof ≡ true → length c ≤ r.1.offset
  pub error : fate ≡ smooth → r.1.error ≡ s.error
  pub stuck : fate ≡ smooth → 0 < want → length r.0 ≡ 0 → r.1.at_eof ≡ true

-- How many bytes a piece of at most `n` bytes from an offset on has.
piece : (n at : ℕ) (c : Bytes) → length (take n (drop at c)) ≡ min n (length c - at)
piece n at c = omega (arith, length-take {0} n (drop at c), length-drop {0} at c)

module _ (s : Stream) (c : Bytes) (em : s.mode ≡ reading) where
  pull_whole-Pulled : (fate : Fate) (want : ℕ) → Pulled fate s c want (pull_whole s c want)
  pull_whole-Pulled fate want = record {
    bytes = sym (take-length-take _ _);
    room = omega (arith, piece want s.offset c);
    inside = omega (arith, piece want s.offset c);
    moved = refl;
    path = refl;
    mode = em;
    ended = λ h. omega (tests, piece want s.offset c);
    error = λ _. refl;
    stuck = λ _ p z. omega (tests, piece want s.offset c);
  }

  pull_part-Pulled :
      (want k e : ℕ)
      → k < want
      → s.at_eof ≡ false
      → Pulled (broken k e) s c want (pull_part s c k e)
  pull_part-Pulled want k e h fresh = record {
    bytes = sym (take-length-take _ _);
    room = omega (arith, piece k s.offset c);
    inside = omega (arith, piece k s.offset c);
    moved = refl;
    path = refl;
    mode = em;
    ended = λ t. cc;
    error = λ t. cc;
    stuck = λ t. cc;
  }

pub pull-Pulled :
    (m : Mode) (eof : Bool) (fate : Fate) (s : Stream) (c : Bytes) (want : ℕ)
    → m ≡ reading
    → s.mode ≡ m
    → s.at_eof ≡ eof
    → (eof ≡ true → length c ≤ s.offset)
    → Pulled fate s c want (pull m eof fate s c want)
unfolding pull
pull-Pulled reading false smooth s c want e em ee h = pull_whole-Pulled s c em smooth want
pull-Pulled reading false (broken k x) s c want e em ee h = elim (Bool-cases (ltb k want)) [
  | inl short ↦ rw short (pull_part-Pulled s c em want k x (ltb→lt _ _ short) ee)
  | inr long ↦ rw long (pull_whole-Pulled s c em (broken k x) want)
]
pull-Pulled reading true fate s c want e em ee h = record {
  bytes = refl;
  room = omega arith;
  inside = inr refl;
  moved = omega arith;
  path = refl;
  mode = em;
  ended = λ _. h refl;
  error = λ _. refl;
  stuck = λ _ _ _. ee;
}
pull-Pulled writing eof fate s c want e em ee h = cc
pull-Pulled appending eof fate s c want e em ee h = cc
