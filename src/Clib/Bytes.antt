-- ===== src/Clib/Bytes.antt =====
-- Byte arrays and C strings: strlen, strncpy, snprintf, memset and `%d`, with the faults of C
-- where an access would pass the end of an array.
pub mod Laws
pub mod Numerals
pub mod Texts
use Prim.Native.Char.{code}
use Prim.Native.String.{String}
use mathlib.Core.Option
use pungoo.Common.{
  ℕ, zero, suc, ◌+◌, ◌-◌, ◌/◌, ◌%◌, ◌<◌, Bool, true, false, ◌&&◌, Option, none, some, List, [], ◌∷◌,
  ◌++◌, ltb, ◌==◌, if◌then◌else◌, length, take, replicate, store,
}
use pungoo.Common.Int.{ℤ, pos, negsuc}

abbrev pub Bytes : Type 0
Bytes = List ℕ

-- The bytes of a literal of the source.
abbrev pub lit : String → Bytes
lit String.[] = []
lit (String.◌∷◌ c s) = code c ∷ lit s

-- No byte of the text ends it early.
abbrev pub IsText : Bytes → Type 0
IsText [] = Unit
IsText (c ∷ s) = (0 < c) × IsText s

-- What `%s` and strlen read from an array: the bytes before the first NUL. `none` if there is
-- none, for then the read passes the end of the array.
unfoldable pub c_str : Bytes → Option Bytes
c_str [] = none
c_str (c ∷ b) = if c == 0 then some [] else Option.map (◌∷◌ c) (c_str b)

-- What strncpy writes: at most `n` bytes of the text, then NULs up to `n` in all.
unfoldable pub padded : ℕ → Bytes → Bytes
padded n s = take n s ++ replicate (n - length s) 0

-- strncpy(buf, s, n)
unfoldable pub strncpy : Bytes → Bytes → ℕ → Option Bytes
unfolding padded store
strncpy buf s n = store buf 0 (padded n s)

-- snprintf(buf, size, ...), given the whole text that the format makes.
unfoldable pub snprintf : Bytes → ℕ → Bytes → Option Bytes
unfolding store
snprintf buf size text = store buf 0 (take (size - 1) text ++ 0 ∷ [])

-- strcmp(s, t) == 0
unfoldable pub str_eq : Bytes → Bytes → Bool
str_eq [] [] = true
str_eq (c ∷ s) (d ∷ t) = c == d && str_eq s t
str_eq _ _ = false

-- The decimal digits of a number, on fuel: each round divides by ten.
unfoldable pub digits_onto : ℕ → ℕ → Bytes → Bytes
digits_onto zero n acc = acc
digits_onto (suc f) n acc =
    let rest = digits_onto f (n / 10) ((b'0' + n % 10) ∷ acc) in
    if ltb n 10 then (b'0' + n) ∷ acc else rest

-- `%d`
unfoldable pub decimal : ℤ → Bytes
unfolding digits_onto
decimal (pos n) = digits_onto (n + 1) n []
decimal (negsuc n) = b'-' ∷ digits_onto (n + 2) (n + 1) []
