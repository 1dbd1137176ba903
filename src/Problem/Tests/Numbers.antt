-- ===== src/Problem/Tests/Numbers.antt =====
-- Complex numbers in text form, read, written and multiplied.
use pungoo.Common.{◌≡◌, refl, done, undefined, []}
use pungoo.Common.Int.{pos, negsuc, ◌*ℤ◌, ◌-ℤ◌, ◌+ℤ◌}
use pungoo.Clib.Bytes.{lit, decimal}
use pungoo.Clib.Bytes.Numerals.{value, invalid_argument, stoi}
use pungoo.Problem.Multi.{ComplexNum, from_text, serialize, main}
use pungoo.Problem.Multi.RoundTrip.{from_text-serialize}

abbrev sample : ComplexNum
sample = record { real = negsuc 11; imaginary = pos 305 }

from_text-serialize_example : from_text (serialize sample) ≡ done (value sample)
from_text-serialize_example = from_text-serialize sample refl refl

sample_text : serialize sample ≡ lit "-12+305i"
unfolding serialize decimal
sample_text = refl

imaginary_only :
    from_text (lit "-7i") ≡ done (value (record { real = pos 0; imaginary = negsuc 6 }))
unfolding from_text stoi
imaginary_only = refl

no_first_part : from_text (lit "+5i") ≡ done invalid_argument
unfolding from_text stoi
no_first_part = refl

empty_text : from_text [] ≡ undefined
unfolding from_text stoi
empty_text = refl

main_prints : main ≡ done (value (lit "0+-2i"))
unfolding main decimal ◌*ℤ◌ ◌-ℤ◌ ◌+ℤ◌
main_prints = refl
