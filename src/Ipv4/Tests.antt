-- ===== src/Ipv4/Tests.antt =====
-- The test of an address on texts that it accepts and on texts that it refuses.
use pungoo.Common.{◌≡◌, ◌↔◌, refl, true, false, [], ◌∷◌, store, done, Ends}
use pungoo.Common.Int.{minus_one}
use pungoo.Clib.Bytes.{lit}
use pungoo.Ipv4.{scan, is_valid_ipv4, main}
use pungoo.Ipv4.Accepted.{Octets, is_valid_ipv4-Octets}

is_valid_ipv4-Octets_example :
    Ends (λ ok. (ok ≡ true) ↔ Octets 0 (lit "192.168.0.1")) (is_valid_ipv4 (lit "192.168.0.1"))
is_valid_ipv4-Octets_example = is_valid_ipv4-Octets (lit "192.168.0.1")

accepts : is_valid_ipv4 (lit "192.168.0.1") ≡ done true
unfolding is_valid_ipv4 scan store
accepts = refl

accepts_two_octets : is_valid_ipv4 (lit "1.2") ≡ done true
unfolding is_valid_ipv4 scan store
accepts_two_octets = refl

accepts_last_dot : is_valid_ipv4 (lit "1.2.3.4.") ≡ done true
unfolding is_valid_ipv4 scan store
accepts_last_dot = refl

refuses_large : is_valid_ipv4 (lit "1.2.3.256") ≡ done false
unfolding is_valid_ipv4 scan store
refuses_large = refl

refuses_leading_zero : is_valid_ipv4 (lit "1.02.3.4") ≡ done false
unfolding is_valid_ipv4 scan store
refuses_leading_zero = refl

refuses_five : is_valid_ipv4 (lit "1.2.3.4.5") ≡ done false
unfolding is_valid_ipv4 scan store
refuses_five = refl

main_no_argument : main (lit "ipv4" ∷ []) ≡ done (lit "params is not correct\n", minus_one)
unfolding main
main_no_argument = refl
