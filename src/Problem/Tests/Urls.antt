-- ===== src/Problem/Tests/Urls.antt =====
-- The url shortener at its first url, and at its 62nd one.
use pungoo.Common.{
  ℕ, zero, suc, ◌≡◌, ◌≢◌, refl, some, none, List, [], ◌∷◌, arith, length, get_elem?, Run, done,
  undefined, exhausted, Ends, Ends-bind, ◌>>=◌,
}
use pungoo.Clib.Bytes.{Bytes, lit, str_eq}
use pungoo.Problem.Tinyurl.{find_url, Solution, new_solution, encode, decode, main}
use pungoo.Problem.Tinyurl.Later.{encode_all, decode-encode_all}
use pungoo.Problem.Tinyurl.Valid.{
  IsValid, Encoded, new_solution-IsValid, encode-Encoded, decode-encode-clash,
}

abbrev site : Bytes
site = lit "http://a"

encode-Encoded_example :
    Ends (λ (s', res). Encoded new_solution site s' res) (encode new_solution site)
encode-Encoded_example = encode-Encoded new_solution new_solution-IsValid site

abbrev others : List Bytes
others = lit "http://b" ∷ lit "http://a" ∷ lit "http://c" ∷ []

decode-encode_all_example :
    Ends
      (λ (s', res). Ends (λ t. decode t res ≡ done site) (encode_all s' others))
      (encode new_solution site)
decode-encode_all_example =
    decode-encode_all new_solution new_solution-IsValid site others (omega arith)

-- The state after n urls of one byte each.
fill : ℕ → Run Solution
fill zero = done new_solution
fill (suc n) = fill n >>= λ s. encode s (suc n ∷ []) >>= λ (s', res). done s'

fill-IsValid : (n : ℕ) → Ends IsValid (fill n)
unfolding fill
fill-IsValid zero = new_solution-IsValid
fill-IsValid (suc n) = Ends-bind IsValid IsValid (fill n) _ (fill-IsValid n) λ s v.
    Ends-bind (λ (s', res). Encoded s (suc n ∷ []) s' res) IsValid (encode s (suc n ∷ [])) _
      (encode-Encoded s v (suc n ∷ [])) λ (s', res) r. r.valid

abbrev state_of : Run Solution → Solution
state_of (done s) = s
state_of undefined = new_solution
state_of exhausted = new_solution

state_of-IsValid : (m : Run Solution) → Ends IsValid m → IsValid (state_of m)
state_of-IsValid (done s) h = h
state_of-IsValid undefined h = absurd h
state_of-IsValid exhausted h = absurd h

full : Solution
full = state_of (fill 61)

full-IsValid : IsValid full
unfolding full
full-IsValid = state_of-IsValid (fill 61) (fill-IsValid 61)

full_length : length full.vec_urls ≡ 61
unfolding full fill encode str_eq
full_length = refl

full_first : get_elem? full.vec_urls 0 ≡ some (1 ∷ [])
unfolding full fill encode str_eq
full_first = refl

full_fresh : find_url full.map_urls site ≡ none
unfolding full fill encode str_eq
full_fresh = refl

decode-encode-clash_example :
    Ends
      (λ (s', res).
        (find_url full.map_urls (1 ∷ []) ≡ some res)
        × (find_url s'.map_urls (1 ∷ []) ≡ some res)
        × (find_url s'.map_urls site ≡ some res)
        × (decode s' res ≡ done (1 ∷ []))
        × ((1 ∷ []) ≢ site))
      (encode full site)
decode-encode-clash_example =
    decode-encode-clash full full-IsValid site (1 ∷ []) full_length full_fresh full_first

main_prints : main ≡ done (lit "000001", lit "https://leetcode.com/problems/design-tinyurl")
unfolding main
main_prints = refl
