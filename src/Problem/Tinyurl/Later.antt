-- ===== src/Problem/Tinyurl/Later.antt =====
-- The url shortener when more urls come after one.
use pungoo.Common.{
  ℕ, suc, ◌+◌, ◌≤◌, ◌≡◌, some, List, [], ◌∷◌, arith, length, Run, done, ◌>>=◌, Ends, Ends-bind,
  Ends-weaken,
}
use pungoo.Clib.Bytes.{Bytes}
use pungoo.Problem.Tinyurl.{Solution, find_url, encode, decode}
use pungoo.Problem.Tinyurl.Valid.{IsValid, Encoded, encode-Encoded, decode-listed}
use pungoo.Problem.Tinyurl.Codes.{number_of-shorten}

-- Urls that are encoded one after the other.
unfoldable pub encode_all : Solution → List Bytes → Run Solution
encode_all s [] = done s
encode_all s (u ∷ urls) = encode s u >>= λ (s', res). encode_all s' urls

-- The state is valid, still knows the short url `res` of the url, and has at most `room` urls.
record Knows (url res : Bytes) (room : ℕ) (s : Solution) : Type 0 where
  valid : IsValid s
  found : find_url s.map_urls url ≡ some res
  few : length s.vec_urls ≤ room

encode_all-Knows :
    (url res : Bytes) (later : List Bytes) (room : ℕ) (s : Solution)
    → Knows url res room s
    → Ends (Knows url res (room + length later)) (encode_all s later)
unfolding encode_all
encode_all-Knows url res [] room s k = record {
  valid = k.valid;
  found = k.found;
  few = omega (arith, k.few);
}
encode_all-Knows url res (u ∷ later) room s k =
    Ends-bind (λ (s', r). Encoded s u s' r) (Knows url res (room + length (u ∷ later))) (encode s u)
      (λ (s', r). encode_all s' later) (encode-Encoded s k.valid u)
      λ (s', r) e.
        Ends-weaken (Knows url res (room + 1 + length later))
          (Knows url res (room + length (u ∷ later))) (encode_all s' later)
          (encode_all-Knows url res later (room + 1) s' (record {
            valid = e.valid;
            found = e.kept url res k.found;
            few = omega (arith, e.grown, k.few);
          }))
          λ t q. record { valid = q.valid; found = q.found; few = omega (arith, q.few) }

module _ (s : Solution) (v : IsValid s) (url : Bytes) where
  -- From a valid state, encode gives a url a short url, and decode gives back the url for it, also
  -- when more urls have been encoded since, as long as there are at most 61 in all.
  pub decode-encode_all :
      (later : List Bytes)
      → length s.vec_urls + 1 + length later ≤ 61
      → Ends (λ (s', res). Ends (λ t. decode t res ≡ done url) (encode_all s' later)) (encode s url)
  decode-encode_all later few =
      Ends-weaken (λ (s', res). Encoded s url s' res) _ (encode s url) (encode-Encoded s v url)
        λ (s', res) e.
          Ends-weaken (Knows url res (length s.vec_urls + 1 + length later))
            (λ t. decode t res ≡ done url) (encode_all s' later)
            (encode_all-Knows url res later (length s.vec_urls + 1) s'
              (record { valid = e.valid; found = e.found; few = e.grown }))
            λ t k.
              let (i, p, q, short) = k.valid.listed url res k.found in
              let bound = k.few in
              decode-listed t k.valid url res i
                (number_of-shorten (suc i) res (omega arith) (omega arith) short) p q
