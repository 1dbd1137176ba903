-- ===== src/Problem/Tinyurl/Valid.antt =====
-- The state of the url shortener and what encode makes of it.
use pungoo.Common.{
  ℕ, zero, suc, ◌+◌, ◌-◌, ◌<◌, ◌≤◌, ◌≡◌, ◌≢◌, refl, ◌∙◌, sym, false, none, some, arith, lt→ltb,
  le→leb, List, [], ◌∷◌, ◌++◌, length, length-append, get_elem?, done, Ends, Ends-weaken, ◌⊎◌, inl,
  inr, Bool-cases, Option-cases,
}
use pungoo.Clib.Bytes.{Bytes, str_eq}
use pungoo.Clib.Bytes.Laws.{str_eq_refl, str_eq_sound}
use pungoo.Problem.Tinyurl.{find_url, Solution, new_solution, shorten, encode, number_of, decode}
use pungoo.Problem.Tinyurl.Codes.{
  shorten_end, number_of-shorten, first_short, shorten_first, shorten_again,
}

-- Each url of the map has the short url of the place where the vector holds it, and the vector
-- holds each of its urls once, all of them in the map.
pub record IsValid (s : Solution) : Type 0 where
  pub listed :
      (u r : Bytes)
      → find_url s.map_urls u ≡ some r
      → (i : ℕ) × (i < length s.vec_urls)
        × (get_elem? s.vec_urls i ≡ some u)
        × (shorten (suc i) ≡ done r)
  pub known : (i : ℕ) (u : Bytes) → get_elem? s.vec_urls i ≡ some u → find_url s.map_urls u ≢ none
  pub distinct :
      (i j : ℕ) (u : Bytes)
      → get_elem? s.vec_urls i ≡ some u
      → get_elem? s.vec_urls j ≡ some u
      → i ≡ j

get_elem?-snoc : (xs : List Bytes) (x : Bytes) → get_elem? (xs ++ x ∷ []) (length xs) ≡ some x
get_elem?-snoc [] x = refl
get_elem?-snoc (y ∷ xs) x = get_elem?-snoc xs x

get_elem?-front :
    (xs : List Bytes) (x : Bytes) (i : ℕ)
    → i < length xs
    → get_elem? (xs ++ x ∷ []) i ≡ get_elem? xs i
get_elem?-front [] x i h = absurd (omega arith)
get_elem?-front (y ∷ xs) x zero h = refl
get_elem?-front (y ∷ xs) x (suc i) h = get_elem?-front xs x i (omega arith)

-- The places of a vector that has grown by one.
get_elem?-snoc_cases :
    (xs : List Bytes) (x : Bytes) (i : ℕ) (u : Bytes)
    → get_elem? (xs ++ x ∷ []) i ≡ some u
    → ((i < length xs) × (get_elem? xs i ≡ some u)) ⊎ ((i ≡ length xs) × (u ≡ x))
get_elem?-snoc_cases [] x zero u h = inr (refl, cc)
get_elem?-snoc_cases [] x (suc i) u h = cc
get_elem?-snoc_cases (y ∷ xs) x zero u h = inl (omega arith, h)
get_elem?-snoc_cases (y ∷ xs) x (suc i) u h = elim (get_elem?-snoc_cases xs x i u h) [
  | inl (p, q) ↦ inl (omega arith, q)
  | inr (p, q) ↦ inr (omega arith, q)
]

-- What encode promises: the state stays valid, the url has its short url, and the short urls that
-- were given out before are kept.
pub record Encoded (s : Solution) (url : Bytes) (s' : Solution) (res : Bytes) : Type 0 where
  pub valid : IsValid s'
  pub found : find_url s'.map_urls url ≡ some res
  pub kept : (u r : Bytes) → find_url s.map_urls u ≡ some r → find_url s'.map_urls u ≡ some r
  pub grown : length s'.vec_urls ≤ length s.vec_urls + 1

module _ (s : Solution) (v : IsValid s) (url : Bytes) where
  module _ (res : Bytes) (fresh : find_url s.map_urls url ≡ none)
      (e : shorten (suc (length s.vec_urls)) ≡ done res) where
    abbrev next : Solution
    next = record { map_urls = (url, res) ∷ s.map_urls; vec_urls = s.vec_urls ++ url ∷ [] }

    fresh_url : (u : Bytes) → find_url s.map_urls u ≢ none → str_eq url u ≡ false
    fresh_url u h = elim (Bool-cases (str_eq url u)) [
      | inr f ↦ f
      | inl f ↦ let same = str_eq_sound url u f in absurd (h (rw same at fresh))
    ]

    next-IsValid : IsValid next
    unfolding find_url
    next-IsValid = record {
      listed = λ u r f. elim (Bool-cases (str_eq url u)) [
        | inl g ↦
            let same = str_eq_sound url u g in
            let new : some res ≡ some r = rw g at f in
            let size = length-append s.vec_urls (url ∷ []) in
            (length s.vec_urls, omega arith, rw (← same) (get_elem?-snoc s.vec_urls url), e ∙ cc)
        | inr g ↦
            let (i, p, q, w) = v.listed u r (rw g at f) in
            let size = length-append s.vec_urls (url ∷ []) in
            (i, omega arith, get_elem?-front s.vec_urls url i p ∙ q, w)
      ];
      known = λ i u f. elim (get_elem?-snoc_cases s.vec_urls url i u f) [
        | inl (p, q) ↦ rw (fresh_url u (v.known i u q)) (v.known i u q)
        | inr (p, q) ↦ rw (q, str_eq_refl url) λ h. cc
      ];
      distinct = λ i j u f g. elim (get_elem?-snoc_cases s.vec_urls url i u f) [
        | inl (p, q) ↦ elim (get_elem?-snoc_cases s.vec_urls url j u g) [
          | inl (p', q') ↦ v.distinct i j u q q'
          | inr (p', q') ↦ absurd (v.known i u q (rw q' fresh))
        ]
        | inr (p, q) ↦ elim (get_elem?-snoc_cases s.vec_urls url j u g) [
          | inl (p', q') ↦ absurd (v.known j u q' (rw q fresh))
          | inr (p', q') ↦ p ∙ sym p'
        ]
      ];
    }

    next-Encoded : Encoded s url next res
    unfolding find_url
    next-Encoded = record {
      valid = next-IsValid;
      found = rw (str_eq_refl url) refl;
      kept = λ u r f. rw (fresh_url u λ h. let clash : some r ≡ none = sym f ∙ h in cc) f;
      grown = omega (arith, length-append s.vec_urls (url ∷ []));
    }

  -- From a valid state encode returns; the state stays valid, the url has the short url that is
  -- returned, the short urls given out before are kept, and at most one url is added.
  pub encode-Encoded : Ends (λ (s', res). Encoded s url s' res) (encode s url)
  unfolding encode
  encode-Encoded = elim (Option-cases (find_url s.map_urls url)) [
    | inr (res, e) ↦
        rw (e, encode) (record { valid = v; found = e; kept = λ u r f. f; grown = omega arith })
    | inl e ↦
        let size : length (s.vec_urls ++ url ∷ []) ≡ suc (length s.vec_urls) =
          omega (arith, length-append s.vec_urls (url ∷ [])) in
        let (res, f) = shorten_end (suc (length s.vec_urls)) in
        rw (e, encode, size, f) (next-Encoded res e f)
  ]

  pub decode-listed :
      (res : Bytes) (i : ℕ)
      → number_of res 0 ≡ suc i
      → i < length s.vec_urls
      → get_elem? s.vec_urls i ≡ some url
      → decode s res ≡ done url
  unfolding decode
  decode-listed res i e h f =
      let back : suc i - 1 ≡ i = omega arith in
      rw
        (
          e,
          le→leb (suc i) (length s.vec_urls) (omega arith),
          lt→ltb 0 (suc i) (omega arith),
          back,
          f,
        )
        refl

module _ (s : Solution) (v : IsValid s) (url : Bytes) where
  -- From a valid state with at most 60 urls, decode gives back the url that encode was given.
  decode-encode :
      length s.vec_urls ≤ 60 → Ends (λ (s', res). decode s' res ≡ done url) (encode s url)
  decode-encode few =
      Ends-weaken (λ (s', res). Encoded s url s' res) _ (encode s url) (encode-Encoded s v url)
        λ (s', res) r.
          let (i, p, q, e) = r.valid.listed url res r.found in
          let bound = r.grown in
          decode-listed s' r.valid url res i
            (number_of-shorten (suc i) res (omega arith) (omega arith) e) p q

  -- The first url of the state has the short url of the number one.
  first-held :
      (first : Bytes)
      → get_elem? s.vec_urls 0 ≡ some first
      → find_url s.map_urls first ≡ some first_short
  first-held first at = elim (Option-cases (find_url s.map_urls first)) [
    | inl missing ↦ absurd (v.known 0 first at missing)
    | inr (res, e) ↦
        let (i, p, q, made) = v.listed first res e in
        let here : i ≡ 0 = v.distinct i 0 first q at in
        let one : shorten 1 ≡ done res = rw here at made in
        let same : done first_short ≡ done res = sym shorten_first ∙ one in cc
  ]

  -- In a valid state with 61 urls, encode gives a new url the short url that the first one has, and
  -- both keep it: decode then answers with the first url, which is another one.
  pub decode-encode-clash :
      (first : Bytes)
      → length s.vec_urls ≡ 61
      → find_url s.map_urls url ≡ none
      → get_elem? s.vec_urls 0 ≡ some first
      → Ends
          (λ (s', res).
            (find_url s.map_urls first ≡ some res)
            × (find_url s'.map_urls first ≡ some res)
            × (find_url s'.map_urls url ≡ some res)
            × (decode s' res ≡ done first)
            × (first ≢ url))
          (encode s url)
  unfolding encode
  decode-encode-clash first full fresh at =
      let size : length (s.vec_urls ++ url ∷ []) ≡ 62 =
        omega (arith, length-append s.vec_urls (url ∷ [])) in
      let grown = next-Encoded s v url first_short fresh (rw full shorten_again) in
      let next = grown.valid in
      let held = first-held first at in
      rw (fresh, encode, size)
        (
          held,
          grown.kept first first_short held,
          grown.found,
          decode-listed _ next first first_short 0
              (number_of-shorten 1 first_short (omega arith) (omega arith) shorten_first)
              (omega arith) (get_elem?-front s.vec_urls url 0 (omega arith) ∙ at),
          λ same. v.known 0 first at (rw same fresh),
        )

pub new_solution-IsValid : IsValid new_solution
unfolding find_url
new_solution-IsValid = record {
  listed = λ u r f. cc;
  known = λ i u f. cc;
  distinct = λ i j u f g. cc;
}
