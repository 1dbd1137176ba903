-- ===== src/Problem/Tinyurl.antt =====
-- cpp/problem/tinyurl.cpp: short urls from the numbers in which the urls came. A string is its bytes.
pub mod Valid
pub mod Later
pub mod Codes
use pungoo.Common.{
  ℕ, zero, suc, ◌+◌, ◌-◌, ◌*◌, ◌/◌, ◌%◌, Bool, true, false, not, ◌&&◌, Option, none, some, leb, ltb,
  ◌==◌, if◌then◌else◌, List, [], ◌∷◌, ◌++◌, length, get_elem?, Run, done, exhausted, ◌>>=◌,
}
use pungoo.Clib.Bytes.{Bytes, lit, str_eq}
use pungoo.Disk.{or_undefined}

abbrev pub dict : Bytes
dict = lit "0123456789abcdefghijklmnopqrstuvwxyzABCDEFGHIJKLMNOPQRSTUVWXYZ"

-- size_t has 64 bits; npos is its greatest value.
abbrev pub size_mod : ℕ
size_mod = 18446744073709551616

-- dict.find(c), where `at` is the index of the first entry of the rest.
unfoldable pub find_char : Bytes → ℕ → ℕ → ℕ
find_char [] c at = size_mod - 1
find_char (d ∷ rest) c at = if d == c then at else find_char rest c (at + 1)

-- m_mapUrls.find
unfoldable pub find_url : List (Bytes × Bytes) → Bytes → Option Bytes
find_url [] url = none
find_url ((u, r) ∷ rest) url = if str_eq u url then some r else find_url rest url

pub record Solution : Type 0 where
  pub map_urls : List (Bytes × Bytes)
  pub vec_urls : List Bytes

-- Solution()
abbrev pub new_solution : Solution
new_solution = record { map_urls = []; vec_urls = [] }

-- while (id > 0)
unfoldable pub digits : ℕ → ℕ → Bytes → Run Bytes
digits zero id res = exhausted
digits (suc fuel) id res = elim (ltb 0 id) [
  | false ↦ done res
  | true ↦ or_undefined (get_elem? dict (id % length dict)) >>= λ c.
      digits fuel (id / length dict) (res ++ c ∷ [])
]

-- while (res.size() < 6)
unfoldable pub pad : ℕ → Bytes → Run Bytes
pad zero res = exhausted
pad (suc fuel) res = elim (ltb (length res) 6) [ false ↦ done res | true ↦ pad fuel (b'0' ∷ res) ]

-- The two loops of encode.
unfoldable pub shorten : ℕ → Run Bytes
unfolding digits pad
shorten id = digits (id + 1) id [] >>= λ res. pad 7 res

unfoldable pub encode : Solution → Bytes → Run (Solution × Bytes)
unfolding find_url shorten
encode s url = elim (find_url s.map_urls url) [
  | some res ↦ done (s, res)
  | none ↦ shorten (length (s.vec_urls ++ url ∷ [])) >>= λ res.
      done (record { map_urls = (url, res) ∷ s.map_urls; vec_urls = s.vec_urls ++ url ∷ [] }, res)
]

-- The loop of decode, from the index so far.
unfoldable pub number_of : Bytes → ℕ → ℕ
number_of [] idx = idx
number_of (c ∷ rest) idx = number_of rest ((idx * 62 + find_char dict c 0) % size_mod)

unfoldable pub decode : Solution → Bytes → Run Bytes
unfolding number_of find_char
decode s short_url =
    let idx = number_of short_url 0 in
    if leb idx (length s.vec_urls) && ltb 0 idx
    then or_undefined (get_elem? s.vec_urls (idx - 1))
    else done (lit "hello")

-- What the program prints: the short url and the url that it stands for.
unfoldable pub main : Run (Bytes × Bytes)
unfolding encode decode
main =
    encode new_solution (lit "https://leetcode.com/problems/design-tinyurl") >>= λ (s, short_url).
    decode s short_url >>= λ ret_url. done (short_url, ret_url)
