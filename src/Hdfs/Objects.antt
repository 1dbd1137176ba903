-- ===== src/Hdfs/Objects.antt =====
-- webhdfs_t_create: which objects it makes, and which arguments it refuses.
use pungoo.Common.{
  ℕ, zero, suc, ◌<◌, ◌≤◌, ◌≡◌, ◌⊎◌, refl, Bool, not, true, false, Option, none, some, List, [], ◌∷◌,
  ◌++◌, arith, length, Run, done, ◌==◌, le→ltb, lt→ltb, inl, inr, if◌then◌else◌, get_elem?,
  replicate, lt→leb,
}
use pungoo.Common.Int.{ℤ, pos, negsuc}
use pungoo.Clib.Bytes.{Bytes, IsText, c_str, padded}
use pungoo.Clib.Bytes.Laws.{strncpy_lem, c_str-padded_nul}
use pungoo.Ghttp.{Ghttp, IsObserved, Reply, History, blank}
use pungoo.Hdfs.{
  Address, Webhdfs, webhdfs_t_create, fill_hdfs, is_address_num, is_user, no_address,
  max_user_name_len,
}
use pungoo.Hdfs.Protocol.{Site}
use pungoo.Hdfs.Requests.{Represents}

abbrev pub site_of : Bytes → ℤ → Bytes → ℤ → Bytes → Site
site_of ip0 port0 ip1 port1 user = record {
  ip = λ i. if i == 0 then ip0 else ip1;
  port = λ i. if i == 0 then port0 else port1;
  user = user;
}

-- A number of addresses or a user's name that is not accepted.
abbrev pub IsRefused : ℤ → Bytes → Type 0
IsRefused (pos n) user = (n ≡ 0) ⊎ (2 < n) ⊎ (length user ≡ 0) ⊎ (32 ≤ length user)
IsRefused (negsuc n) user = Unit

refused_test :
    (num : ℤ) (user : Bytes)
    → IsRefused num user
    → (is_address_num num ≡ false) ⊎ (is_user user ≡ false)
refused_test (negsuc n) user h = inl refl
refused_test (pos n) user (inl e) = inl (ground arith)
refused_test (pos n) user (inr (inl e)) = inl (rw (lt→leb n 2 e) refl)
refused_test (pos n) user (inr (inr (inl e))) = inr (rw e refl)
refused_test (pos n) user (inr (inr (inr e))) =
    inr (rw (le→ltb (length user) 1 (omega arith), le→ltb (length user) 32 e) refl)

-- The guards of webhdfs_t_create in front of its work.
guarded :
    {A : Type 0} (a u m : Bool) (rest : Run (Option A))
    → (a ≡ false) ⊎ (u ≡ false) ⊎ (m ≡ false) ⊎ (rest ≡ done none)
    → (if not a then done none else if not u then done none else if not m then done none else rest)
      ≡ done none
guarded false u m rest h = refl
guarded true false m rest h = refl
guarded true true false rest h = refl
guarded true true true rest (inl e) = ground arith
guarded true true true rest (inr (inl e)) = ground arith
guarded true true true rest (inr (inr (inl e))) = ground arith
guarded true true true rest (inr (inr (inr e))) = e

two_addresses :
    (a0 a1 : Address) (ip0 ip1 user : Bytes)
    → c_str a0.ip ≡ some ip0
    → c_str a1.ip ≡ some ip1
    → (k : ℕ) → k < 2
    → (a : Address) × (get_elem? (a0 ∷ a1 ∷ []) k ≡ some a)
      × (c_str a.ip ≡ some ((site_of ip0 a0.port ip1 a1.port user).ip k))
      × (a.port ≡ (site_of ip0 a0.port ip1 a1.port user).port k)
two_addresses a0 a1 ip0 ip1 user e0 e1 zero h = (a0, refl, e0, refl)
two_addresses a0 a1 ip0 ip1 user e0 e1 (suc zero) h = (a1, refl, e1, refl)
two_addresses a0 a1 ip0 ip1 user e0 e1 (suc (suc k)) h = absurd (omega arith)

module _ (g : Ghttp) where
  -- webhdfs_t_create returns null for a number of addresses other than 1 and 2, for a user's name of
  -- no or of more than 31 bytes, when malloc finds no memory and when libghttp makes no request.
  pub webhdfs_t_create-refused :
      (addr : List Address) (num : ℤ) (user : Bytes) (memory : Bool)
      → IsRefused num user ⊎ (memory ≡ false) ⊎ ◌≡◌ {A = Option g.State} g.request_new none
      → webhdfs_t_create g addr num (some user) memory ≡ done none
  unfolding webhdfs_t_create fill_hdfs
  webhdfs_t_create-refused addr num user memory h = elim h [
    | inl r ↦ elim (refused_test num user r) [
      | inl a ↦ guarded (is_address_num num) (is_user user) memory _ (inl a)
      | inr u ↦ guarded (is_address_num num) (is_user user) memory _ (inr (inl u))
    ]
    | inr (inl m) ↦ guarded (is_address_num num) (is_user user) memory _ (inr (inr (inl m)))
    | inr (inr n) ↦
        guarded (is_address_num num) (is_user user) memory _ (inr (inr (inr (rw n refl))))
  ]

  -- The object that webhdfs_t_create fills.
  abbrev new_webhdfs : List Address → Bytes → g.State → Webhdfs g.State
  new_webhdfs address user s = record {
    address_ = address;
    handle_ = s;
    index_ = 0;
    user_ = padded 31 user ++ 0 ∷ [];
  }

  module _ (answer : History → Reply) (obs : IsObserved g answer) where
    -- webhdfs_t_create with two addresses and a name of 1 to 31 bytes, when malloc finds memory and
    -- libghttp makes a request: the object stands for a client of the two nodes and the name, at the
    -- first node and with a clean request. With one address it stands for a client whose second node
    -- has the empty text for an ip and the port 0.
    pub webhdfs_t_create-Represents :
        (a0 a1 : Address) (ip0 ip1 user : Bytes) (s : g.State)
        → c_str a0.ip ≡ some ip0
        → c_str a1.ip ≡ some ip1
        → IsText user
        → 0 < length user
        → length user < 32
        → g.request_new ≡ some s
        → obs.view s ≡ blank
        → ((h : Webhdfs g.State) × (webhdfs_t_create g (a0 ∷ a1 ∷ []) (pos 2) (some user) true
              ≡ done (some h))
            × Represents g answer obs (site_of ip0 a0.port ip1 a1.port user) h 0 (obs.sent s))
          × ((h : Webhdfs g.State) × (webhdfs_t_create g (a0 ∷ []) (pos 1) (some user) true
                ≡ done (some h))
              × Represents g answer obs (site_of ip0 a0.port [] (pos 0) user) h 0 (obs.sent s))
    unfolding webhdfs_t_create fill_hdfs c_str
    webhdfs_t_create-Represents a0 a1 ip0 ip1 user s e0 e1 t l m made clean =
        let copied = strncpy_lem (replicate max_user_name_len 0) user 31 (omega arith) in
        let read = c_str-padded_nul 31 user [] t (omega arith) in
        let accepted : is_user user ≡ true =
          rw (le→ltb (length user) 1 l, lt→ltb (length user) 32 m) refl in
        (
          (
            new_webhdfs (a0 ∷ a1 ∷ []) user s,
            rw (accepted, made, copied) refl,
            record {
              index = refl;
              below = omega arith;
              address = two_addresses a0 a1 ip0 ip1 user e0 e1;
              user = read;
              clean = clean;
              sent = refl;
            },
          ),
          (
            new_webhdfs (a0 ∷ no_address ∷ []) user s,
            rw (accepted, made, copied) refl,
            record {
              index = refl;
              below = omega arith;
              address = two_addresses a0 no_address ip0 [] user e0 refl;
              user = read;
              clean = clean;
              sent = refl;
            },
          ),
        )
