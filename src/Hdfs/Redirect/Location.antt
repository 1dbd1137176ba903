-- ===== src/Hdfs/Redirect/Location.antt =====
-- The first request of a round of webhdfs_write and webhdfs_create_file: where the name node redirects.
use pungoo.Common.{
  ℕ, ◌<◌, ◌≡◌, refl, sym, Option, none, some, [], ◌∷◌, ◌++◌, arith, length, Ends, Ends-bind,
  Bool-cases, inl, inr, drop,
}
use pungoo.Common.Int.{pos, eqb_ℤ}
use pungoo.Clib.Bytes.{Bytes, IsText}
use pungoo.Clib.Bytes.Laws.{strncpy_lem, padded-nul}
use pungoo.Ghttp.{Ghttp, IsObserved, Method, Status, Reply, History}
use pungoo.Hdfs.{Webhdfs, send}
use pungoo.Hdfs.Redirect.{Located, missed, found, locate_redirect, locate_reply, locate}
use pungoo.Hdfs.Protocol.{Site, url_of, request_to, other_node, is_lost, redirect_of}
use pungoo.Hdfs.Requests.{Represents, make_url_lem, Answered, send-Answered}
use pungoo.Hdfs.Failover.{rotate-Represents, cleaned-Represents}

-- The servers redirect to texts that fit into the array of 512 bytes.
abbrev pub HasShortLocations : (History → Reply) → Type 0
HasShortLocations answer =
    (t : History) (u : Bytes) → (answer t).location ≡ some u → IsText u × (length u < 512)

module _ (g : Ghttp) (answer : History → Reply) (obs : IsObserved g answer) (site : Site)
    (fits : HasShortLocations answer) where
  -- The array and the object once the first request of a round was answered.
  abbrev pub IsLocated : ℕ → Option Bytes → History → Located g → Type 0
  IsLocated i none t (missed h) = Represents g answer obs site h (other_node i) t
  IsLocated i (some u) t (found url h) =
      (b : Bytes) × (url ≡ u ++ 0 ∷ b) × IsText u × Represents g answer obs site h i t
  IsLocated i none t (found url h) = ⊥
  IsLocated i (some u) t (missed h) = ⊥

  locate_redirect-IsLocated :
      (h : Webhdfs g.State) (i : ℕ) (t t' : History) (url : Bytes) (s : g.State) (o : Option Bytes)
      → Represents g answer obs site h i t
      → obs.sent s ≡ t'
      → length url ≡ 512
      → o ≡ (answer t').location
      → Ends (IsLocated i o t') (locate_redirect g h url s o)
  unfolding locate_redirect
  locate_redirect-IsLocated h i t t' url s none r e size at =
      rotate-Represents g answer obs site h i t t' s r e
  locate_redirect-IsLocated h i t t' url s (some u) r e size at =
      let (text, short) = fits t' u (sym at) in
      let (b, held) = padded-nul 512 u (drop 512 url) short in
      rw (strncpy_lem url u 512 (omega arith))
        (b, held, text, cleaned-Represents g answer obs site h i t t' s r e)

  locate_reply-IsLocated :
      (h : Webhdfs g.State) (i : ℕ) (t t' : History) (url : Bytes) (reply : Status × g.State)
      → Represents g answer obs site h i t
      → Answered g answer obs t' reply.0 reply.1
      → length url ≡ 512
      → Ends (IsLocated i (redirect_of (answer t')) t') (locate_reply g h url reply)
  unfolding locate_reply
  locate_reply-IsLocated h i t t' url (status, s) r a size =
      let lost_one = rotate-Represents g answer obs site h i t t' s r a.sent in
      elim (Bool-cases (is_lost (answer t').status)) [
        | inl lost ↦ rw (a.status_of, lost) lost_one
        | inr came ↦ elim (Bool-cases (eqb_ℤ (answer t').code (pos 307))) [
          | inl good ↦
              rw (a.status_of, a.code, came, good, a.location)
                (locate_redirect-IsLocated h i t t' url s (answer t').location r a.sent size refl)
          | inr bad ↦ rw (a.status_of, a.code, came, bad) lost_one
        ]
      ]

  -- The first request of a round.
  pub locate-IsLocated :
      (method : Method) (query path : Bytes) (i : ℕ) (t : History) (h : Webhdfs g.State)
      → IsText query
      → IsText path
      → Represents g answer obs site h i t
      → let t' = t ++ request_to method (url_of site path query i) [] ∷ [] in
        Ends (IsLocated i (redirect_of (answer t')) t') (locate g method query path h)
  unfolding locate
  locate-IsLocated method query path i t h q p r =
      let (b, made, size, text) = make_url_lem g answer obs site h i t path query r p q in
      let u = url_of site path query i in
      let t' = t ++ request_to method u [] ∷ [] in
      rw made (
        Ends-bind (λ (status, s). Answered g answer obs t' status s)
          (IsLocated i (redirect_of (answer t')) t') (send g (u ++ 0 ∷ b) method none h.handle_)
          (λ reply. locate_reply g h (u ++ 0 ∷ b) reply)
          (send-Answered g answer obs u b method none h.handle_ t text r.clean r.sent)
          λ reply a. locate_reply-IsLocated h i t t' (u ++ 0 ∷ b) reply r a size)
