-- ===== src/Hdfs/Redirect/Once.antt =====
-- How often webhdfs_write sends the bytes, and how many requests it makes.
use pungoo.Common.{
  ℕ, zero, suc, ◌+◌, ◌<◌, ◌≤◌, ◌≡◌, ap, ◌∙◌, ◌⊎◌, inl, inr, refl, Option, none, some, [], ◌∷◌, ◌++◌,
  arith, length, length-append, Ends, Ends-weaken, length-take,
}
use pungoo.Common.Int.{ℤ, minus_one, pos_part}
use pungoo.Clib.Bytes.{Bytes, IsText, lit}
use pungoo.Ghttp.{Ghttp, IsObserved, post, Request, Reply, History}
use pungoo.Hdfs.{Webhdfs}
use pungoo.Hdfs.Redirect.{webhdfs_write}
use pungoo.Hdfs.Protocol.{
  Site, url_of, request_to, failover, follow_append, append_step, redirect_of, other_node,
}
use pungoo.Hdfs.Requests.{Represents}
use pungoo.Hdfs.Failover.{IsDone}
use pungoo.Hdfs.Redirect.Location.{HasShortLocations}
use pungoo.Hdfs.Redirect.Append.{payload, webhdfs_write-failover}

abbrev has_body : Bytes → ℕ
has_body [] = 0
has_body (c ∷ b) = 1

-- The requests of a history that carry bytes.
abbrev pub writes : History → ℕ
writes [] = 0
writes (r ∷ t) = has_body r.body + writes t

writes-append : (t u : History) → writes (t ++ u) ≡ writes t + writes u
writes-append [] u = omega arith
writes-append (r ∷ t) u = omega (arith, writes-append t u)

has_body-positive : (b : Bytes) → 0 < length b → has_body b ≡ 1
has_body-positive [] h = omega arith
has_body-positive (c ∷ b) h = refl

one_more :
    (t : History) (r : Request)
    → (length (t ++ r ∷ []) ≡ length t + 1) × (writes (t ++ r ∷ []) ≡ writes t + has_body r.body)
one_more t r =
    (omega (arith, length-append {0} t (r ∷ [])), omega (arith, writes-append t (r ∷ [])))

-- After at most `n` rounds from `t` on: at most n + 1 requests, and the bytes were sent once, or
-- the verdict is -1 and they were not sent at all.
abbrev pub SentOnce : ℕ → History → ℤ × ℕ × History → Type 0
SentOnce n t (v, i, t') =
    (length t' ≤ length t + n + 1)
    × ((writes t' ≡ writes t + 1) ⊎ ((v ≡ minus_one) × (writes t' ≡ writes t)))

module _ (answer : History → Reply) (body : Bytes) (some_bytes : 0 < length body) (url : ℕ → Bytes)
    (len : ℤ) where
  followed-SentOnce :
      (n i : ℕ) (t asked : History) (r : Request) (o : Option Bytes)
      → r.body ≡ []
      → asked ≡ t ++ r ∷ []
      → SentOnce n asked (failover (append_step answer post body url len) n (other_node i) asked)
      → SentOnce (suc n) t (elim (follow_append answer post body url len o asked).0 [
        | some v ↦ (v, i, (follow_append answer post body url len o asked).1)
        | none ↦
            failover
              (append_step answer post body url len)
              n
              (other_node i)
              (follow_append answer post body url len o asked).1
      ])
  followed-SentOnce n i t asked r none e a (size, count) =
      let (longer, same) = one_more t r in
      let one : length asked ≡ length t + 1 = ap length a ∙ longer in
      let none_sent : writes asked ≡ writes t = ap writes a ∙ (same ∙ rw e (omega arith)) in
      (omega (arith, one, size), rw (← none_sent) count)
  followed-SentOnce n i t asked r (some u) e a rest =
      let (longer, same) = one_more t r in
      let one : length asked ≡ length t + 1 = ap length a ∙ longer in
      let none_sent : writes asked ≡ writes t = ap writes a ∙ (same ∙ rw e (omega arith)) in
      let (longer', more) = one_more asked (request_to post u body) in
      let sent = has_body-positive body some_bytes in
      (omega (arith, one, longer'), inl (omega (arith, none_sent, more, sent)))

  failover-SentOnce :
      (n i : ℕ) (t : History) → SentOnce n t (failover (append_step answer post body url len) n i t)
  failover-SentOnce zero i t = (omega arith, inr (refl, refl))
  failover-SentOnce (suc n) i t =
      let asked = t ++ request_to post (url i) [] ∷ [] in
      followed-SentOnce n i t asked (request_to post (url i) []) (redirect_of (answer asked)) refl
        refl (failover-SentOnce n (other_node i) asked)

module _ (g : Ghttp) (answer : History → Reply) (obs : IsObserved g answer) (site : Site)
    (fits : HasShortLocations answer) where
  abbrev pub IsSentOnce : History → ℤ × Option (Webhdfs g.State) → Type 0
  IsSentOnce t (r, none) = ⊥
  IsSentOnce t (r, some h) = SentOnce 2 t (r, h.index_, obs.sent h.handle_)

  -- webhdfs_write, for a name that is not null and an array of at least `len` bytes, `len` above 0,
  -- when the servers redirect to texts of less than 512 bytes: it makes three requests at most, and
  -- either exactly one of them carries bytes, whatever its outcome, or none does and the result is
  -- -1. So the bytes are never sent twice, and a result of `len` is never returned without them.
  pub webhdfs_write-SentOnce :
      (buf : Bytes) (len : ℤ) (h : Webhdfs g.State) (i : ℕ) (t : History) (path : Bytes)
      → 0 < pos_part len
      → pos_part len ≤ length buf
      → IsText path
      → Represents g answer obs site h i t
      → Ends (IsSentOnce t) (webhdfs_write g (some h) (some path) (some buf) len)
  webhdfs_write-SentOnce buf len h i t path some_bytes room p r =
      let url = url_of site path (lit "&op=APPEND") in
      let body = payload g answer obs site fits buf len in
      let once =
        failover-SentOnce answer body (omega (arith, length-take {0} (pos_part len) buf)) url len 2
          i t in
      Ends-weaken (IsDone g answer obs site (failover (append_step answer post body url len) 2 i t))
        (IsSentOnce t) _
        (webhdfs_write-failover g answer obs site fits buf len h i t path some_bytes room p r)
        (sent_by (failover (append_step answer post body url len) 2 i t) once)
    where
      sent_by :
          (x : ℤ × ℕ × History)
          → SentOnce 2 t x
          → (o : ℤ × Option (Webhdfs g.State)) → IsDone g answer obs site x o
          → IsSentOnce t o
      sent_by (v, i', t') once (v', none) d = absurd d
      sent_by (v, i', t') once (v', some h') (e, r') = rw (e, r'.sent) once
