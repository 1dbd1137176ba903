-- ===== src/Hdfs/Redirect/Append.antt =====
-- webhdfs_write against the protocol.
use Prim.Native.Nat.add
use pungoo.Common.{
  le→leb, ℕ, ◌&&◌, ◌<◌, ◌≤◌, ◌≡◌, refl, false, Option, none, some, [], ◌∷◌, ◌++◌, arith, length,
  done, Ends, Ends-bind, Bool-cases, inl, inr, ◌==◌, take,
}
use pungoo.Common.Int.{ℤ, pos, negsuc, eqb_ℤ, pos_part, is_less_one}
use pungoo.Clib.Bytes.{Bytes, IsText, lit, str_eq}
use pungoo.Clib.Bytes.Texts.{is_text-IsText, is_text}
use pungoo.Ghttp.{Ghttp, IsObserved, post, Status, Reply, History}
use pungoo.Hdfs.{Webhdfs, attempts, send, max_address_num}
use pungoo.Hdfs.Redirect.{
  Located, missed, found, locate, write_reply, write_at, write_round, webhdfs_write, write_named,
}
use pungoo.Hdfs.Protocol.{
  Site, url_of, request_to, failover, is_lost, redirect_of, append_verdict, append_step, redirected,
  follow_append,
}
use pungoo.Hdfs.Requests.{Represents, Answered, send-Answered}
use pungoo.Hdfs.Failover.{Matches, IsResult, attempts-failover, cleaned-Represents, Now, IsDone}
use pungoo.Hdfs.Redirect.Location.{HasShortLocations, IsLocated, locate-IsLocated}

pub is_less_one-positive : (len : ℤ) → 0 < pos_part len → is_less_one len ≡ false
is_less_one-positive (pos n) h = ground arith
is_less_one-positive (negsuc n) h = absurd (omega arith)

module _ (g : Ghttp) (answer : History → Reply) (obs : IsObserved g answer) (site : Site)
    (fits : HasShortLocations answer) where
  module _ (buf : Bytes) (len : ℤ) where
    -- The bytes that are sent.
    abbrev pub payload : Bytes
    payload = take (pos_part len) buf

    write_reply-Matches :
        (h : Webhdfs g.State) (i : ℕ) (t t' : History) (reply : Status × g.State)
        → Represents g answer obs site h i t
        → Answered g answer obs t' reply.0 reply.1
        → Matches
            (Now g answer obs site)
            i
            (some (append_verdict len (answer t')), t')
            (write_reply g h len reply)
    unfolding write_reply
    write_reply-Matches h i t t' (status, s) r a =
        let ends = cleaned-Represents g answer obs site h i t t' s r a.sent in
        elim (Bool-cases (is_lost (answer t').status)) [
          | inl lost ↦
              elim (Bool-cases (
                ((answer t').errno == 11)
                && str_eq (answer t').error_text (lit "Unknown Error."))) [
                  | inl good ↦ rw (a.status_of, lost, a.errno, a.error_text, good) (refl, ends)
                  | inr bad ↦ rw (a.status_of, lost, a.errno, a.error_text, bad) (refl, ends)
                ]
          | inr came ↦ elim (Bool-cases (eqb_ℤ (answer t').code (pos 200))) [
            | inl good ↦ rw (a.status_of, a.code, came, good) (refl, ends)
            | inr bad ↦ rw (a.status_of, a.code, came, bad) (refl, ends)
          ]
        ]

    write_at-Matches :
        (o : Option Bytes) (i : ℕ) (t : History) (located : Located g) (url : ℕ → Bytes)
        → pos_part len ≤ length buf
        → IsLocated g answer obs site fits i o t located
        → Ends
            (Matches (Now g answer obs site) i (follow_append answer post payload url len o t))
            (write_at g buf len located)
    unfolding write_at
    write_at-Matches none i t (missed h) url room l = l
    write_at-Matches none i t (found u h) url room l = absurd l
    write_at-Matches (some u) i t (missed h) url room l = absurd l
    write_at-Matches (some u) i t (found array h) url room (b, held, text, r) =
        let t' = redirected answer post payload url t u in
        rw (held, add.zero (pos_part len), le→leb _ _ room)
          (Ends-bind (λ (status, s). Answered g answer obs t' status s)
            (Matches (Now g answer obs site) i (some (append_verdict len (answer t')), t'))
            (send g (u ++ 0 ∷ b) post (some payload) h.handle_)
            (λ reply. done (write_reply g h len reply))
            (send-Answered g answer obs u b post (some payload) h.handle_ t text r.clean r.sent)
            λ reply a. write_reply-Matches h i t t' reply r a)

    write_round-Matches :
        (path : Bytes) (i : ℕ) (t : History) (h : Webhdfs g.State)
        → pos_part len ≤ length buf
        → IsText path
        → Represents g answer obs site h i t
        → let url = url_of site path (lit "&op=APPEND") in
          Ends
            (Matches (Now g answer obs site) i (append_step answer post payload url len i t))
            (write_round g buf len path h)
    unfolding write_round is_text
    write_round-Matches path i t h room p r =
        let url = url_of site path (lit "&op=APPEND") in
        let t' = t ++ request_to post (url i) [] ∷ [] in
        Ends-bind (IsLocated g answer obs site fits i (redirect_of (answer t')) t')
          (Matches (Now g answer obs site) i (append_step answer post payload url len i t))
          (locate g post (lit "&op=APPEND") path h) (write_at g buf len)
          (locate-IsLocated g answer obs site fits post (lit "&op=APPEND") path i t h
            (is_text-IsText (lit "&op=APPEND") refl) p r)
          λ located l. write_at-Matches (redirect_of (answer t')) i t' located url room l

    -- webhdfs_write, for a name that is not null and an array of at least `len` bytes, `len` above 0:
    -- its requests, their order and number, its result and the node that it leaves in use are those
    -- of the protocol. APPEND is asked of the node in use, and of the other one if there is no
    -- redirect. The `len` bytes go to the address of the first redirect, once; the result is `len`
    -- if that says 200, or is lost in the way that counts as success, else -1. It always ends, with
    -- no access out of bounds, and the request is clean then. The servers redirect to texts of less
    -- than 512 bytes.
    pub webhdfs_write-failover :
        (h : Webhdfs g.State) (i : ℕ) (t : History) (path : Bytes)
        → 0 < pos_part len
        → pos_part len ≤ length buf
        → IsText path
        → Represents g answer obs site h i t
        → Ends
            (IsDone g answer obs site (
              failover
                (append_step answer post payload (url_of site path (lit "&op=APPEND")) len)
                2
                i
                t))
            (webhdfs_write g (some h) (some path) (some buf) len)
    unfolding webhdfs_write write_named
    webhdfs_write-failover h i t path some_bytes room p r =
        let step = append_step answer post payload (url_of site path (lit "&op=APPEND")) len in
        rw (is_less_one-positive len some_bytes) (
          Ends-bind (IsResult (Now g answer obs site) (failover step 2 i t))
            (IsDone g answer obs site (failover step 2 i t))
            (attempts (write_round g buf len path) max_address_num h) (λ (v, h'). done (v, some h'))
            (attempts-failover (Now g answer obs site) step (write_round g buf len path)
              (λ i' t' h' r'. write_round-Matches path i' t' h' room p r') 2 i t h r)
            λ (v, h') m. m)
