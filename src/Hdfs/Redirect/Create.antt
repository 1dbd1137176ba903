-- ===== src/Hdfs/Redirect/Create.antt =====
-- webhdfs_create_file against the protocol, with the memory that it leaves held.

use pungoo.Common.{
  ℕ, ◌<◌, ◌≡◌, refl, Bool, true, false, Option, none, some, [], ◌∷◌, ◌++◌, arith, length, done,
  Ends, Ends-bind, Bool-cases, inl, inr, le→ltb, if◌then◌else◌,
}
use pungoo.Common.Int.{ℤ, pos, minus_one, eqb_ℤ}
use pungoo.Clib.Bytes.{Bytes, IsText, lit}
use pungoo.Clib.Bytes.Texts.{is_text-IsText, is_text}
use pungoo.Ghttp.{Ghttp, Json, IsObserved, put, Status, Reply, History}
use pungoo.Hdfs.{Webhdfs, attempts, send, max_address_num}
use pungoo.Hdfs.Redirect.{
  Held, Creating, Located, missed, found, locate, created, create_reply, create_at, create_round,
  webhdfs_create_file,
}
use pungoo.Hdfs.Protocol.{
  Site, url_of, request_to, failover, is_lost, redirect_of, redirected, is_existing, create_verdict,
  held_after, follow_create, create_step,
}
use pungoo.Hdfs.Requests.{Represents, Answered, send-Answered}
use pungoo.Hdfs.Failover.{Matches, IsResult, attempts-failover, cleaned-Represents}
use pungoo.Hdfs.Redirect.Location.{HasShortLocations, IsLocated, locate-IsLocated}
use pungoo.Hdfs.Redirect.Exists.{apart, exists_already_lem, lost-is_existing, other-is_existing}

module _ (g : Ghttp) (j : Json) (answer : History → Reply) (obs : IsObserved g answer) (site : Site)
    (fits : HasShortLocations answer) where
  -- The object and the memory in the loop, at a node, after these requests.
  abbrev pub InLoop : ℕ → History × Held → Creating g → Type 0
  InLoop i (t, m) c = Represents g answer obs site c.hdfs i t × (c.held ≡ m)

  created-Matches :
      (c : Creating g) (i : ℕ) (t t' : History) (s : g.State) (b : Bool) (m : Held)
      → Represents g answer obs site c.hdfs i t
      → obs.sent s ≡ t'
      → Matches InLoop i (some (if b then pos 0 else minus_one), (t', m)) (created g j c s (b, m))
  created-Matches c i t t' s true m r e =
      (refl, (cleaned-Represents g answer obs site c.hdfs i t t' s r e, refl))
  created-Matches c i t t' s false m r e =
      (refl, (cleaned-Represents g answer obs site c.hdfs i t t' s r e, refl))

  create_reply-Matches :
      (memory : Bool) (c : Creating g) (i : ℕ) (t t' : History) (reply : Status × g.State)
      → Represents g answer obs site c.hdfs i t
      → Answered g answer obs t' reply.0 reply.1
      → Ends
          (Matches InLoop i (
            some (create_verdict j memory (answer t')),
            (t', held_after j memory (answer t') c.held),
          ))
          (create_reply g j memory c reply)
  unfolding create_reply
  create_reply-Matches memory c i t t' (status, s) r a =
      elim (Bool-cases (is_lost (answer t').status)) [
        | inl lost ↦
            rw (a.status_of, lost, lost-is_existing g j answer obs memory (answer t') lost)
              (created-Matches c i t t' s false c.held r a.sent)
        | inr came ↦ elim (Bool-cases (eqb_ℤ (answer t').code (pos 201))) [
          | inl good ↦
              rw
                (
                  a.status_of,
                  a.code,
                  came,
                  good,
                  other-is_existing g j answer obs memory (answer t')
                      (apart (answer t').code 201 403 good (omega arith)),
                )
                (created-Matches c i t t' s true c.held r a.sent)
          | inr bad ↦ elim (Bool-cases (eqb_ℤ (answer t').code (pos 403))) [
            | inl there ↦
                rw
                  (
                    a.status_of,
                    a.code,
                    came,
                    bad,
                    there,
                    exists_already_lem g j answer obs memory t' status s c.held a there came,
                  )
                  (created-Matches c i t t' s (is_existing j memory (answer t'))
                    (held_after j memory (answer t') c.held) r a.sent)
            | inr other ↦
                rw
                  (
                    a.status_of,
                    a.code,
                    came,
                    bad,
                    other,
                    other-is_existing g j answer obs memory (answer t') other,
                  )
                  (created-Matches c i t t' s false c.held r a.sent)
          ]
        ]
      ]

  create_at-Matches :
      (memory : Bool) (o : Option Bytes) (i : ℕ) (t : History) (m : Held) (located : Located g)
      (url : ℕ → Bytes)
      → IsLocated g answer obs site fits i o t located
      → Ends
          (Matches InLoop i (follow_create answer put [] url j memory o (t, m)))
          (create_at g j memory m located)
  unfolding create_at
  create_at-Matches memory none i t m (missed h) url l = (l, refl)
  create_at-Matches memory none i t m (found u h) url l = absurd l
  create_at-Matches memory (some u) i t m (missed h) url l = absurd l
  create_at-Matches memory (some u) i t m (found array h) url (b, held, text, r) =
      let t' = redirected answer put [] url t u in
      let c : Creating g = record { hdfs = h; held = m } in
      rw held (
        Ends-bind (λ (status, s). Answered g answer obs t' status s)
          (Matches InLoop i
            (some (create_verdict j memory (answer t')), (t', held_after j memory (answer t') m)))
          (send g (u ++ 0 ∷ b) put none h.handle_) (create_reply g j memory c)
          (send-Answered g answer obs u b put none h.handle_ t text r.clean r.sent)
          λ reply a. create_reply-Matches memory c i t t' reply r a)

  create_round-Matches :
      (memory : Bool) (path : Bytes) (i : ℕ) (t : History × Held) (c : Creating g)
      → IsText path
      → InLoop i t c
      → let url = url_of site path (lit "&op=CREATE") in
        Ends
          (Matches InLoop i (create_step answer put [] url j memory i t))
          (create_round g j memory path c)
  unfolding create_round is_text
  create_round-Matches memory path i (t, m) c p (r, e) =
      let url = url_of site path (lit "&op=CREATE") in
      let t' = t ++ request_to put (url i) [] ∷ [] in
      rw e (
        Ends-bind (IsLocated g answer obs site fits i (redirect_of (answer t')) t')
          (Matches InLoop i (create_step answer put [] url j memory i (t, m)))
          (locate g put (lit "&op=CREATE") path c.hdfs) (create_at g j memory m)
          (locate-IsLocated g answer obs site fits put (lit "&op=CREATE") path i t c.hdfs
            (is_text-IsText (lit "&op=CREATE") refl) p r)
          λ located l. create_at-Matches memory (redirect_of (answer t')) i t' m located url l)

  -- What webhdfs_create_file hands back, against the protocol.
  abbrev pub IsCreated : ℤ × ℕ × (History × Held) → ℤ × Option (Webhdfs g.State) × Held → Type 0
  IsCreated (v, i, (t, m)) (r, none, m') = ⊥
  IsCreated (v, i, (t, m)) (r, some h, m') =
      (r ≡ v) × (Represents g answer obs site h i t × (m' ≡ m))

  -- webhdfs_create_file, for a name that is not empty: its requests, their order and number, its
  -- result, the node that it leaves in use and the memory that it leaves held are those of the
  -- protocol. CREATE is asked of the node in use, and of the other one if there is no redirect;
  -- then of the address of the first redirect, once. The result is 0 if that says 201, or 403
  -- with a json exception FileAlreadyExistsException (which is read if malloc finds memory), else
  -- -1; in the latter case of 0, and in no other, a block and a json object stay held. It always
  -- ends, and the request is clean then. The servers redirect to texts of less than 512 bytes.
  pub webhdfs_create_file-failover :
      (memory : Bool) (h : Webhdfs g.State) (i : ℕ) (t : History) (m : Held) (path : Bytes)
      → 0 < length path
      → IsText path
      → Represents g answer obs site h i t
      → Ends
          (IsCreated (
            failover
              (create_step answer put [] (url_of site path (lit "&op=CREATE")) j memory)
              2
              i
              (t, m)))
          (webhdfs_create_file g j memory (some h) (some path) m)
  unfolding webhdfs_create_file
  webhdfs_create_file-failover memory h i t m path some_bytes p r =
      let step = create_step answer put [] (url_of site path (lit "&op=CREATE")) j memory in
      rw (le→ltb (length path) 1 some_bytes) (
        Ends-bind (IsResult InLoop (failover step 2 i (t, m)))
          (IsCreated (failover step 2 i (t, m)))
          (attempts (create_round g j memory path) max_address_num (record { hdfs = h; held = m }))
          (λ (v, c). done (v, some c.hdfs, c.held))
          (attempts-failover InLoop step (create_round g j memory path)
            (λ i' t' c r'. create_round-Matches memory path i' t' c p r') 2 i (t, m) _ (r, refl))
          λ (v, c) q. q)
