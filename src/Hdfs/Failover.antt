-- ===== src/Hdfs/Failover.antt =====
-- The loop over the name nodes, and webhdfs_create_dir and webhdfs_delete_dir, against the protocol.
use pungoo.Common.{
  ℕ, zero, suc, ◌<◌, ◌≡◌, refl, ◌∙◌, ap, Option, none, some, [], ◌∷◌, ◌++◌, arith, length, Run,
  done, Ends, Ends-bind, Round, return, again, Bool-cases, inl, inr, ◌>>=◌, le→ltb,
}
use pungoo.Common.Int.{ℤ, pos, eqb_ℤ}
use pungoo.Clib.Bytes.{Bytes, IsText, lit}
use pungoo.Clib.Bytes.Texts.{is_text-IsText, is_text}
use pungoo.Ghttp.{Ghttp, IsObserved, Method, put, delete, Status, Reply, History}
use pungoo.Hdfs.{
  Webhdfs, attempts, send, rotate, cleaned, dir_branch, dir_round, webhdfs_create_dir,
  webhdfs_delete_dir, webhdfs_delete_file, max_address_num,
}
use pungoo.Hdfs.Protocol.{
  Site, url_of, request_to, other_node, failover, is_lost, dir_verdict, dir_step,
}
use pungoo.Hdfs.Requests.{Represents, make_url_lem, Answered, send-Answered}

module _ {T S : Type 0} (R : ℕ → T → S → Type 0) where
  -- A round of the code does what a step of the protocol does at node `i`.
  abbrev pub Matches : ℕ → Option ℤ × T → Round S → Type 0
  Matches i (some v, t) (return r s) = (r ≡ v) × R i t s
  Matches i (none, t) (again s) = R (other_node i) t s
  Matches i (some v, t) (again s) = ⊥
  Matches i (none, t) (return r s) = ⊥

  -- The result of the code is the verdict, and the state stands for the node and the history.
  abbrev pub IsResult : ℤ × ℕ × T → ℤ × S → Type 0
  IsResult (v, i, t) (r, s) = (r ≡ v) × R i t s

  module _ (step : ℕ → T → Option ℤ × T) (body : S → Run (Round S))
      (round_lem : (i : ℕ) (t : T) (s : S) → R i t s → Ends (Matches i (step i t)) (body s)) where
    attempts-round :
        (n i : ℕ) (t : T) (round : Round S) (rest : S → Run (ℤ × S)) (o : Option ℤ × T)
        → Matches i o round
        → ((i' : ℕ) (t' : T) (s' : S)
            → R i' t' s'
            → Ends (IsResult (failover step n i' t')) (rest s'))
        → Ends
            (IsResult
              (elim o.0 [ some v ↦ (v, i, o.1) | none ↦ failover step n (other_node i) o.1 ]))
            (elim round [ return r s' ↦ done (r, s') | again s' ↦ rest s' ])
    attempts-round n i t (return r s) rest (some v, t') m k = m
    attempts-round n i t (again s) rest (none, t') m k = k (other_node i) t' s m
    attempts-round n i t (again s) rest (some v, t') m k = absurd m
    attempts-round n i t (return r s) rest (none, t') m k = absurd m

    -- The loop of the code does what the failover of the protocol does.
    pub attempts-failover :
        (n i : ℕ) (t : T) (s : S)
        → R i t s
        → Ends (IsResult (failover step n i t)) (attempts body n s)
    attempts-failover zero i t s r = (refl, r)
    attempts-failover (suc n) i t s r =
        Ends-bind (Matches i (step i t)) _ (body s) _ (round_lem i t s r) λ round m.
          attempts-round n i t round (λ s'. attempts body n s') (step i t) m
            λ i' t' s' r'. attempts-failover n i' t' s' r'

module _ (g : Ghttp) (answer : History → Reply) (obs : IsObserved g answer) (site : Site) where
  pub rotate-Represents :
      (h : Webhdfs g.State) (i : ℕ) (t t' : History) (s : g.State)
      → Represents g answer obs site h i t
      → obs.sent s ≡ t'
      → Represents g answer obs site (rotate g h s) (other_node i) t'
  rotate-Represents h i t t' s r e = record {
    index = ap other_node r.index;
    below = omega arith;
    address = r.address;
    user = r.user;
    clean = obs.view-clean s;
    sent = obs.sent-clean s ∙ e;
  }

  pub cleaned-Represents :
      (h : Webhdfs g.State) (i : ℕ) (t t' : History) (s : g.State)
      → Represents g answer obs site h i t
      → obs.sent s ≡ t'
      → Represents g answer obs site (cleaned g h s) i t'
  cleaned-Represents h i t t' s r e = record {
    index = r.index;
    below = r.below;
    address = r.address;
    user = r.user;
    clean = obs.view-clean s;
    sent = obs.sent-clean s ∙ e;
  }

  -- The object at the end of a step.
  abbrev pub Now : ℕ → History → Webhdfs g.State → Type 0
  Now i t h = Represents g answer obs site h i t

  dir_branch-Matches :
      (h : Webhdfs g.State) (i : ℕ) (t t' : History) (reply : Status × g.State)
      → Now i t h
      → Answered g answer obs t' reply.0 reply.1
      → Matches Now i (dir_verdict (answer t'), t') (dir_branch g h reply)
  unfolding dir_branch
  dir_branch-Matches h i t t' (status, s) r a = elim (Bool-cases (is_lost (answer t').status)) [
    | inl lost ↦ rw (a.status_of, lost) (rotate-Represents h i t t' s r a.sent)
    | inr came ↦ elim (Bool-cases (eqb_ℤ (answer t').code (pos 200))) [
      | inl good ↦
          rw (a.status_of, a.code, came, good) (refl, cleaned-Represents h i t t' s r a.sent)
      | inr bad ↦ rw (a.status_of, a.code, came, bad) (rotate-Represents h i t t' s r a.sent)
    ]
  ]

  dir_round-Matches :
      (method : Method) (query path : Bytes) (i : ℕ) (t : History) (h : Webhdfs g.State)
      → IsText query
      → IsText path
      → Now i t h
      → Ends
          (Matches Now i (dir_step answer method (url_of site path query) i t))
          (dir_round g method query path h)
  unfolding dir_round
  dir_round-Matches method query path i t h q p r =
      let (b, made, size, text) = make_url_lem g answer obs site h i t path query r p q in
      let u = url_of site path query i in
      let t' = t ++ request_to method u [] ∷ [] in
      rw made (
        Ends-bind (λ (status, s). Answered g answer obs t' status s)
          (Matches Now i (dir_step answer method (url_of site path query) i t))
          (send g (u ++ 0 ∷ b) method none h.handle_) (λ reply. done (dir_branch g h reply))
          (send-Answered g answer obs u b method none h.handle_ t text r.clean r.sent)
          λ reply a. dir_branch-Matches h i t t' reply r a)

  -- What a function of the client hands back, against the protocol's verdict, node and history.
  abbrev pub IsDone : ℤ × ℕ × History → ℤ × Option (Webhdfs g.State) → Type 0
  IsDone (v, i, t) (r, none) = ⊥
  IsDone (v, i, t) (r, some h) = (r ≡ v) × Now i t h

  module _ (h : Webhdfs g.State) (i : ℕ) (t : History) (path : Bytes) (r : Now i t h)
      (p : IsText path) (named_path : 0 < length path) where
    dir_attempts-failover :
        (method : Method) (query : Bytes)
        → IsText query
        → Ends (IsDone (failover (dir_step answer method (url_of site path query)) 2 i t)) (
            attempts (dir_round g method query path) max_address_num h >>= λ (v, h').
            done (v, some h'))
    dir_attempts-failover method query q =
        let step = dir_step answer method (url_of site path query) in
        Ends-bind (IsResult Now (failover step 2 i t)) (IsDone (failover step 2 i t))
          (attempts (dir_round g method query path) max_address_num h)
          (λ (v, h'). done (v, some h'))
          (attempts-failover Now step (dir_round g method query path)
            (λ i' t' h' r'. dir_round-Matches method query path i' t' h' q p r') 2 i t h r)
          λ (v, h') m. m

    -- webhdfs_create_dir, for a path that is not empty: its requests, their order and number, its
    -- result and the node that it leaves in use are those of the protocol. MKDIRS is asked of the
    -- node in use, and of the other one if no reply comes or the reply is not 200; the result is 0
    -- if one of them says 200, else -1. It always ends, and the request is clean then.
    pub webhdfs_create_dir-failover :
        Ends
          (IsDone (failover (dir_step answer put (url_of site path (lit "&op=MKDIRS"))) 2 i t))
          (webhdfs_create_dir g (some h) (some path))
    unfolding webhdfs_create_dir is_text
    webhdfs_create_dir-failover =
        rw (le→ltb (length path) 1 named_path)
          (dir_attempts-failover put (lit "&op=MKDIRS") (is_text-IsText (lit "&op=MKDIRS") refl))

    -- webhdfs_delete_dir, and webhdfs_delete_file, which is the same, for a path that is not empty:
    -- as webhdfs_create_dir, with a recursive DELETE.
    pub webhdfs_delete_dir-failover :
        let url = url_of site path (lit "&op=DELETE&recursive=true") in
        Ends
          (IsDone (failover (dir_step answer delete url) 2 i t))
          (webhdfs_delete_dir g (some h) (some path))
        × (webhdfs_delete_file g (some h) (some path) ≡ webhdfs_delete_dir g (some h) (some path))
    unfolding webhdfs_delete_dir webhdfs_delete_file is_text
    webhdfs_delete_dir-failover = (
      rw (le→ltb (length path) 1 named_path) (
          dir_attempts-failover delete (lit "&op=DELETE&recursive=true")
            (is_text-IsText (lit "&op=DELETE&recursive=true") refl)),
      refl,
    )
