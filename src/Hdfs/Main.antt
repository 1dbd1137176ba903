-- ===== src/Hdfs/Main.antt =====
-- c/hdfs_test/main.c: a client of two name nodes makes one file.
use pungoo.Common.{
  ℕ, ◌≡◌, ◌∙◌, refl, Bool, true, Option, none, some, [], ◌∷◌, ◌++◌, arith, Run, done, Ends,
  Ends-bind, ◌>>=◌,
}
use pungoo.Common.Int.{ℤ, pos, minus_one}
use pungoo.Clib.Bytes.{Bytes, IsText, lit, padded}
use pungoo.Clib.Bytes.Laws.{c_str-padded}
use pungoo.Clib.Bytes.Texts.{is_text-IsText, is_text}
use pungoo.Ghttp.{Ghttp, Json, IsObserved, put, Reply, History, blank}
use pungoo.Hdfs.{Address, Webhdfs, webhdfs_t_create, webhdfs_t_destroy}
use pungoo.Hdfs.Redirect.{Held, webhdfs_create_file}
use pungoo.Hdfs.Protocol.{Site, url_of, failover, create_step}
use pungoo.Hdfs.Objects.{site_of, webhdfs_t_create-Represents}
use pungoo.Hdfs.Redirect.Location.{HasShortLocations}
use pungoo.Hdfs.Redirect.Create.{IsCreated, webhdfs_create_file-failover}

-- An address of main: strncpy fills 15 of the 16 bytes, and the last one is what was there.
abbrev address_of : Bytes → ℕ → Address
address_of ip old = record { ip = padded 15 ip ++ old ∷ []; port = pos 50070 }

module _ (g : Ghttp) (j : Json) where
  -- The end of main: the object is destroyed, whatever create_file has said.
  abbrev finish : ℤ × Option (Webhdfs g.State) × Held → Run (ℤ × Option g.State × Held)
  finish (r, h, m) = done (pos 0, (webhdfs_t_destroy g h).1, m)

  main_with : Bool → Option (Webhdfs g.State) → Held → Run (ℤ × Option g.State × Held)
  unfolding webhdfs_create_file webhdfs_t_destroy
  main_with memory none m = done (minus_one, none, m)
  main_with memory (some h) m =
      webhdfs_create_file g j memory (some h) (some (lit "/hello_world")) m >>= finish

  -- main: its result, what is behind the request, and the memory held. The arguments are whether the
  -- two mallocs find memory and the old last bytes of the two addresses.
  unfoldable pub hdfs_main : Bool → Bool → ℕ → ℕ → Held → Run (ℤ × Option g.State × Held)
  unfolding main_with webhdfs_t_create
  hdfs_main memory memory' old0 old1 m =
      webhdfs_t_create g
        (address_of (lit "10.80.5.21") old0 ∷ address_of (lit "10.80.5.22") old1 ∷ []) (pos 2)
        (some (lit "hdfs")) memory
      >>= λ h. main_with memory' h m

  module _ (answer : History → Reply) (obs : IsObserved g answer)
      (fits : HasShortLocations answer) where
    -- The site that main's client is for.
    abbrev pub main_site : Site
    main_site = site_of (lit "10.80.5.21") (pos 50070) (lit "10.80.5.22") (pos 50070) (lit "hdfs")

    -- main returns 0, and has sent and holds what the protocol says.
    abbrev pub IsMain : ℤ × ℕ × (History × Held) → ℤ × Option g.State × Held → Type 0
    IsMain (v, i, (t, m)) (r, none, m') = ⊥
    IsMain (v, i, (t, m)) (r, some s, m') = (r ≡ pos 0) × (obs.sent s ≡ t) × (m' ≡ m)

    finished :
        (x : ℤ × ℕ × (History × Held)) (y : ℤ × Option (Webhdfs g.State) × Held)
        → IsCreated g j answer obs main_site fits x y
        → Ends (IsMain x) (finish y)
    unfolding webhdfs_t_destroy
    finished (v, i, (t, m)) (r, none, m') c = absurd c
    finished (v, i, (t, m)) (r, some h, m') (e, (now, held)) = (
      refl,
      obs.sent-request_destroy (g.clean h.handle_) ∙ (obs.sent-clean h.handle_ ∙ now.sent),
      held,
    )

    -- main of c/hdfs_test/main.c, when malloc finds memory for the object and libghttp makes a
    -- request, ends and returns 0, whether the file is created or not. Its requests, their order and
    -- number, and the memory that it leaves held are those of the protocol for the path /hello_world
    -- at the name nodes 10.80.5.21 and 10.80.5.22, from the first one on, whatever the arrays held
    -- before. The servers redirect to texts of less than 512 bytes.
    pub hdfs_main-failover :
        (memory' : Bool) (old0 old1 : ℕ) (m : Held) (s : g.State)
        → g.request_new ≡ some s
        → obs.view s ≡ blank
        → Ends
            (IsMain (
              failover
                (create_step answer put []
                  (url_of main_site (lit "/hello_world") (lit "&op=CREATE"))
                  j
                  memory')
                2
                0
                (obs.sent s, m)))
            (hdfs_main true memory' old0 old1 m)
    unfolding hdfs_main main_with is_text
    hdfs_main-failover memory' old0 old1 m s made clean =
        let text0 : IsText (lit "10.80.5.21") = is_text-IsText (lit "10.80.5.21") refl in
        let text1 : IsText (lit "10.80.5.22") = is_text-IsText (lit "10.80.5.22") refl in
        let user : IsText (lit "hdfs") = is_text-IsText (lit "hdfs") refl in
        let path : IsText (lit "/hello_world") = is_text-IsText (lit "/hello_world") refl in
        let a0 = address_of (lit "10.80.5.21") old0 in
        let a1 = address_of (lit "10.80.5.22") old1 in
        let (h, created, now) =
          (webhdfs_t_create-Represents g answer obs a0 a1 (lit "10.80.5.21") (lit "10.80.5.22")
            (lit "hdfs") s (c_str-padded 15 (lit "10.80.5.21") (old0 ∷ []) text0 (omega arith))
            (c_str-padded 15 (lit "10.80.5.22") (old1 ∷ []) text1 (omega arith)) user (omega arith)
            (omega arith) made clean).0 in
        let x =
          failover
            (create_step answer put [] (url_of main_site (lit "/hello_world") (lit "&op=CREATE")) j
              memory')
            2 0 (obs.sent s, m) in
        rw created (
          Ends-bind (IsCreated g j answer obs main_site fits x) (IsMain x)
            (webhdfs_create_file g j memory' (some h) (some (lit "/hello_world")) m) finish
            (webhdfs_create_file-failover g j answer obs main_site fits memory' h 0 (obs.sent s) m
              (lit "/hello_world") (omega arith) path now)
            λ y c. finished x y c)
