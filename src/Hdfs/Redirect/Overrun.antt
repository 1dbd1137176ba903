-- ===== src/Hdfs/Redirect/Overrun.antt =====
-- A redirect that does not fit into the array of webhdfs_write and webhdfs_create_file.
use Prim.Native.Nat.add
use pungoo.Common.{
  ℕ, ◌-◌, ◌<◌, ◌≤◌, ◌≡◌, refl, Bool, false, none, some, [], ◌∷◌, ◌++◌, arith, length, done,
  undefined, Ends-done, take, drop, drop_all, le→ltb, le→leb,
}
use mathlib.Core.List.{append-nil}
use pungoo.Common.Int.{ℤ, pos, pos_part}
use pungoo.Clib.Bytes.{Bytes, IsText, lit, c_str, padded}
use pungoo.Clib.Bytes.Laws.{strncpy_lem, c_str-eq-none, take-IsText}
use pungoo.Clib.Bytes.Texts.{is_text-IsText, is_text}
use pungoo.Ghttp.{Ghttp, Json, IsObserved, Method, put, post, Reply, History}
use pungoo.Hdfs.{Webhdfs, send, cleaned}
use pungoo.Hdfs.Redirect.{
  Held, found, locate, locate_reply, locate_redirect, write_round, write_at, write_named,
  webhdfs_write, create_round, create_at, webhdfs_create_file,
}
use pungoo.Hdfs.Protocol.{Site, url_of, request_to, is_lost}
use pungoo.Hdfs.Requests.{Represents, make_url_lem, Answered, send-Answered}
use pungoo.Hdfs.Redirect.Append.{is_less_one-positive}

-- strncpy of a text that has no room leaves no NUL.
c_str-padded_full :
    (u url : Bytes)
    → IsText u
    → length url ≡ 512
    → 512 ≤ length u
    → c_str (padded 512 u ++ drop 512 url) ≡ none
unfolding padded
c_str-padded_full u url t size long =
    let no_room : 512 - length u ≡ 0 = omega arith in
    rw (drop_all 512 url (omega arith), append-nil, no_room, append-nil)
      (c_str-eq-none (take 512 u) (take-IsText 512 u t))

module _ (g : Ghttp) (answer : History → Reply) (obs : IsObserved g answer) (site : Site) where
  -- The reply redirects to a text of at least 512 bytes.
  pub record RedirectsFar (r : Reply) (u : Bytes) : Type 0 where
    pub came : is_lost r.status ≡ false
    pub code : r.code ≡ pos 307
    pub location : r.location ≡ some u
    pub text : IsText u
    pub long : 512 ≤ length u

  locate-far :
      (method : Method) (query path u : Bytes) (i : ℕ) (t : History) (h : Webhdfs g.State)
      → IsText query
      → IsText path
      → Represents g answer obs site h i t
      → RedirectsFar (answer (t ++ request_to method (url_of site path query i) [] ∷ [])) u
      → (array : Bytes) × (h' : Webhdfs g.State) × (locate g method query path h
          ≡ done (found array h'))
        × (c_str array ≡ none)
  unfolding locate locate_reply locate_redirect
  locate-far method query path u i t h q p r far =
      let (b, made, size, text) = make_url_lem g answer obs site h i t path query r p q in
      let url = url_of site path query i in
      let ((status, s), sent, a) =
        Ends-done
          (λ (status, s). Answered g answer obs (t ++ request_to method url [] ∷ []) status s)
          (send g (url ++ 0 ∷ b) method none h.handle_)
          (send-Answered g answer obs url b method none h.handle_ t text r.clean r.sent) in
      (
        padded 512 u ++ drop 512 (url ++ 0 ∷ b),
        cleaned g h s,
        rw
            (
              made,
              sent,
              a.status_of,
              far.came,
              a.code,
              far.code,
              a.location,
              far.location,
              strncpy_lem (url ++ 0 ∷ b) u 512 (omega arith),
            )
            refl,
        c_str-padded_full u (url ++ 0 ∷ b) far.text size far.long,
      )

  -- When the name node in use redirects to a text of 512 bytes or more, strncpy leaves the array of
  -- webhdfs_write, or of webhdfs_create_file, without a NUL, and libghttp is handed a text that goes
  -- on behind the array: undefined behaviour, for valid arguments and whatever the servers say then.
  pub webhdfs_write-undefined :
      (j : Json) (memory : Bool) (h : Webhdfs g.State) (i : ℕ) (t : History) (m : Held)
      (path u buf : Bytes) (len : ℤ)
      → 0 < length path
      → IsText path
      → 0 < pos_part len
      → pos_part len ≤ length buf
      → Represents g answer obs site h i t
      → RedirectsFar
          (answer (t ++ request_to post (url_of site path (lit "&op=APPEND") i) [] ∷ []))
          u
      → RedirectsFar
          (answer (t ++ request_to put (url_of site path (lit "&op=CREATE") i) [] ∷ []))
          u
      → (webhdfs_write g (some h) (some path) (some buf) len ≡ undefined)
        × (webhdfs_create_file g j memory (some h) (some path) m ≡ undefined)
  unfolding webhdfs_write write_named write_round write_at webhdfs_create_file create_round
      create_at send is_text
  webhdfs_write-undefined j memory h i t m path u buf len l p some_bytes room r append create =
      let (array, h', there, no_end) =
        locate-far post (lit "&op=APPEND") path u i t h (is_text-IsText (lit "&op=APPEND") refl) p r
          append in
      let (array', h'', there', no_end') =
        locate-far put (lit "&op=CREATE") path u i t h (is_text-IsText (lit "&op=CREATE") refl) p r
          create in
      (
        rw
            (
              is_less_one-positive len some_bytes,
              there,
              add.zero (pos_part len),
              le→leb (pos_part len) (length buf) room,
              no_end,
            )
            refl,
        rw (le→ltb (length path) 1 l, there', no_end') refl,
      )
