-- ===== src/Hdfs/Requests.antt =====
-- The urls and the requests that the client of webhdfs.c makes, as the protocol tells them.

use mathlib.Core.List.{append_assoc}
use pungoo.Common.{
  ℕ, ◌+◌, ◌<◌, ◌≡◌, refl, ◌∙◌, ap, Option, none, some, [], ◌∷◌, ◌++◌, arith, length, take, drop,
  replicate, get_elem?, length-append, length-take, length-drop, length-replicate, done, Ends,
}
use pungoo.Clib.Bytes.{Bytes, IsText, lit, c_str, decimal}
use pungoo.Clib.Bytes.Laws.{append-IsText, take-IsText, c_str-append, snprintf_lem}
use pungoo.Clib.Bytes.Texts.{is_text-IsText, is_text, c_str-IsText, decimal-IsText}
use pungoo.Ghttp.{Ghttp, IsObserved, Method, Status, Request, Reply, History, blank}
use pungoo.Hdfs.{Address, Webhdfs, make_url, send, with_body}
use pungoo.Hdfs.Protocol.{Site, url_of, request_to}

abbrev pub body_or_empty : Option Bytes → Bytes
body_or_empty none = []
body_or_empty (some b) = b

module _ (g : Ghttp) (answer : History → Reply) (obs : IsObserved g answer) where
  -- The object stands for a client of the site that is at node `i` and has sent `t`, and its
  -- request is clean.
  pub record Represents (site : Site) (h : Webhdfs g.State) (i : ℕ) (t : History) : Type 0 where
    pub index : h.index_ ≡ i
    pub below : i < 2
    pub address :
        (k : ℕ)
        → k < 2
        → (a : Address) × (get_elem? h.address_ k ≡ some a)
          × (c_str a.ip ≡ some (site.ip k))
          × (a.port ≡ site.port k)
    pub user : c_str h.user_ ≡ some site.user
    pub clean : obs.view h.handle_ ≡ blank
    pub sent : obs.sent h.handle_ ≡ t

  -- The url is in an array of 512 bytes with a NUL behind it.
  pub make_url_lem :
      (site : Site) (h : Webhdfs g.State) (i : ℕ) (t : History) (path query : Bytes)
      → Represents site h i t
      → IsText path
      → IsText query
      → (b : Bytes) × (make_url g h path query ≡ done (url_of site path query i ++ 0 ∷ b))
        × (length (url_of site path query i ++ 0 ∷ b) ≡ 512)
        × IsText (url_of site path query i)
  unfolding make_url url_of is_text
  make_url_lem site h i t path query r p q =
      let (a, at, ip, port) = r.address i r.below in
      let ip_text = c_str-IsText a.ip _ ip in
      let user_text = c_str-IsText h.user_ _ r.user in
      let text =
        lit "http://"
        ++ (site.ip i
            ++ (lit ":"
                ++ (decimal (site.port i)
                    ++ (lit "/webhdfs/v1"
                        ++ (path ++ (lit "?user.name=" ++ (site.user ++ query))))))) in
      let is_text_all : IsText text =
        append-IsText (lit "http://") _ (is_text-IsText (lit "http://") refl) (
          append-IsText (site.ip i) _ ip_text (
            append-IsText (lit ":") _ (is_text-IsText (lit ":") refl) (
              append-IsText (decimal (site.port i)) _ (decimal-IsText (site.port i)) (
                append-IsText (lit "/webhdfs/v1") _ (is_text-IsText (lit "/webhdfs/v1") refl) (
                  append-IsText path _ p (
                    append-IsText (lit "?user.name=") _ (is_text-IsText (lit "?user.name=") refl)
                      (append-IsText site.user query user_text q))))))) in
      let b = drop (length (take 511 text) + 1) (replicate 512 0) in
      (
        b,
        rw (r.index, at)
            (rw (ip, r.user, port)
              (rw
                (
                  snprintf_lem (replicate 512 0) text 512 (omega arith)
                      (omega (arith, length-replicate {A = ℕ} 512 0)),
                  append_assoc,
                )
                refl)),
        omega (
          arith,
          length-append {0} (take 511 text) (0 ∷ b),
          length-drop {A = ℕ} (length (take 511 text) + 1) (replicate 512 0),
          length-replicate {A = ℕ} 512 0,
          length-take {0} 511 text,
        ),
        take-IsText 511 text is_text_all,
      )

  -- What libghttp holds once the last request of `t` was sent.
  pub record Answered (t : History) (status : Status) (s : g.State) : Type 0 where
    pub status_of : status ≡ (answer t).status
    pub code : g.status_code s ≡ (answer t).code
    pub location : g.get_header s (lit "Location") ≡ (answer t).location
    pub body : g.get_body s ≡ (answer t).body
    pub body_len : g.get_body_len s ≡ length (answer t).body
    pub error_text : g.get_error s ≡ (answer t).error_text
    pub errno : g.errno s ≡ (answer t).errno
    pub sent : obs.sent s ≡ t

  process-Answered :
      (s : g.State) (t : History)
      → obs.sent s ++ obs.view s ∷ [] ≡ t
      → Answered t (g.process s).0 (g.process s).1
  process-Answered s t e = record {
    status_of = obs.status-process s ∙ rw e;
    code = obs.status_code-process s ∙ rw e;
    location = obs.get_header-process s ∙ rw e;
    body = obs.get_body-process s ∙ rw e;
    body_len = obs.get_body_len-process s ∙ rw e;
    error_text = obs.get_error-process s ∙ rw e;
    errno = obs.errno-process s ∙ rw e;
    sent = obs.sent-process s ∙ e;
  }

  view-with_body :
      (body : Option Bytes) (s : g.State)
      → (obs.view s).body ≡ []
      → (obs.view (with_body g body s) ≡ record (obs.view s) { body = body_or_empty body })
        × (obs.sent (with_body g body s) ≡ obs.sent s)
  view-with_body none s e = (ap (λ b. record (obs.view s) { body = b }) e, refl)
  view-with_body (some b) s e = (obs.view-set_body s b, obs.sent-set_body s b)

  pub send-Answered :
      (u b : Bytes) (method : Method) (body : Option Bytes) (s : g.State) (t : History)
      → IsText u
      → obs.view s ≡ blank
      → obs.sent s ≡ t
      → Ends
          (λ (status, s'). Answered (t ++ request_to method u (body_or_empty body) ∷ []) status s')
          (send g (u ++ 0 ∷ b) method body s)
  unfolding send
  send-Answered u b method body s t h v e =
      let s1 = g.set_uri s u in
      let s2 = g.set_type s1 method in
      let s3 = g.set_header s2 (lit "Timeout") (lit "10") in
      let s4 = with_body g body s3 in
      let v1 = obs.view-set_uri s u ∙ ap (λ (r : Request). record r { uri = u }) v in
      let v2 =
        obs.view-set_type s1 method ∙ ap (λ (r : Request). record r { method = method }) v1 in
      let v3 =
        obs.view-set_header s2 (lit "Timeout") (lit "10") (ap (λ (r : Request). r.headers) v2)
        ∙ ap (λ (r : Request). record r { headers = (lit "Timeout", lit "10") ∷ [] }) v2 in
      let with_it = view-with_body body s3 (ap (λ (r : Request). r.body) v3) in
      let v4 = with_it.0 ∙ ap (λ (r : Request). record r { body = body_or_empty body }) v3 in
      let e4 =
        with_it.1
        ∙ (obs.sent-set_header s2 (lit "Timeout") (lit "10")
            ∙ (obs.sent-set_type s1 method ∙ (obs.sent-set_uri s u ∙ e))) in
      rw (c_str-append u b h) (
        process-Answered (g.prepare s4) _ (
          ap (λ x. x ++ obs.view (g.prepare s4) ∷ []) (obs.sent-prepare s4 ∙ e4)
          ∙ ap (λ r. t ++ r ∷ []) (obs.view-prepare s4 ∙ v4)))
