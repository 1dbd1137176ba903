-- ===== src/Ghttp/Script.antt =====
-- An http library whose network is a given function, to run the client at concrete data.
use pungoo.Common.{◌≡◌, refl, ap, none, some, List, [], ◌∷◌, ◌++◌, length, if◌then◌else◌}
use pungoo.Clib.Bytes.{Bytes, lit, str_eq}
use pungoo.Ghttp.{Ghttp, Json, IsObserved, Request, Reply, History, blank}

pub record ScriptState : Type 0 where
  pub request : Request
  pub sent : History

module _ (answer : History → Reply) where
  abbrev pub scripted : Ghttp
  scripted = record {
    State = ScriptState;
    request_new = some (record { request = blank; sent = [] });
    set_uri = λ s u. record s { request = record s.request { uri = u } };
    set_type = λ s m. record s { request = record s.request { method = m } };
    set_header =
        λ s k v. record s { request = record s.request { headers = (k, v) ∷ s.request.headers } };
    set_body = λ s b. record s { request = record s.request { body = b } };
    prepare = λ s. s;
    process = λ s. let t = s.sent ++ s.request ∷ [] in ((answer t).status, record s { sent = t });
    status_code = λ s. (answer s.sent).code;
    get_header = λ s k. if str_eq k (lit "Location") then (answer s.sent).location else none;
    get_body = λ s. (answer s.sent).body;
    get_body_len = λ s. length (answer s.sent).body;
    get_error = λ s. (answer s.sent).error_text;
    errno = λ s. (answer s.sent).errno;
    clean = λ s. record s { request = blank };
    request_destroy = λ s. s;
  }

  pub get_header-Location :
      (s : ScriptState) → scripted.get_header s (lit "Location") ≡ (answer s.sent).location
  unfolding str_eq
  get_header-Location s = refl

  -- The library is as documented.
  abbrev pub script_laws : IsObserved scripted answer
  script_laws = record {
    view = λ s. s.request;
    sent = λ s. s.sent;
    view-set_uri = λ s u. refl;
    sent-set_uri = λ s u. refl;
    view-set_type = λ s m. refl;
    sent-set_type = λ s m. refl;
    view-set_header =
        λ s k v e. ap (λ (h : List (Bytes × Bytes)). record s.request { headers = (k, v) ∷ h }) e;
    sent-set_header = λ s k v. refl;
    view-set_body = λ s b. refl;
    sent-set_body = λ s b. refl;
    view-prepare = λ s. refl;
    sent-prepare = λ s. refl;
    sent-process = λ s. refl;
    status-process = λ s. refl;
    status_code-process = λ s. refl;
    get_header-process = λ s. get_header-Location (scripted.process s).1;
    get_body-process = λ s. refl;
    get_body_len-process = λ s. refl;
    get_error-process = λ s. refl;
    errno-process = λ s. refl;
    view-clean = λ s. refl;
    sent-clean = λ s. refl;
    sent-request_destroy = λ s. refl;
  }

-- A json library that takes a text for an object whose fields are all the text again.
abbrev pub echo_json : Json
echo_json = record { Object = Bytes; parse = λ t. some t; get = λ o k. some o; get_string = λ o. o }
