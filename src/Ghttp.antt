-- ===== src/Ghttp.antt =====
-- The third-party libraries that webhdfs.c calls: libghttp (c/hdfs_test/include/ghttp/ghttp.h) and
-- json-c. They are parameters: their operations, and the documented behaviour of libghttp as laws.
pub mod Script
use pungoo.Common.{ℕ, ◌≡◌, Option, List, [], ◌∷◌, ◌++◌, length}
use pungoo.Common.Int.{ℤ}
use pungoo.Clib.Bytes.{Bytes, lit}

-- ghttp_type and ghttp_status, as far as they are used.
pub data Method : Type 0 where
  get put post delete : Method

pub data Status : Type 0 where
  error not_done finished : Status

-- A ghttp_request, with the network and errno behind it.
pub record Ghttp : Type 1 where
  pub State : Type 0
  pub request_new : Option State
  pub set_uri : State → Bytes → State
  pub set_type : State → Method → State
  pub set_header : State → Bytes → Bytes → State
  pub set_body : State → Bytes → State
  pub prepare : State → State
  pub process : State → Status × State
  pub status_code : State → ℤ
  pub get_header : State → Bytes → Option Bytes
  pub get_body : State → Bytes
  pub get_body_len : State → ℕ
  pub get_error : State → Bytes
  pub errno : State → ℕ
  pub clean : State → State
  pub request_destroy : State → State

-- json_tokener_parse, json_object_object_get_ex and json_object_get_string.
pub record Json : Type 1 where
  pub Object : Type 0
  pub parse : Bytes → Option Object
  pub get : Object → Bytes → Option Object
  pub get_string : Object → Bytes

-- A request that is being put together.
pub record Request : Type 0 where
  pub uri : Bytes
  pub method : Method
  pub headers : List (Bytes × Bytes)
  pub body : Bytes

-- What comes back.
pub record Reply : Type 0 where
  pub status : Status
  pub code : ℤ
  pub location : Option Bytes
  pub body : Bytes
  pub error_text : Bytes
  pub errno : ℕ

-- What ghttp_request_new and ghttp_clean leave.
abbrev pub blank : Request
blank = record { uri = []; method = get; headers = []; body = [] }

-- The requests sent so far, the last one last.
abbrev pub History : Type 0
History = List Request

-- What libghttp documents, observed through the request that is put together (`view`) and the
-- requests sent (`sent`). The uri is the text that was handed over, valid or not. The network is
-- `answer`: its reply to the last request of a history.
pub record IsObserved (g : Ghttp) (answer : History → Reply) : Type 0 where
  pub view : g.State → Request
  pub sent : g.State → History
  pub view-set_uri : (s : g.State) (u : Bytes) → view (g.set_uri s u) ≡ record (view s) { uri = u }
  pub sent-set_uri : (s : g.State) (u : Bytes) → sent (g.set_uri s u) ≡ sent s
  pub view-set_type :
      (s : g.State) (m : Method) → view (g.set_type s m) ≡ record (view s) { method = m }
  pub sent-set_type : (s : g.State) (m : Method) → sent (g.set_type s m) ≡ sent s
  pub view-set_header :
      (s : g.State) (k v : Bytes)
      → (view s).headers ≡ []
      → view (g.set_header s k v) ≡ record (view s) { headers = (k, v) ∷ [] }
  pub sent-set_header : (s : g.State) (k v : Bytes) → sent (g.set_header s k v) ≡ sent s
  pub view-set_body :
      (s : g.State) (b : Bytes) → view (g.set_body s b) ≡ record (view s) { body = b }
  pub sent-set_body : (s : g.State) (b : Bytes) → sent (g.set_body s b) ≡ sent s
  pub view-prepare : (s : g.State) → view (g.prepare s) ≡ view s
  pub sent-prepare : (s : g.State) → sent (g.prepare s) ≡ sent s
  pub sent-process : (s : g.State) → sent (g.process s).1 ≡ sent s ++ view s ∷ []
  pub status-process : (s : g.State) → (g.process s).0 ≡ (answer (sent s ++ view s ∷ [])).status
  pub status_code-process :
      (s : g.State) → g.status_code (g.process s).1 ≡ (answer (sent s ++ view s ∷ [])).code
  pub get_header-process :
      (s : g.State)
      → g.get_header (g.process s).1 (lit "Location") ≡ (answer (sent s ++ view s ∷ [])).location
  pub get_body-process :
      (s : g.State) → g.get_body (g.process s).1 ≡ (answer (sent s ++ view s ∷ [])).body
  pub get_body_len-process :
      (s : g.State) → g.get_body_len (g.process s).1 ≡ length (answer (sent s ++ view s ∷ [])).body
  pub get_error-process :
      (s : g.State) → g.get_error (g.process s).1 ≡ (answer (sent s ++ view s ∷ [])).error_text
  pub errno-process :
      (s : g.State) → g.errno (g.process s).1 ≡ (answer (sent s ++ view s ∷ [])).errno
  pub view-clean : (s : g.State) → view (g.clean s) ≡ blank
  pub sent-clean : (s : g.State) → sent (g.clean s) ≡ sent s
  pub sent-request_destroy : (s : g.State) → sent (g.request_destroy s) ≡ sent s
