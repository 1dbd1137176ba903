-- ===== src/Hdfs/Tests/Network.antt =====
-- A client, and a network for it.
use pungoo.Common.{
  ℕ, zero, suc, ◌≡◌, ◌<◌, refl, Option, none, some, [], ◌∷◌, ◌++◌, arith, if◌then◌else◌, ◌==◌,
  get_elem?,
}
use pungoo.Common.Int.{pos}
use pungoo.Clib.Bytes.{Bytes, lit, c_str}
use pungoo.Clib.Bytes.Texts.{is_text, is_text-IsText}
use pungoo.Ghttp.{Ghttp, error, finished, Reply, History, blank}
use pungoo.Ghttp.Script.{ScriptState, scripted, script_laws}
use pungoo.Hdfs.{Address, Webhdfs}
use pungoo.Hdfs.Redirect.{Held}
use pungoo.Hdfs.Protocol.{Site}
use pungoo.Hdfs.Requests.{Represents}
use pungoo.Hdfs.Redirect.Location.{HasShortLocations}

abbrev pub no_reply : Reply
no_reply = record {
  status = error;
  code = pos 0;
  location = none;
  body = [];
  error_text = lit "timeout";
  errno = 110;
}

abbrev pub reply_of : ℕ → Option Bytes → Bytes → Reply
reply_of code location body = record {
  status = finished;
  code = pos code;
  location = location;
  body = body;
  error_text = [];
  errno = 0;
}

-- The first name node is down, the second one redirects, and the data node says that the file is
-- there.
abbrev pub network : History → Reply
network [] = no_reply
network (_ ∷ []) = no_reply
network (_ ∷ _ ∷ []) = reply_of 307 (some (lit "http://d/")) []
network (_ ∷ _ ∷ _ ∷ t) = reply_of 403 none (lit "FileAlreadyExistsException")

abbrev pub site : Site
site = record {
  ip = λ i. if i == 0 then lit "10.80.5.21" else lit "10.80.5.22";
  port = λ i. pos 50070;
  user = lit "hdfs";
}

abbrev pub client : Webhdfs ScriptState
client = record {
  address_ =
      record { ip = lit "10.80.5.21" ++ 0 ∷ []; port = pos 50070 }
      ∷ record { ip = lit "10.80.5.22" ++ 0 ∷ []; port = pos 50070 }
      ∷ [];
  handle_ = record { request = blank; sent = [] };
  index_ = 0;
  user_ = lit "hdfs" ++ 0 ∷ [];
}

pub client-Represents :
    (n : History → Reply) → Represents (scripted n) n (script_laws n) site client 0 []
unfolding c_str
client-Represents n = record {
  index = refl;
  below = omega arith;
  address = address_at;
  user = refl;
  clean = refl;
  sent = refl;
}
  where
    address_at :
        (k : ℕ)
        → k < 2
        → (a : Address) × (get_elem? client.address_ k ≡ some a)
          × (c_str a.ip ≡ some (site.ip k))
          × (a.port ≡ site.port k)
    address_at zero h = (_, refl, refl, refl)
    address_at (suc zero) h = (_, refl, refl, refl)
    address_at (suc (suc k)) h = absurd (omega arith)

pub network-HasShortLocations : HasShortLocations network
unfolding is_text
network-HasShortLocations [] u e = ground arith
network-HasShortLocations (_ ∷ []) u e = ground arith
network-HasShortLocations (_ ∷ _ ∷ []) u e =
    let here : lit "http://d/" ≡ u = ground arith in
    rw (← here) (is_text-IsText (lit "http://d/") refl, omega arith)
network-HasShortLocations (_ ∷ _ ∷ _ ∷ t) u e = ground arith

abbrev pub path : Bytes
path = lit "/a"

abbrev pub nothing_held : Held
nothing_held = record { blocks = 0; objects = 0 }

abbrev pub world : Ghttp
world = scripted network
