-- ===== src/Hdfs/Protocol.antt =====
-- The protocol between the client of webhdfs.c and its servers, told without arrays, request
-- objects or cleaning: requests to two name nodes and to data nodes, where the network is a function
-- from the requests so far to the reply to the last one.

use pungoo.Common.{
  ℕ, zero, suc, ◌+◌, ◌%◌, Bool, true, false, not, ◌&&◌, ◌||◌, Option, none, some, [], ◌∷◌, ◌++◌,
  if◌then◌else◌, ◌==◌, take,
}
use pungoo.Common.Int.{ℤ, pos, minus_one, eqb_ℤ}
use pungoo.Clib.Bytes.{Bytes, lit, str_eq, decimal}
use pungoo.Clib.Bytes.Texts.{text_of}
use pungoo.Hdfs.Redirect.{Held, malloc_block, new_object}
use pungoo.Ghttp.{Json, Method, Status, error, Request, Reply, History}

-- The two name nodes and the user.
pub record Site : Type 0 where
  pub ip : ℕ → Bytes
  pub port : ℕ → ℤ
  pub user : Bytes

-- The url of an operation at a name node, as much of it as the array of 512 bytes holds.
unfoldable pub url_of : Site → Bytes → Bytes → ℕ → Bytes
url_of site path query i = take 511 (
    lit "http://"
    ++ (site.ip i
        ++ (lit ":"
            ++ (decimal (site.port i)
                ++ (lit "/webhdfs/v1" ++ (path ++ (lit "?user.name=" ++ (site.user ++ query))))))))

-- Every request of the client has the one header.
abbrev pub request_to : Method → Bytes → Bytes → Request
request_to method uri body = record {
  uri = uri;
  method = method;
  headers = (lit "Timeout", lit "10") ∷ [];
  body = body;
}

abbrev pub other_node : ℕ → ℕ
other_node i = (i + 1) % 2

module _ {T : Type 0} where
  -- At most `n` rounds, from node `i` on. A round may come to a verdict; if none does, it is -1.
  abbrev pub failover : (ℕ → T → Option ℤ × T) → ℕ → ℕ → T → ℤ × ℕ × T
  failover step zero i t = (minus_one, i, t)
  failover step (suc n) i t = elim (step i t).0 [
    | some v ↦ (v, i, (step i t).1)
    | none ↦ failover step n (other_node i) (step i t).1
  ]

-- ghttp_error, when no reply came.
abbrev pub is_lost : Status → Bool
is_lost error = true
is_lost _ = false

abbrev pub is_reply : Reply → ℤ → Bool
is_reply r code = not (is_lost r.status) && eqb_ℤ r.code code

-- The name node's answer to MKDIRS and DELETE.
abbrev pub dir_verdict : Reply → Option ℤ
dir_verdict r = if is_reply r (pos 200) then some (pos 0) else none

-- Where the name node sends the client.
abbrev pub redirect_of : Reply → Option Bytes
redirect_of r = if is_reply r (pos 307) then r.location else none

-- A broken connection with EAGAIN and this text counts as success.
abbrev pub is_ignored : Reply → Bool
is_ignored r = is_lost r.status && ((r.errno == 11) && str_eq r.error_text (lit "Unknown Error."))

-- The data node's answer to an append of `len` bytes.
abbrev pub append_verdict : ℤ → Reply → ℤ
append_verdict len r = if is_reply r (pos 200) || is_ignored r then len else minus_one

infixl 5 ◌>>=◌
abbrev ◌>>=◌ {ℓ κ} : {A : Type ℓ} {B : Type κ} → Option A → (A → Option B) → Option B
none >>= f = none
some a >>= f = f a

-- What the exception in a json reply is called.
abbrev pub string_of : (j : Json) → Option j.Object → Option Bytes
string_of j o = do x ← o; some (j.get_string x)

abbrev pub exception_under : (j : Json) → Option j.Object → Option Bytes
exception_under j o = do e ← o; string_of j (j.get e (lit "exception"))

abbrev pub exception_in : (j : Json) → Option j.Object → Option Bytes
exception_in j o = do r ← o; exception_under j (j.get r (lit "RemoteException"))

abbrev pub names_existing : Option Bytes → Bool
names_existing none = false
names_existing (some text) = str_eq (lit "FileAlreadyExistsException") text

-- The reply says that the file was there before; it is read if malloc finds memory.
unfoldable pub is_existing : Json → Bool → Reply → Bool
is_existing j memory r =
    is_reply r (pos 403)
    && (memory && names_existing (exception_in j (j.parse (text_of (r.body ++ 0 ∷ [])))))

-- The data node's answer to a create.
abbrev pub create_verdict : Json → Bool → Reply → ℤ
create_verdict j memory r =
    if is_reply r (pos 201) || is_existing j memory r then pos 0 else minus_one

-- The memory that a create leaves held: the text of the reply and its json object, when the file
-- was there before.
abbrev pub held_after : Json → Bool → Reply → Held → Held
held_after j memory r m = if is_existing j memory r then new_object (malloc_block m) else m

module _ (answer : History → Reply) where
  -- One request to a name node.
  abbrev pub dir_step : Method → (ℕ → Bytes) → ℕ → History → Option ℤ × History
  dir_step method url i t =
      let t' = t ++ request_to method (url i) [] ∷ [] in (dir_verdict (answer t'), t')

  module _ (method : Method) (body : Bytes) (url : ℕ → Bytes) where
    -- The history with the redirected request.
    abbrev pub redirected : History → Bytes → History
    redirected t uri = t ++ request_to method uri body ∷ []

    -- A request to a name node, and the second one to where it redirects.
    abbrev pub follow_append : ℤ → Option Bytes → History → Option ℤ × History
    follow_append len none t = (none, t)
    follow_append len (some uri) t =
        (some (append_verdict len (answer (redirected t uri))), redirected t uri)

    abbrev pub append_step : ℤ → ℕ → History → Option ℤ × History
    append_step len i t =
        let t' = t ++ request_to method (url i) [] ∷ [] in
        follow_append len (redirect_of (answer t')) t'

    abbrev pub follow_create :
        Json → Bool → Option Bytes → History × Held → Option ℤ × (History × Held)
    follow_create j memory none (t, m) = (none, (t, m))
    follow_create j memory (some uri) (t, m) =
        let r = answer (redirected t uri) in
        (some (create_verdict j memory r), (redirected t uri, held_after j memory r m))

    abbrev pub create_step : Json → Bool → ℕ → History × Held → Option ℤ × (History × Held)
    create_step j memory i (t, m) =
        let t' = t ++ request_to method (url i) [] ∷ [] in
        follow_create j memory (redirect_of (answer t')) (t', m)
