-- ===== src/Hdfs.antt =====
-- c/hdfs_test/webhdfs.c and webhdfs.h: a WebHDFS client over two name nodes.
pub mod Redirect
pub mod Protocol
pub mod Requests
pub mod Failover
pub mod Objects
pub mod Main
mod Tests
use pungoo.Common.{
  ℕ, zero, suc, ◌+◌, ◌-◌, ◌%◌, Bool, true, false, not, ◌&&◌, ◌||◌, Option, none, some, List, [],
  ◌∷◌, ◌++◌, if◌then◌else◌, ltb, leb, ◌==◌, length, take, drop, replicate, get_elem?, Run, done,
  undefined, ◌>>=◌, Round, return, again,
}
use pungoo.Common.Int.{ℤ, pos, negsuc, minus_one, eqb_ℤ, pos_part, is_less_one}
use pungoo.Clib.Bytes.{Bytes, lit, c_str, snprintf, strncpy, str_eq, decimal}
use pungoo.Disk.{or_undefined, load, eagain}
use pungoo.Ghttp.{Ghttp, Json, Method, put, post, delete, Status, error, not_done, finished}

abbrev pub ip_len : ℕ
ip_len = 16

abbrev pub max_address_num : ℕ
max_address_num = 2

abbrev pub max_user_name_len : ℕ
max_user_name_len = 32

abbrev pub max_url_len : ℕ
max_url_len = 512

pub record Address : Type 0 where
  pub ip : Bytes
  pub port : ℤ

-- webhdfs_t over the state of the http library. Its function pointers are constants, so that a
-- call through one is a call of the function below.
pub record Webhdfs (S : Type 0) : Type 0 where
  pub address_ : List Address
  pub handle_ : S
  pub index_ : ℕ
  pub user_ : Bytes

-- An address that memset has cleared.
abbrev pub no_address : Address
no_address = record { ip = replicate ip_len 0; port = pos 0 }

-- The guard of webhdfs_t_create on the number of addresses.
abbrev pub is_address_num : ℤ → Bool
is_address_num (pos n) = leb n max_address_num && not (n == 0)
is_address_num (negsuc n) = false

-- The guard on the user's name, which is given by its bytes before the NUL.
abbrev pub is_user : Bytes → Bool
is_user user = not (ltb (length user) 1) && ltb (length user) max_user_name_len

-- memcpy of the first `num` addresses into the two of the object; `none` if the caller has fewer.
abbrev pub copy_addresses : List Address → ℕ → Option (List Address)
copy_addresses addr num =
    if leb num (length addr)
    then some (take num addr ++ replicate (max_address_num - num) no_address)
    else none

-- The body of the for loops: whether it goes on with the next round, or leaves with a result.
abbrev pub attempts {ℓ} : {S : Type ℓ} → (S → Run (Round S)) → ℕ → S → Run (ℤ × S)
attempts body zero s = done (minus_one, s)
attempts body (suc n) s =
    body s >>= λ round. elim round [ return r s' ↦ done (r, s') | again s' ↦ attempts body n s' ]

module _ (g : Ghttp) where
  fill_hdfs : List Address → ℤ → Bytes → Option g.State → Run (Option (Webhdfs g.State))
  unfolding strncpy
  fill_hdfs addr num user none = done none
  fill_hdfs addr num user (some handle) =
      or_undefined (copy_addresses addr (pos_part num)) >>= λ address.
      or_undefined (strncpy (replicate max_user_name_len 0) user (max_user_name_len - 1))
      >>= λ name.
          done (some (record { address_ = address; handle_ = handle; index_ = 0; user_ = name }))

  -- webhdfs_t_create; the last argument is whether malloc finds memory.
  unfoldable pub webhdfs_t_create :
      List Address → ℤ → Option Bytes → Bool → Run (Option (Webhdfs g.State))
  unfolding fill_hdfs
  webhdfs_t_create addr num none memory = done none
  webhdfs_t_create addr num (some user) memory =
      if not (is_address_num num)
      then done none
      else if not (is_user user)
      then done none
      else if not memory
      then done none
      else fill_hdfs addr num user g.request_new

  -- webhdfs_t_destroy: its result, and what is behind the request. The object is gone after it.
  unfoldable pub webhdfs_t_destroy : Option (Webhdfs g.State) → ℤ × Option g.State
  webhdfs_t_destroy none = (pos 0, none)
  webhdfs_t_destroy (some h) = (pos 0, some (g.request_destroy (g.clean h.handle_)))

  -- snprintf(url, ...) for the name node in use: `query` is the text behind the user's name.
  unfoldable pub make_url : Webhdfs g.State → Bytes → Bytes → Run Bytes
  unfolding snprintf c_str decimal
  make_url h path query = or_undefined (get_elem? h.address_ h.index_) >>= λ address.
      or_undefined (c_str address.ip) >>= λ ip. or_undefined (c_str h.user_) >>= λ user.
      or_undefined (
        snprintf (replicate max_url_len 0) max_url_len (
          lit "http://"
          ++ (ip
              ++ (lit ":"
                  ++ (decimal address.port
                      ++ (lit "/webhdfs/v1"
                          ++ (path ++ (lit "?user.name=" ++ (user ++ query)))))))))

  abbrev with_body : Option Bytes → g.State → g.State
  with_body none s = s
  with_body (some b) s = g.set_body s b

  -- ghttp_set_uri up to ghttp_process, for a url in an array.
  unfoldable pub send : Bytes → Method → Option Bytes → g.State → Run (Status × g.State)
  send url method body s = or_undefined (c_str url) >>= λ uri. done (
      g.process (
        g.prepare (
          with_body body
            (g.set_header (g.set_type (g.set_uri s uri) method) (lit "Timeout") (lit "10")))))

  -- The other name node, with the request cleaned.
  abbrev pub rotate : Webhdfs g.State → g.State → Webhdfs g.State
  rotate h s = record h { handle_ = g.clean s; index_ = (h.index_ + 1) % max_address_num }

  -- The object once the request is cleaned.
  abbrev pub cleaned : Webhdfs g.State → g.State → Webhdfs g.State
  cleaned h s = record h { handle_ = g.clean s }

  abbrev pub is_error : Status → Bool
  is_error error = true
  is_error _ = false

  -- One round of webhdfs_create_dir and of webhdfs_delete_dir.
  dir_branch : Webhdfs g.State → Status × g.State → Round (Webhdfs g.State)
  dir_branch h (status, s) =
      if is_error status
      then again (rotate h s)
      else if not (eqb_ℤ (g.status_code s) (pos 200))
      then again (rotate h s)
      else return (pos 0) (cleaned h s)

  unfoldable pub dir_round :
      Method → Bytes → Bytes → Webhdfs g.State → Run (Round (Webhdfs g.State))
  unfolding dir_branch send make_url
  dir_round method query path h = make_url h path query >>= λ url.
      send url method none h.handle_ >>= λ reply. done (dir_branch h reply)

  -- What a function hands back: its result and the object.
  abbrev pub Outcome : Type 0
  Outcome = Run (ℤ × Option (Webhdfs g.State))

  abbrev with_object : ℤ × Webhdfs g.State → Outcome
  with_object (r, h) = done (r, some h)

  -- A name that is null or empty is refused.
  abbrev pub named : Option Bytes → Webhdfs g.State → (Bytes → Outcome) → Outcome
  named none h f = done (minus_one, some h)
  named (some p) h f = if ltb (length p) 1 then done (minus_one, some h) else f p

  unfoldable pub webhdfs_create_dir : Option (Webhdfs g.State) → Option Bytes → Outcome
  unfolding dir_round
  webhdfs_create_dir none dir = done (minus_one, none)
  webhdfs_create_dir (some h) dir =
      named dir h
        (λ p. attempts (dir_round put (lit "&op=MKDIRS") p) max_address_num h >>= with_object)

  unfoldable pub webhdfs_delete_dir : Option (Webhdfs g.State) → Option Bytes → Outcome
  unfolding dir_round
  webhdfs_delete_dir none dir = done (minus_one, none)
  webhdfs_delete_dir (some h) dir = named dir h (λ p.
      attempts (dir_round delete (lit "&op=DELETE&recursive=true") p) max_address_num h
      >>= with_object)

  unfoldable pub webhdfs_delete_file : Option (Webhdfs g.State) → Option Bytes → Outcome
  unfolding webhdfs_delete_dir
  webhdfs_delete_file h filename = webhdfs_delete_dir h filename
