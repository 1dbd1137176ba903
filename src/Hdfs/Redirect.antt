-- ===== src/Hdfs/Redirect.antt =====
-- webhdfs_create_file and webhdfs_write of c/hdfs_test/webhdfs.c: the name node is asked for a data
-- node, and the request is sent again to where it redirects.
pub mod Location
pub mod Append
pub mod Create
pub mod Exists
pub mod Overrun
pub mod Once
use pungoo.Common.{
  ℕ, ◌+◌, ◌-◌, Bool, true, false, not, ◌&&◌, Option, none, some, [], ◌∷◌, ◌++◌, if◌then◌else◌, ltb,
  ◌==◌, length, Run, done, ◌>>=◌, Round, return, again,
}
use pungoo.Common.Int.{ℤ, pos, minus_one, eqb_ℤ, pos_part, is_less_one}
use pungoo.Clib.Bytes.{Bytes, lit, c_str, strncpy, str_eq}
use pungoo.Disk.{or_undefined, load, eagain}
use pungoo.Ghttp.{Ghttp, Json, Method, put, post, Status}
use pungoo.Hdfs.{
  Webhdfs, max_url_len, max_address_num, attempts, make_url, send, rotate, cleaned, is_error,
  Outcome,
}

-- malloc'ed blocks and json objects that the client holds.
pub record Held : Type 0 where
  pub blocks : ℕ
  pub objects : ℕ

abbrev pub malloc_block : Held → Held
malloc_block m = record m { blocks = m.blocks + 1 }

abbrev pub free_block : Held → Held
free_block m = record m { blocks = m.blocks - 1 }

abbrev pub new_object : Held → Held
new_object m = record m { objects = m.objects + 1 }

-- json_object_put
abbrev pub put_object : Held → Held
put_object m = record m { objects = m.objects - 1 }

module _ (g : Ghttp) where
  -- What the first request of a round comes to: the next name node, or an array that holds the
  -- redirect's url.
  pub data Located : Type 0 where
    missed : Webhdfs g.State → Located
    found : Bytes → Webhdfs g.State → Located

  locate_redirect : Webhdfs g.State → Bytes → g.State → Option Bytes → Run Located
  unfolding strncpy
  locate_redirect h url s none = done (missed (rotate g h s))
  locate_redirect h url s (some redirect) =
      or_undefined (strncpy url redirect max_url_len) >>= λ url'. done (found url' (cleaned g h s))

  locate_reply : Webhdfs g.State → Bytes → Status × g.State → Run Located
  unfolding locate_redirect
  locate_reply h url (status, s) =
      if is_error g status
      then done (missed (rotate g h s))
      else if not (eqb_ℤ (g.status_code s) (pos 307))
      then done (missed (rotate g h s))
      else locate_redirect h url s (g.get_header s (lit "Location"))

  unfoldable pub locate : Method → Bytes → Bytes → Webhdfs g.State → Run Located
  unfolding locate_reply send make_url
  locate method query path h = make_url g h path query >>= λ url.
      send g url method none h.handle_ >>= λ reply. locate_reply h url reply

  abbrev with_object : ℤ × Webhdfs g.State → Outcome g
  with_object (r, h) = done (r, some h)

  -- The reply of the data node to the bytes.
  write_reply : Webhdfs g.State → ℤ → Status × g.State → Round (Webhdfs g.State)
  unfolding str_eq
  write_reply h len (status, s) =
      if is_error g status
      then if (g.errno s == eagain) && str_eq (g.get_error s) (lit "Unknown Error.")
        then return len (cleaned g h s)
        else return minus_one (cleaned g h s)
      else if not (eqb_ℤ (g.status_code s) (pos 200))
      then return minus_one (cleaned g h s)
      else return len (cleaned g h s)

  write_at : Bytes → ℤ → Located → Run (Round (Webhdfs g.State))
  unfolding write_reply send
  write_at buf len (missed h) = done (again h)
  write_at buf len (found url h) = or_undefined (load buf 0 (pos_part len)) >>= λ body.
      send g url post (some body) h.handle_ >>= λ reply. done (write_reply h len reply)

  -- One round of webhdfs_write.
  unfoldable pub write_round : Bytes → ℤ → Bytes → Webhdfs g.State → Run (Round (Webhdfs g.State))
  unfolding write_at locate
  write_round buf len path h =
      locate post (lit "&op=APPEND") path h >>= λ located. write_at buf len located

  -- The name is not looked at before it is printed: a null one is undefined behaviour.
  write_named : Bytes → ℤ → Option Bytes → Webhdfs g.State → Outcome g
  unfolding write_round
  write_named buf len filename h = or_undefined filename >>= λ path.
      attempts (write_round buf len path) max_address_num h >>= with_object

  unfoldable pub webhdfs_write :
      Option (Webhdfs g.State) → Option Bytes → Option Bytes → ℤ → Outcome g
  unfolding write_named
  webhdfs_write none filename buf len = done (minus_one, none)
  webhdfs_write (some h) filename none len = done (minus_one, some h)
  webhdfs_write (some h) filename (some buf) len =
      if is_less_one len then done (minus_one, some h) else write_named buf len filename h

  -- webhdfs_read and webhdfs_status do nothing.
  unfoldable pub webhdfs_read : Option (Webhdfs g.State) → Bytes → Bytes → ℤ → ℤ → Outcome g
  webhdfs_read h filename buf offset len = done (pos 0, h)

  unfoldable pub webhdfs_status : Option (Webhdfs g.State) → Outcome g
  webhdfs_status h = done (pos 0, h)

  -- The object and the memory in the loop of webhdfs_create_file.
  pub record Creating : Type 0 where
    pub hdfs : Webhdfs g.State
    pub held : Held

  module _ (j : Json) where
    -- Whether the reply's exception says that the file is there, and the memory then: on that path
    -- neither the text nor the json object is given back.
    exception_named : Bytes → Held → Bool × Held
    unfolding str_eq
    exception_named text m =
        if str_eq (lit "FileAlreadyExistsException") text
        then (true, m)
        else (false, free_block (put_object m))

    exception_of : Option j.Object → Held → Bool × Held
    unfolding exception_named
    exception_of none m = (false, free_block (put_object m))
    exception_of (some o) m = exception_named (j.get_string o) m

    remote_exception : Option j.Object → Held → Bool × Held
    unfolding exception_of
    remote_exception none m = (false, free_block (put_object m))
    remote_exception (some o) m = exception_of (j.get o (lit "exception")) m

    parsed : Option j.Object → Held → Bool × Held
    unfolding remote_exception
    parsed none m = (false, free_block m)
    parsed (some o) m = remote_exception (j.get o (lit "RemoteException")) (new_object m)

    -- The reply 403 of the data node; the first argument is whether malloc finds memory.
    unfoldable pub exists_already : Bool → g.State → Held → Run (Bool × Held)
    unfolding parsed c_str
    exists_already false s m = done (false, m)
    exists_already true s m = or_undefined (load (g.get_body s) 0 (g.get_body_len s)) >>= λ body.
        or_undefined (c_str (body ++ 0 ∷ [])) >>= λ text.
        done (parsed (j.parse text) (malloc_block m))

    abbrev created : Creating → g.State → Bool × Held → Round Creating
    created c s (true, m) = return (pos 0) (record { hdfs = cleaned g c.hdfs s; held = m })
    created c s (false, m) = return minus_one (record { hdfs = cleaned g c.hdfs s; held = m })

    create_reply : Bool → Creating → Status × g.State → Run (Round Creating)
    unfolding exists_already
    create_reply memory c (status, s) =
        if is_error g status
        then done (created c s (false, c.held))
        else if eqb_ℤ (g.status_code s) (pos 201)
        then done (created c s (true, c.held))
        else if eqb_ℤ (g.status_code s) (pos 403)
        then (exists_already memory s c.held >>= λ r. done (created c s r))
        else done (created c s (false, c.held))

    create_at : Bool → Held → Located → Run (Round Creating)
    unfolding create_reply send
    create_at memory m (missed h) = done (again (record { hdfs = h; held = m }))
    create_at memory m (found url h) = send g url put none h.handle_ >>= λ reply.
        create_reply memory (record { hdfs = h; held = m }) reply

    -- One round of webhdfs_create_file.
    unfoldable pub create_round : Bool → Bytes → Creating → Run (Round Creating)
    unfolding create_at locate
    create_round memory path c =
        locate put (lit "&op=CREATE") path c.hdfs >>= λ located. create_at memory c.held located

    -- webhdfs_create_file, with the memory that the client holds before and after.
    unfoldable pub webhdfs_create_file :
        Bool
        → Option (Webhdfs g.State)
        → Option Bytes
        → Held
        → Run (ℤ × Option (Webhdfs g.State) × Held)
    unfolding create_round
    webhdfs_create_file memory none filename m = done (minus_one, none, m)
    webhdfs_create_file memory (some h) none m = done (minus_one, some h, m)
    webhdfs_create_file memory (some h) (some path) m =
        if ltb (length path) 1
        then done (minus_one, some h, m)
        else (attempts (create_round memory path) max_address_num (record { hdfs = h; held = m })
            >>= λ (r, c). done (r, some c.hdfs, c.held))
