-- ===== src/Hdfs/Tests.antt =====
-- Runs of the client against a scripted network, and its theorems at concrete data.
mod Network
use pungoo.Common.{
  ℕ, zero, suc, ◌≡◌, ◌<◌, inl, inr, refl, true, Option, none, some, [], ◌∷◌, ◌++◌, arith, replicate,
  length, Run, ◌>>=◌, done, undefined, Ends, if◌then◌else◌, ◌==◌, get_elem?,
}
use pungoo.Common.Int.{ℤ, pos}
use pungoo.Clib.Bytes.{Bytes, lit, str_eq, c_str}
use pungoo.Clib.Bytes.Texts.{is_text, is_text-IsText}
use pungoo.Ghttp.{Ghttp, put, post, delete, error, finished, Reply, History, blank}
use pungoo.Ghttp.Script.{ScriptState, scripted, script_laws, echo_json}
use pungoo.Hdfs.{
  Address, Webhdfs, webhdfs_t_create, webhdfs_create_dir, webhdfs_delete_dir, webhdfs_delete_file,
}
use pungoo.Hdfs.Redirect.{Held, webhdfs_write, webhdfs_create_file}
use pungoo.Hdfs.Protocol.{Site, url_of, failover, dir_step, append_step, create_step}
use pungoo.Hdfs.Requests.{Represents}
use pungoo.Hdfs.Failover.{IsDone, webhdfs_create_dir-failover, webhdfs_delete_dir-failover}
use pungoo.Hdfs.Redirect.Location.{HasShortLocations}
use pungoo.Hdfs.Redirect.Append.{webhdfs_write-failover}
use pungoo.Hdfs.Redirect.Once.{IsSentOnce, webhdfs_write-SentOnce}
use pungoo.Hdfs.Redirect.Overrun.{RedirectsFar, webhdfs_write-undefined}
use pungoo.Hdfs.Main.{hdfs_main, main_site, IsMain, hdfs_main-failover}
use pungoo.Hdfs.Objects.{site_of, webhdfs_t_create-refused, webhdfs_t_create-Represents}
use pungoo.Hdfs.Redirect.Create.{IsCreated, webhdfs_create_file-failover}
use pungoo.Hdfs.Tests.Network.{
  no_reply, reply_of, network, site, client, client-Represents, network-HasShortLocations, path,
  nothing_held, world,
}

-- The file counts as created, at the second node, and two pieces of memory stay held.
created_again : Run (ℤ × ℕ × ℕ × Held)
unfolding webhdfs_create_file str_eq c_str
created_again =
    webhdfs_create_file world echo_json true (some client) (some path) nothing_held >>= λ (r, h, m).
    elim h [ none ↦ undefined | some o ↦ done (r, o.index_, length o.handle_.sent, m) ]

created_again_lem : created_again ≡ done (pos 0, 1, 3, record { blocks = 1; objects = 1 })
unfolding created_again
created_again_lem = refl

webhdfs_create_file-failover_example :
    Ends
      (IsCreated world echo_json network (script_laws network) site network-HasShortLocations (
        failover
          (create_step network put [] (url_of site path (lit "&op=CREATE")) echo_json true)
          2
          0
          ([], nothing_held)))
      (webhdfs_create_file world echo_json true (some client) (some path) nothing_held)
unfolding is_text
webhdfs_create_file-failover_example =
    webhdfs_create_file-failover world echo_json network (script_laws network) site
      network-HasShortLocations true client 0 [] nothing_held path (omega arith)
      (is_text-IsText path refl) (client-Represents network)

webhdfs_write-failover_example :
    Ends
      (IsDone world network (script_laws network) site (
        failover
          (append_step network post (lit "xy") (url_of site path (lit "&op=APPEND")) (pos 2))
          2
          0
          []))
      (webhdfs_write world (some client) (some path) (some (lit "xyz")) (pos 2))
unfolding is_text
webhdfs_write-failover_example =
    webhdfs_write-failover world network (script_laws network) site network-HasShortLocations
      (lit "xyz") (pos 2) client 0 [] path (omega arith) (omega arith) (is_text-IsText path refl)
      (client-Represents network)

webhdfs_create_dir-failover_example :
    Ends
      (IsDone world network
        (script_laws network)
        site
        (failover (dir_step network put (url_of site path (lit "&op=MKDIRS"))) 2 0 []))
      (webhdfs_create_dir world (some client) (some path))
unfolding is_text
webhdfs_create_dir-failover_example =
    webhdfs_create_dir-failover world network (script_laws network) site client 0 [] path
      (client-Represents network) (is_text-IsText path refl) (omega arith)

webhdfs_delete_dir-failover_example :
    let url = url_of site path (lit "&op=DELETE&recursive=true") in
    Ends
      (IsDone world network
        (script_laws network)
        site
        (failover (dir_step network delete url) 2 0 []))
      (webhdfs_delete_dir world (some client) (some path))
    × (webhdfs_delete_file world (some client) (some path)
        ≡ webhdfs_delete_dir world (some client) (some path))
unfolding is_text
webhdfs_delete_dir-failover_example =
    webhdfs_delete_dir-failover world network (script_laws network) site client 0 [] path
      (client-Represents network) (is_text-IsText path refl) (omega arith)

webhdfs_write-SentOnce_example :
    Ends
      (IsSentOnce world network (script_laws network) site network-HasShortLocations [])
      (webhdfs_write world (some client) (some path) (some (lit "xyz")) (pos 2))
unfolding is_text
webhdfs_write-SentOnce_example =
    webhdfs_write-SentOnce world network (script_laws network) site network-HasShortLocations
      (lit "xyz") (pos 2) client 0 [] path (omega arith) (omega arith) (is_text-IsText path refl)
      (client-Represents network)

abbrev far_url : Bytes
far_url = replicate 512 97

-- A network that redirects too far.
abbrev far_network : History → Reply
far_network t = reply_of 307 (some far_url) []

far_reply :
    RedirectsFar
      (scripted far_network)
      far_network
      (script_laws far_network)
      site
      (reply_of 307 (some far_url) [])
      far_url
unfolding is_text
far_reply = record {
  came = refl;
  code = refl;
  location = refl;
  text = is_text-IsText far_url refl;
  long = omega arith;
}

webhdfs_write-undefined_example :
    (webhdfs_write (scripted far_network) (some client) (some path) (some (lit "xyz")) (pos 2)
      ≡ undefined)
    × (webhdfs_create_file
          (scripted far_network)
          echo_json
          true
          (some client)
          (some path)
          nothing_held
        ≡ undefined)
unfolding is_text
webhdfs_write-undefined_example =
    webhdfs_write-undefined (scripted far_network) far_network (script_laws far_network) site
      echo_json true client 0 [] nothing_held path far_url (lit "xyz") (pos 2) (omega arith)
      (is_text-IsText path refl) (omega arith) (omega arith) (client-Represents far_network)
      far_reply far_reply

abbrev address : Address
address = record { ip = lit "10.80.5.21" ++ 0 ∷ []; port = pos 50070 }

webhdfs_t_create-refused_example :
    webhdfs_t_create world (address ∷ []) (pos 3) (some (lit "hdfs")) true ≡ done none
webhdfs_t_create-refused_example =
    webhdfs_t_create-refused world (address ∷ []) (pos 3) (lit "hdfs") true
      (inl (inr (inl (omega arith))))

webhdfs_t_create-Represents_example :
    ((h : Webhdfs ScriptState) × (webhdfs_t_create world
          (address ∷ address ∷ [])
          (pos 2)
          (some (lit "hdfs"))
          true
        ≡ done (some h))
      × Represents world network
          (script_laws network)
          (site_of (lit "10.80.5.21") (pos 50070) (lit "10.80.5.21") (pos 50070) (lit "hdfs"))
          h
          0
          [])
    × ((h : Webhdfs ScriptState) × (webhdfs_t_create world
            (address ∷ [])
            (pos 1)
            (some (lit "hdfs"))
            true
          ≡ done (some h))
        × Represents world network
            (script_laws network)
            (site_of (lit "10.80.5.21") (pos 50070) [] (pos 0) (lit "hdfs"))
            h
            0
            [])
unfolding c_str is_text
webhdfs_t_create-Represents_example =
    webhdfs_t_create-Represents world network (script_laws network) address address
      (lit "10.80.5.21") (lit "10.80.5.21") (lit "hdfs") client.handle_ refl refl
      (is_text-IsText (lit "hdfs") refl) (omega arith) (omega arith) refl refl

hdfs_main-failover_example :
    Ends
      (IsMain world echo_json network (script_laws network) network-HasShortLocations (
        failover
          (create_step network put []
            (url_of
              (main_site world echo_json network (script_laws network) network-HasShortLocations)
              (lit "/hello_world")
              (lit "&op=CREATE"))
            echo_json
            true)
          2
          0
          ([], nothing_held)))
      (hdfs_main world echo_json true true 7 9 nothing_held)
hdfs_main-failover_example =
    hdfs_main-failover world echo_json network (script_laws network) network-HasShortLocations true
      7 9 nothing_held client.handle_ refl refl
