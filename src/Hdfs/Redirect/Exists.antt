-- ===== src/Hdfs/Redirect/Exists.antt =====
-- The reply 403 of a data node to webhdfs_create_file, against the protocol, with the memory.
use Prim.Native.Nat.add
use pungoo.Common.{
  ℕ, ◌≡◌, ◌≢◌, refl, ◌∙◌, ap, Bool, true, false, Option, none, some, [], ◌∷◌, ◌++◌, arith, length,
  done, Bool-cases, inl, inr, le→leb, if◌then◌else◌, take_all,
}
use pungoo.Common.Int.{ℤ, pos, negsuc, eqb_ℤ}
use pungoo.Clib.Bytes.{Bytes, lit, str_eq}
use pungoo.Clib.Bytes.Texts.{text_of, c_str-text_of}
use pungoo.Ghttp.{Ghttp, Json, IsObserved, Status, Reply, History}
use pungoo.Hdfs.Redirect.{
  Held, malloc_block, free_block, new_object, put_object, exception_named, exception_of,
  remote_exception, parsed, exists_already,
}
use pungoo.Hdfs.Protocol.{
  is_lost, string_of, exception_under, exception_in, names_existing, is_existing, held_after,
}
use pungoo.Hdfs.Requests.{Answered}

free_block-malloc_block : (m : Held) → free_block (malloc_block m) ≡ m
free_block-malloc_block m = ap (λ n. record m { blocks = n }) (omega arith)

put_object-new_object : (m : Held) → put_object (new_object m) ≡ m
put_object-new_object m = ap (λ n. record m { objects = n }) (omega arith)

pub apart : (c : ℤ) (m n : ℕ) → eqb_ℤ c (pos m) ≡ true → m ≢ n → eqb_ℤ c (pos n) ≡ false
apart (pos k) m n e d = ground arith
apart (negsuc k) m n e d = ground arith

module _ (g : Ghttp) (j : Json) where
  -- What is held once the reply was read, whether it names the exception or not.
  abbrev held_if : Bool → Held → Held
  held_if b m = if b then new_object (malloc_block m) else m

  all_free : (m : Held) → free_block (put_object (new_object (malloc_block m))) ≡ m
  all_free m = ap free_block (put_object-new_object (malloc_block m)) ∙ free_block-malloc_block m

  exception_named_lem :
      (text : Bytes) (m : Held)
      → exception_named g j text (new_object (malloc_block m))
        ≡ (names_existing (some text), held_if (names_existing (some text)) m)
  unfolding exception_named
  exception_named_lem text m = elim (Bool-cases (str_eq (lit "FileAlreadyExistsException") text)) [
    | inl good ↦ rw good refl
    | inr bad ↦ rw bad (ap (λ x. (false, x)) (all_free m))
  ]

  abbrev seen : Option Bytes → Held → Bool × Held
  seen b m = (names_existing b, held_if (names_existing b) m)

  exception_of_lem :
      (o : Option j.Object) (m : Held)
      → exception_of g j o (new_object (malloc_block m)) ≡ seen (string_of j o) m
  unfolding exception_of
  exception_of_lem none m = ap (λ x. (false, x)) (all_free m)
  exception_of_lem (some x) m = exception_named_lem (j.get_string x) m

  remote_exception_lem :
      (o : Option j.Object) (m : Held)
      → remote_exception g j o (new_object (malloc_block m)) ≡ seen (exception_under j o) m
  unfolding remote_exception
  remote_exception_lem none m = ap (λ x. (false, x)) (all_free m)
  remote_exception_lem (some x) m = exception_of_lem (j.get x (lit "exception")) m

  parsed_lem :
      (o : Option j.Object) (m : Held) → parsed g j o (malloc_block m) ≡ seen (exception_in j o) m
  unfolding parsed
  parsed_lem none m = ap (λ x. (false, x)) (free_block-malloc_block m)
  parsed_lem (some x) m = remote_exception_lem (j.get x (lit "RemoteException")) m

  module _ (answer : History → Reply) (obs : IsObserved g answer) where
    pub exists_already_lem :
        (memory : Bool) (t : History) (status : Status) (s : g.State) (m : Held)
        → Answered g answer obs t status s
        → eqb_ℤ (answer t).code (pos 403) ≡ true
        → is_lost (answer t).status ≡ false
        → exists_already g j memory s m
          ≡ done (is_existing j memory (answer t), held_after j memory (answer t) m)
    unfolding exists_already is_existing
    exists_already_lem false t status s m a code came = rw (code, came) refl
    exists_already_lem true t status s m a code came =
        let text = (answer t).body in
        rw
          (
            a.body,
            a.body_len,
            add.zero (length text),
            le→leb (length text) (length text) (omega arith),
            take_all (length text) text (omega arith),
            c_str-text_of text [],
            code,
            came,
          )
          (ap done (parsed_lem (j.parse (text_of (text ++ 0 ∷ []))) m))

    pub lost-is_existing :
        (memory : Bool) (r : Reply) → is_lost r.status ≡ true → is_existing j memory r ≡ false
    unfolding is_existing
    lost-is_existing memory r lost = rw lost refl

    pub other-is_existing :
        (memory : Bool) (r : Reply)
        → eqb_ℤ r.code (pos 403) ≡ false
        → is_existing j memory r ≡ false
    unfolding is_existing
    other-is_existing memory r bad = elim (Bool-cases (is_lost r.status)) [
      | inl lost ↦ rw lost refl
      | inr came ↦ rw (came, bad) refl
    ]
