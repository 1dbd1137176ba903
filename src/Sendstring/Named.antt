-- ===== src/Sendstring/Named.antt =====
-- The messages of amqp_sendstring.cpp: when there is one, and the queue that it goes to.
use pungoo.Common.{
  ℕ, ◌+◌, ◌%◌, ◌<◌, ◌≡◌, refl, arith, true, some, [], ◌∷◌, ◌++◌, take, length, length-append,
  take_all, ◌∙◌, ◌≤◌, ltb, lt→ltb, done, undefined,
}
use pungoo.Common.Int.{pos}
use pungoo.Clib.Bytes.{Bytes, decimal}
use pungoo.Clib.Bytes.Texts.{length-digits_onto}
use pungoo.Amqp.{Message, Rabbit, ReadsInts}
use pungoo.Sendstring.{Settings, queue_name, message_of, message}

-- main has a key and an exchange, and the platform reads the int that `%ld` is given.
pub record IsGiven (r : Rabbit) (key exchange : Bytes) (g : Settings) : Type 0 where
  pub reads : ReadsInts r
  pub has_key : g.routingkey ≡ some key
  pub has_exchange : g.exchange ≡ some exchange

-- The message goes to one of the 10000 queues of the key.
abbrev pub IsNamed : Bytes → Bytes → Message → Type 0
IsNamed key exchange x =
    (k : ℕ) × (k < 10000)
    × (x.routing_key ≡ take 31 (key ++ (b'_' ∷ decimal (pos k))))
    × (x.exchange ≡ exchange)

message-IsNamed :
    (r : Rabbit) (key exchange : Bytes) (g : Settings) (n : ℕ)
    → IsGiven r key exchange g
    → n < 2147483648
    → (x : Message) × (message r g n ≡ done x) × IsNamed key exchange x
unfolding message message_of queue_name
message-IsNamed r key exchange g n given h =
    let small : ltb n 2147483648 ≡ true = lt→ltb _ _ h in
    (
      message_of key exchange (pos (n % 10000)),
      rw (small, given.has_key, given.reads (n % 10000) (omega arith), given.has_exchange) refl,
      (n % 10000, omega arith, refl, refl),
    )

module _ (r : Rabbit) (key exchange : Bytes) (g : Settings) (n : ℕ)
    (given : IsGiven r key exchange g) (h : n < 2147483648) where
  pub message-defined : ¬ (message r g n ≡ undefined)
  message-defined bad = let (x, made, named) = message-IsNamed r key exchange g n given h in cc

  pub done-IsNamed : (x : Message) → message r g n ≡ done x → IsNamed key exchange x
  done-IsNamed x e =
      let (y, made, named) = message-IsNamed r key exchange g n given h in
      let same : y ≡ x = cc in rw (← same) named

-- The message is for the exchange and for one of 10000 queues, whose whole name its array holds.
abbrev pub ToQueue : Bytes → Bytes → Message → Type 0
ToQueue key exchange x =
    (k : ℕ) × (k < 10000)
    × (x.routing_key ≡ key ++ (b'_' ∷ decimal (pos k)))
    × (length x.routing_key < 32)
    × (x.exchange ≡ exchange)

pub IsNamed-ToQueue :
    (key exchange : Bytes) (x : Message)
    → length key ≤ 26
    → IsNamed key exchange x
    → ToQueue key exchange x
unfolding decimal
IsNamed-ToQueue key exchange x short (k, below, name, to) =
    let digits : length (decimal (pos k)) ≤ 4 = length-digits_onto 3 (k + 1) k [] below in
    let size : length (key ++ (b'_' ∷ decimal (pos k))) < 32 =
      omega (arith, length-append key (b'_' ∷ decimal (pos k))) in
    let whole : take 31 (key ++ (b'_' ∷ decimal (pos k))) ≡ key ++ (b'_' ∷ decimal (pos k)) =
      take_all 31 _ (omega (arith, size)) in
    let named : x.routing_key ≡ key ++ (b'_' ∷ decimal (pos k)) = name ∙ whole in
    (k, below, named, rw named size, to)
