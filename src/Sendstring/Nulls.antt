-- ===== src/Sendstring/Nulls.antt =====
-- Runs of amqp_sendstring.cpp that are undefined: main reads behind its arguments, and printf is given
-- an int for a long.
use pungoo.Common.{
  ℕ, ◌<◌, ◌≤◌, ◌≡◌, ◌⊎◌, inl, inr, refl, arith, Option, none, some, List, [], ◌∷◌, length, done,
  undefined,
}
use pungoo.Common.Int.{ℤ, pos_part}
use pungoo.Clib.Bytes.{Bytes, lit}
use pungoo.Clib.Bytes.Numerals.{atoi}
use pungoo.Server.{Event}
use pungoo.Amqp.{IsHealthy, LeavesInts, Rabbit}
use pungoo.Sendstring.{Settings, argument, text_argument, int_argument, read_args, sendstring}
use pungoo.Sendstring.Tallies.{turns}
use pungoo.Sendstring.Starved.{advance-Starved}

abbrev settings_of : ℤ → Bytes → ℤ → Option Bytes → Option Bytes → Settings
settings_of k host q exchange key = record {
  thread_num = k;
  hostname = some host;
  port = q;
  exchange = exchange;
  routingkey = key;
}

-- With three or four arguments the exchange or the routing key is the null pointer behind them.
short_args :
    (name n host port : Bytes) (more : List Bytes) (k q : ℤ)
    → length more ≤ 1
    → atoi n ≡ done k
    → atoi port ≡ done q
    → (g : Settings) × (read_args (name ∷ n ∷ host ∷ port ∷ more) ≡ done g)
      × (g.thread_num ≡ k)
      × ((g.routingkey ≡ none) ⊎ (g.exchange ≡ none))
unfolding read_args int_argument text_argument argument
short_args name n host port [] k q short en ep =
    (settings_of k host q none (some (lit "test")), rw (en, ep) refl, refl, inr refl)
short_args name n host port (x ∷ []) k q short en ep =
    (settings_of k host q (some x) none, rw (en, ep) refl, refl, inl refl)
short_args name n host port (x ∷ y ∷ more) k q short en ep = absurd (omega arith)

port_missing :
    (name n host : Bytes) (k : ℤ) → atoi n ≡ done k → read_args (name ∷ n ∷ host ∷ []) ≡ undefined
unfolding read_args int_argument text_argument argument
port_missing name n host k e = rw e refl

-- With two arguments, the first one a number that is an int, amqp_sendstring.cpp is undefined at once:
-- main gives atoi the null pointer behind them.
sendstring-port_missing :
    (r : Rabbit) (name n host : Bytes) (k : ℤ) (garbage now : ℕ) (events : List Event)
    → atoi n ≡ done k
    → sendstring r (name ∷ n ∷ host ∷ []) garbage now events ≡ undefined
unfolding sendstring
sendstring-port_missing r name n host k garbage now events e =
    rw (port_missing name n host k e) refl

-- With three or four arguments, of which the first and the third are numbers that are ints,
-- amqp_sendstring.cpp is undefined once a thread that main makes has had five turns, while the library
-- does what it is asked: the exchange or the routing key of the thread's first message is the null
-- pointer behind the arguments.
pub sendstring-undefined :
    (r : Rabbit) (name n host port : Bytes) (more : List Bytes) (k q : ℤ) (i garbage now : ℕ)
    (events : List Event)
    → IsHealthy r
    → length more ≤ 1
    → atoi n ≡ done k
    → atoi port ≡ done q
    → i < pos_part k
    → 5 ≤ turns i events
    → sendstring r (name ∷ n ∷ host ∷ port ∷ more) garbage now events ≡ undefined
unfolding sendstring
sendstring-undefined r name n host port more k q i garbage now events healthy short en ep made due =
    let (g, args, count, null) = short_args name n host port more k q short en ep in
    rw args (advance-Starved r g healthy (starved null) i garbage now events (rw count made) due)
  where
    starved : {key exchange leaves : Type 0} → key ⊎ exchange → key ⊎ (exchange ⊎ leaves)
    starved (inl e) = inl e
    starved (inr e) = inr (inl e)

-- With any arguments that main can read: where the platform leaves it undefined that printf is given
-- an int for `%ld`, as the C standard does, amqp_sendstring.cpp is undefined once a thread that main
-- makes has had five turns, while the library does what it is asked. The thread's first message has
-- such a number in the name of its queue.
pub sendstring-int_for_long :
    (r : Rabbit) (argv : List Bytes) (g : Settings) (i garbage now : ℕ) (events : List Event)
    → read_args argv ≡ done g
    → IsHealthy r
    → LeavesInts r
    → i < pos_part g.thread_num
    → 5 ≤ turns i events
    → sendstring r argv garbage now events ≡ undefined
unfolding sendstring
sendstring-int_for_long r argv g i garbage now events args healthy leaves made due =
    rw args (advance-Starved r g healthy (inr (inr leaves)) i garbage now events made due)
