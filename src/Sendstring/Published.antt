-- ===== src/Sendstring/Published.antt =====
-- What amqp_sendstring.cpp publishes and counts, from its arguments on.
use pungoo.Common.{
  ℕ, zero, suc, ◌+◌, ◌*◌, ◌%◌, ◌<◌, ◌≤◌, ◌≡◌, refl, inl, arith, none, List, [], length, replicate,
  done, Ends, Ends-weaken, All, All-weaken, All-replicate, replicate-get_elem?, total,
  length-replicate,
}
use pungoo.Common.Int.{pos_part}
use pungoo.Clib.Bytes.{Bytes}
use pungoo.Server.{int64_mod, Event}
use pungoo.Amqp.{IsHealthy, Message, Rabbit}
use pungoo.Sendstring.{Settings, creating, Sending, read_args, launched, advance, sendstring}
use pungoo.Sendstring.Turns.{stage_max}
use pungoo.Sendstring.Named.{IsGiven, ToQueue, IsNamed-ToQueue}
use pungoo.Sendstring.Sound.{Sound, pends, advance-Sound}
use pungoo.Sendstring.Tallies.{turns, sent_by}
use pungoo.Sendstring.Progress.{Progress, advance-Progress}

-- The count of a process with n threads stands for the messages that the library has taken, but for
-- those that a thread is still to count.
abbrev pub CountsSent : ℕ → ℕ → Sending → Type 0
CountsSent n garbage m =
    (increments : ℕ) × (m.info_count ≡ (garbage + increments) % int64_mod)
    × (increments ≤ length m.sent)
    × (length m.sent ≤ increments + n)

launched_pending : (n : ℕ) → total pends (replicate n (record { idx = 0; place = creating })) ≡ 0
launched_pending zero = refl
launched_pending (suc n) = omega (arith, launched_pending n)

module _ (r : Rabbit) (argv : List Bytes) (g : Settings) (key exchange : Bytes) (garbage now : ℕ)
    (events : List Event) (args : read_args argv ≡ done g) (given : IsGiven r key exchange g)
    (few : length events < 2147483648) where
  sendstring-Sound :
      garbage < int64_mod
      → Ends
          (Sound key exchange garbage (pos_part g.thread_num) [])
          (sendstring r argv garbage now events)
  unfolding sendstring
  sendstring-Sound h = rw args (
      advance-Sound r g key exchange given garbage (pos_part g.thread_num) events
        (launched g garbage now)
        (record {
          increments = 0;
          shown = omega arith;
          made = omega (arith, launched_pending (pos_part g.thread_num));
          size = length-replicate _ _;
          room = All-replicate _ _ _ (omega (arith, few));
          named = tt;
          once = inl (refl, refl);
        }))

  -- Where main can read the arguments of amqp_sendstring.cpp and they give it an exchange and a routing
  -- key of at most 26 chars, and the platform reads the int that printf is given for `%ld` as its
  -- value, a run of less than 2 ^ 31 events from a count below 2 ^ 64 ends, whatever the library does,
  -- and each message that the library has taken is for the exchange and for the queue key_k with a number k below 10000, so that
  -- there are 10000 queues at most; the name fits its array of 32 bytes with its NUL and is not cut.
  pub sendstring-ToQueue :
      garbage < int64_mod
      → length key ≤ 26
      → Ends
          (λ m. All (λ (x : ℕ × Message). ToQueue key exchange x.1) m.sent)
          (sendstring r argv garbage now events)
  sendstring-ToQueue h short = Ends-weaken _ _ _ (sendstring-Sound h) λ (m : Sending) s.
      All-weaken _ _ m.sent s.named λ x named. IsNamed-ToQueue key exchange x.1 short named

  -- Where main can read the arguments of amqp_sendstring.cpp and they give it a routing key and an
  -- exchange, the platform reads the int that printf is given for `%ld` as its value, the library does
  -- what it is asked, and main makes a thread `i`: in a run of less than 2 ^ 31 events the process does
  -- not end, and when the thread has had 4 + 2 n turns, the library has taken n messages of it at
  -- least.
  pub sendstring-progress :
      IsHealthy r
      → (i n : ℕ) → i < pos_part g.thread_num
      → 4 + 2 * n ≤ turns i events
      → Ends
          (λ m. (m.exited ≡ none) × (n ≤ sent_by i m.sent))
          (sendstring r argv garbage now events)
  unfolding sendstring
  sendstring-progress healthy i n made due = rw args (
      Ends-weaken (Progress i (turns i events) []) _ (advance r g events (launched g garbage now))
        (advance-Progress r g key exchange healthy given i (turns i events) events
          (launched g garbage now)
          (record {
            runs = refl;
            sender = record { idx = 0; place = creating };
            stands = replicate-get_elem? (pos_part g.thread_num) i _ made;
            due = omega arith;
            taken = refl;
            room = All-replicate _ _ _ (omega (arith, few));
          }))
        λ m p. (p.runs, omega (arith, p.due, p.taken, stage_max p.sender.place)))
