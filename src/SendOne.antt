-- ===== src/SendOne.antt =====
-- cpp/rabbitmq/rabbitmq-c-0.8.0/examples/amqp_sendstring.c, which the repository has changed into an
-- endless loop: one connection publishes one message again and again.
pub mod Answers
pub mod Delivered
mod Tests
use pungoo.Common.{
  ℕ, zero, suc, Bool, Option, none, some, if◌then◌else◌, List, [], ◌∷◌, Run, done, ◌>>=◌,
}
use pungoo.Common.Int.{ℤ, pos, eqb_ℤ}
use pungoo.Clib.Bytes.{Bytes, lit}
use pungoo.Clib.Bytes.Numerals.{atoi}
use pungoo.Amqp.{
  Message, Request, tcp_socket_new, socket_open, login, channel_open, basic_publish, Call, Rabbit,
  die_on_amqp_error, die_on_error,
}

-- The calls of the library and the messages that it has taken (the last one first), the lines on
-- stderr, and the status of exit() or of main's return.
pub record Session : Type 0 where
  pub calls : List Call
  pub sent : List Message
  pub stderr : List Bytes
  pub exited : Option ℤ

abbrev pub ask : Request → Session → Session
ask q s = record s { calls = record { caller = 0; request = q } ∷ s.calls }

-- A line on stderr and exit(1); without a line, what follows.
unfoldable pub unless_dead : Option Bytes → Session → Session → Session
unless_dead none s next = next
unless_dead (some line) s next = record s { stderr = line ∷ s.stderr; exited = some (pos 1) }

-- The line of die() where a call has failed.
abbrev pub failed : Bool → Bytes → Option Bytes
failed ok line = if ok then none else some line

-- The first rounds of the loop, which has no end.
unfoldable pub publish_rounds : Rabbit → Message → ℕ → Session → Session
publish_rounds r x zero s = s
publish_rounds r x (suc k) s =
    let s' = ask (basic_publish x) s in
    let rest = publish_rounds r x k (record s' { sent = x ∷ s'.sent }) in
    unless_dead (die_on_error r (r.publish_status s'.calls) (lit "Publishing")) s' rest

unfoldable pub after_open : Rabbit → Message → ℕ → Session → Session
after_open r x k s =
    let s1 = ask (login (lit "perf") (lit "admin") (lit "admin")) s in
    let s2 = ask channel_open s1 in
    unless_dead (die_on_amqp_error r (r.login_reply s1.calls) (lit "Logging in")) s1 (
      unless_dead (die_on_amqp_error r (r.channel_reply s2.calls) (lit "Opening channel")) s2
        (publish_rounds r x k s2))

-- main behind its arguments, with `k` rounds of its loop.
unfoldable pub send : Rabbit → Bytes → ℤ → Message → ℕ → Session → Session
send r host port x k s =
    let s1 = ask tcp_socket_new s in
    let s2 = ask (socket_open (some host) port) s1 in
    unless_dead (failed (r.has_socket s1.calls) (lit "creating TCP socket")) s1 (
      unless_dead (failed (eqb_ℤ (r.open_status s2.calls) (pos 0)) (lit "opening TCP socket")) s2
        (after_open r x k s2))

abbrev pub opened : Session
opened = record { calls = []; sent = []; stderr = []; exited = none }

-- The message that main makes of its arguments.
abbrev pub message_to : Bytes → Bytes → Bytes → Message
message_to exchange key body = record {
  exchange = exchange;
  routing_key = key;
  content_type = lit "text/plain";
  delivery_mode = 2;
  expiration = lit "1";
  body = body;
}

-- main, with argc entries in `argv`.
unfoldable pub main : Rabbit → List Bytes → ℕ → Run Session
unfolding send
main r (name ∷ host ∷ port ∷ exchange ∷ key ∷ body ∷ more) k =
    atoi port >>= λ p. done (send r host p (message_to exchange key body) k opened)
main r _ k = done (record opened {
  stderr = lit "Usage: amqp_sendstring host port exchange routingkey messagebody" ∷ [];
  exited = some (pos 1);
})
