-- ===== src/SendOne/Tests.antt =====
-- Three rounds of amqp_sendstring.c, with a library that fails in the third one.
use pungoo.Common.{
  ◌≡◌, refl, true, some, none, List, [], ◌∷◌, length, ltb, if◌then◌else◌, Ends, ℕ, Option, Run,
  done,
}
use pungoo.Common.Int.{ℤ, pos, negsuc}
use pungoo.Clib.Bytes.{Bytes, lit}
use pungoo.Clib.Bytes.Numerals.{atoi}
use pungoo.Amqp.{Rabbit, response_normal, die_on_amqp_error, die_on_error}
use pungoo.SendOne.{Session, unless_dead, publish_rounds, after_open, message_to, main}
use pungoo.SendOne.Answers.{Delivered}
use pungoo.SendOne.Delivered.{main-Delivered}

abbrev failing : Rabbit
failing = record {
  has_socket = λ calls. true;
  open_status = λ calls. pos 0;
  login_reply = λ calls. response_normal;
  channel_reply = λ calls. response_normal;
  publish_status = λ calls. if ltb (length calls) 7 then pos 0 else negsuc 8;
  error_string = λ e. lit "a socket error occurred";
  long_of_int = λ n. none;
}

abbrev arguments : List Bytes
arguments = lit "a" ∷ lit "h" ∷ lit "5672" ∷ lit "x" ∷ lit "k" ∷ lit "body" ∷ []

main-Delivered_example :
    Ends
      (Delivered failing (lit "h") (pos 5672) (message_to (lit "x") (lit "k") (lit "body")) 3)
      (main failing arguments 3)
unfolding atoi
main-Delivered_example =
    main-Delivered failing (lit "a") (lit "h") (lit "5672") (lit "x") (lit "k") (lit "body") []
      (pos 5672) 3 refl

outcome : Run Session → ℕ × (List Bytes × Option ℤ)
outcome (done s) = (length s.sent, (s.stderr, s.exited))
outcome _ = (0, ([], none))

fails_in_third :
    outcome (main failing arguments 3)
    ≡ (2, (lit "Publishing: a socket error occurred" ∷ [], some (pos 1)))
unfolding main atoi publish_rounds after_open unless_dead die_on_amqp_error die_on_error outcome
fails_in_third = refl

too_few : outcome (main failing (lit "a" ∷ lit "h" ∷ []) 3) ≡ (
  0,
  (lit "Usage: amqp_sendstring host port exchange routingkey messagebody" ∷ [], some (pos 1)),
)
unfolding main outcome
too_few = refl
