-- ===== src/Sendstring/Tests.antt =====
-- amqp_sendstring.cpp with two threads, in one order of their turns.
use pungoo.Common.{
  ◌≡◌, ◌≤◌, refl, true, none, some, List, [], ◌∷◌, arith, length, ltb, if◌then◌else◌, done,
  undefined, Run, Option, Ends, All, ℕ,
}
use pungoo.Common.Int.{ℤ, pos, negsuc}
use pungoo.Clib.Bytes.{Bytes, lit, decimal}
use pungoo.Server.{interlocked_add64, Event, thread, main}
use pungoo.Amqp.{
  IsHealthy, ReadsInts, Message, Rabbit, response_normal, server_exception, channel_close,
  other_method, die_on_error, die_on_amqp_error,
}
use pungoo.Sendstring.{
  Settings, Sending, read_args, while_running, happen, turn, sender_step, die_or, show, message,
  publish, sendstring,
}
use pungoo.Sendstring.Named.{IsGiven, ToQueue}
use pungoo.Sendstring.Tallies.{sent_by}
use pungoo.Sendstring.Published.{sendstring-ToQueue, sendstring-progress}
use pungoo.Sendstring.Nulls.{sendstring-undefined, sendstring-int_for_long}

abbrev good : Rabbit
good = record {
  has_socket = λ calls. true;
  open_status = λ calls. pos 0;
  login_reply = λ calls. response_normal;
  channel_reply = λ calls. response_normal;
  publish_status = λ calls. pos 0;
  error_string = λ e. lit "no error";
  long_of_int = λ n. some (pos n);
}

-- A library that fails at its eleventh call.
abbrev failing : Rabbit
failing = record good {
  publish_status = λ calls. if ltb (length calls) 11 then pos 0 else negsuc 8;
  error_string = λ e. lit "a socket error occurred";
}

good-IsHealthy : IsHealthy good
good-IsHealthy = record {
  socket = λ calls. refl;
  opened = λ calls. refl;
  logged_in = λ calls. refl;
  channel = λ calls. refl;
  published = λ calls. refl;
}

abbrev arguments : List Bytes
arguments =
    lit "amqp_sendstring" ∷ lit "2" ∷ lit "10.0.0.1" ∷ lit "5673" ∷ lit "amq.topic" ∷ lit "job" ∷ []

abbrev two_threads : Settings
two_threads = record {
  thread_num = pos 2;
  hostname = some (lit "10.0.0.1");
  port = pos 5673;
  exchange = some (lit "amq.topic");
  routingkey = some (lit "job");
}

arguments_read : read_args arguments ≡ done two_threads
unfolding read_args
arguments_read = refl

two_threads-IsGiven :
    (r : Rabbit) → ReadsInts r → IsGiven r (lit "job") (lit "amq.topic") two_threads
two_threads-IsGiven r reads = record { reads = reads; has_key = refl; has_exchange = refl }

-- Each thread comes to its first message, the first one to its second.
abbrev events : List Event
events =
    thread 0
    ∷ thread 1
    ∷ thread 0
    ∷ thread 1
    ∷ thread 1
    ∷ main 8 1
    ∷ thread 1
    ∷ thread 0
    ∷ thread 0
    ∷ thread 0
    ∷ thread 1
    ∷ thread 0
    ∷ main 20 0
    ∷ thread 0
    ∷ []

sendstring-ToQueue_example :
    Ends
      (λ m. All (λ (x : ℕ × Message). ToQueue (lit "job") (lit "amq.topic") x.1) m.sent)
      (sendstring failing arguments 7 5 events)
sendstring-ToQueue_example =
    sendstring-ToQueue failing arguments two_threads (lit "job") (lit "amq.topic") 7 5 events
      arguments_read (two_threads-IsGiven failing λ n h. refl) (omega arith) (omega arith)
      (omega arith)

sendstring-progress_example :
    Ends (λ m. (m.exited ≡ none) × (1 ≤ sent_by 0 m.sent)) (sendstring good arguments 7 5 events)
sendstring-progress_example =
    sendstring-progress good arguments two_threads (lit "job") (lit "amq.topic") 7 5 events
      arguments_read (two_threads-IsGiven good λ n h. refl) (omega arith) good-IsHealthy 0 1
      (omega arith) (omega arith)

sendstring-undefined_example :
    sendstring good (lit "a" ∷ lit "1" ∷ lit "h" ∷ lit "5672" ∷ lit "x" ∷ []) 7 5 events ≡ undefined
unfolding read_args
sendstring-undefined_example =
    sendstring-undefined good (lit "a") (lit "1") (lit "h") (lit "5672") (lit "x" ∷ []) (pos 1)
      (pos 5672) 0 7 5 events good-IsHealthy (omega arith) refl refl (omega arith) (omega arith)

-- A platform that keeps to the letter of the C standard.
abbrev strict : Rabbit
strict = record good { long_of_int = λ n. none }

strict-IsHealthy : IsHealthy strict
strict-IsHealthy = record {
  socket = λ calls. refl;
  opened = λ calls. refl;
  logged_in = λ calls. refl;
  channel = λ calls. refl;
  published = λ calls. refl;
}

sendstring-int_for_long_example : sendstring strict arguments 7 5 events ≡ undefined
sendstring-int_for_long_example =
    sendstring-int_for_long strict arguments two_threads 0 7 5 events arguments_read
      strict-IsHealthy (λ n. refl) (omega arith) (omega arith)

exit_of : Run Sending → List Bytes × (ℕ × Option ℤ)
exit_of (done m) = (m.stderr, (m.info_count, m.exited))
exit_of _ = ([], (0, none))

failed_run :
    exit_of (sendstring failing arguments 7 5 events)
    ≡ (lit "Publishing: a socket error occurred" ∷ [], (8, some (pos 1)))
unfolding sendstring while_running happen turn sender_step die_or die_on_amqp_error show message
    publish die_on_error interlocked_add64 exit_of
failed_run = refl

channel_closed :
    die_on_amqp_error good
      (server_exception (channel_close 404 (lit "NOT_FOUND")))
      (lit "Opening channel")
    ≡ some (lit "Opening channel: server channel error 404h, message: NOT_FOUND")
unfolding die_on_amqp_error decimal
channel_closed = refl

unknown_method :
    die_on_amqp_error good (server_exception (other_method 0x3c0032)) (lit "Logging in")
    ≡ some (lit "Logging in: unknown server error, method id 0x003C0032")
unfolding die_on_amqp_error
unknown_method = refl
