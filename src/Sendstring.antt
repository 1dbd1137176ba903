-- ===== src/Sendstring.antt =====
-- cpp/rabbitmq/rabbitmq-c-0.8.0/examples/amqp_sendstring.cpp: threads that publish messages and count
-- them, and a main loop that shows the count. The turn of a thread is a call of the library, with
-- what follows up to the next one. amqp_new_connection and pthread_create are taken to succeed.
pub mod Turns
pub mod Runs
pub mod Tallies
pub mod Named
pub mod Sound
pub mod Progress
pub mod Published
pub mod Starved
pub mod Nulls
mod Tests
use pungoo.Common.{
  ℕ, zero, suc, ◌+◌, ◌-◌, ◌%◌, Bool, true, false, Option, none, some, ltb, ◌==◌, if◌then◌else◌,
  List, [], ◌∷◌, ◌++◌, length, get_elem?, set, take, replicate, Run, done, undefined, ◌>>=◌,
}
use pungoo.Common.Int.{ℤ, pos, pos_part, eqb_ℤ}
use pungoo.Clib.Bytes.{Bytes, lit, decimal}
use pungoo.Clib.Bytes.Numerals.{atoi}
use pungoo.Disk.{or_undefined}
use pungoo.Server.{interlocked_add64, Event, thread, main}
use pungoo.Amqp.{
  Message, Request, tcp_socket_new, socket_open, login, channel_open, basic_publish, Call, Rabbit,
  die_on_amqp_error, die_on_error,
}

-- thread_num and the global variables that main sets. A `char *` may be null.
pub record Settings : Type 0 where
  pub thread_num : ℤ
  pub hostname : Option Bytes
  pub port : ℤ
  pub exchange : Option Bytes
  pub routingkey : Option Bytes

-- argv[i]: a null pointer behind the last argument.
unfoldable pub argument : List Bytes → ℕ → Run (Option Bytes)
argument [] zero = done none
argument [] (suc i) = undefined
argument (a ∷ rest) zero = done (some a)
argument (a ∷ rest) (suc i) = argument rest i

-- if (argc > n) variable = argv[i];
unfoldable pub text_argument : List Bytes → ℕ → ℕ → Bytes → Run (Option Bytes)
unfolding argument
text_argument argv n i old = if ltb n (length argv) then argument argv i else done (some old)

-- if (argc > n) variable = atoi(argv[i]);
unfoldable pub int_argument : List Bytes → ℕ → ℕ → ℕ → Run ℤ
unfolding argument atoi
int_argument argv n i old =
    if ltb n (length argv)
    then (argument argv i >>= λ a. or_undefined a >>= λ text. atoi text)
    else done (pos old)

-- The start of main. `argv` has argc entries.
unfoldable pub read_args : List Bytes → Run Settings
unfolding text_argument int_argument
read_args argv = int_argument argv 1 1 1 >>= λ thread_num.
    text_argument argv 1 2 (lit "172.18.32.55") >>= λ hostname.
    int_argument argv 2 3 5672 >>= λ port. text_argument argv 3 4 (lit "amq.direct") >>= λ exchange.
    text_argument argv 4 5 (lit "test") >>= λ routingkey. done (record {
      thread_num = thread_num;
      hostname = hostname;
      port = port;
      exchange = exchange;
      routingkey = routingkey;
    })

-- Where a thread stands: before amqp_tcp_socket_new, amqp_socket_open, amqp_login,
-- amqp_channel_open, amqp_basic_publish, and before the increment.
pub data Place : Type 0 where
  creating opening logging asking sending counting : Place

pub record Sender : Type 0 where
  pub idx : ℕ
  pub place : Place

-- The process: `info.count`, the threads, the calls of the library and the messages that it has
-- taken, with their threads (the last one first), the lines on stderr and those that main has shown
-- (TIMES and TICK), main's two times, and the status of exit().
pub record Sending : Type 0 where
  pub info_count : ℕ
  pub senders : List Sender
  pub calls : List Call
  pub sent : List (ℕ × Message)
  pub stderr : List Bytes
  pub lines : List (ℕ × ℕ)
  pub start_time : ℕ
  pub last_time : ℕ
  pub exited : Option ℤ

-- snprintf(queue_name, 32, "%s_%ld", key, n), where `n` is the long that printf takes.
unfoldable pub queue_name : Bytes → ℤ → Bytes
queue_name key n = take 31 (key ++ (b'_' ∷ decimal n))

-- strValue, which the loop of push_back fills.
pub str_value : Bytes
str_value = replicate 10240 b'A'

-- What amqp_basic_publish is given.
unfoldable pub message_of : Bytes → Bytes → ℤ → Message
unfolding queue_name
message_of key exchange n = record {
  exchange = exchange;
  routing_key = queue_name key n;
  content_type = lit "text/plain";
  delivery_mode = 2;
  expiration = lit "1";
  body = str_value;
}

-- The message of a round whose ++idx gives `idx`: undefined where the int overflows, where `%s` or
-- amqp_cstring_bytes is given a null pointer, or where the platform leaves it undefined that `%ld` is
-- given the int idx % 10000.
unfoldable pub message : Rabbit → Settings → ℕ → Run Message
message r g idx =
    if ltb idx 2147483648
    then (or_undefined g.routingkey >>= λ key. or_undefined (r.long_of_int (idx % 10000)) >>= λ n.
        or_undefined g.exchange >>= λ exchange. done (message_of key exchange n))
    else undefined

abbrev pub called : ℕ → Request → Sending → Sending
called i request m = record m { calls = record { caller = i; request = request } ∷ m.calls }

abbrev pub moved : ℕ → Sender → Place → Sending → Sending
moved i t place m = record m { senders = set m.senders i (record t { place = place }) }

-- A line on stderr and exit(1), which nothing follows; without a line, what follows.
unfoldable pub die_or : Option Bytes → Sending → Sending → Sending
die_or none m next = next
die_or (some line) m next = record m { stderr = line ∷ m.stderr; exited = some (pos 1) }

-- What follows amqp_basic_publish.
unfoldable pub publish : Rabbit → ℕ → Sender → Message → Sending → Sending
publish r i t message m =
    let m' = called i (basic_publish message) m in
    die_or (die_on_error r (r.publish_status m'.calls) (lit "Publishing")) m' (record m' {
      senders = set m'.senders i (record { idx = t.idx + 1; place = counting });
      sent = (i, message) ∷ m'.sent;
    })

-- The next turn of the thread `t`, which has the number `i`.
unfoldable pub sender_step : Rabbit → Settings → ℕ → Sender → Place → Sending → Run Sending
sender_step r g i t creating m =
    let m' = called i tcp_socket_new m in
    done (
      if r.has_socket m'.calls
      then moved i t opening m'
      else die_or (some (lit "creating TCP socket")) m' m')
sender_step r g i t opening m =
    let m' = called i (socket_open g.hostname g.port) m in
    done (
      if eqb_ℤ (r.open_status m'.calls) (pos 0)
      then moved i t logging m'
      else die_or (some (lit "opening TCP socket")) m' m')
sender_step r g i t logging m =
    let m' = called i (login (lit "/") (lit "guest") (lit "guest")) m in
    done (
      die_or (die_on_amqp_error r (r.login_reply m'.calls) (lit "Logging in")) m'
        (moved i t asking m'))
sender_step r g i t asking m =
    let m' = called i channel_open m in
    done (
      die_or (die_on_amqp_error r (r.channel_reply m'.calls) (lit "Opening channel")) m'
        (moved i t sending m'))
sender_step r g i t sending m = message r g (t.idx + 1) >>= λ x. done (publish r i t x m)
sender_step r g i t counting m =
    done (moved i t sending (record m { info_count = interlocked_add64 1 m.info_count }))

-- A round of main's loop, where the clock shows `now` and, when it is read again, `later` more.
unfoldable pub show : ℕ → ℕ → Sending → Sending
show now later m =
    if ltb m.last_time now
    then record m {
      last_time = now + later;
      lines = (m.info_count, now + later - m.start_time) ∷ m.lines;
    }
    else m

unfoldable pub turn : Rabbit → Settings → ℕ → Option Sender → Sending → Run Sending
turn r g i none m = done m
turn r g i (some t) m = sender_step r g i t t.place m

-- What an event does in a process that runs.
unfoldable pub happen : Rabbit → Settings → Event → Sending → Run Sending
happen r g (thread i) m = turn r g i (get_elem? m.senders i) m
happen r g (main now later) m = done (show now later m)

-- Nothing happens behind exit().
unfoldable pub while_running : Option ℤ → Sending → Run Sending → Run Sending
while_running none m next = next
while_running (some status) m next = done m

unfoldable pub advance : Rabbit → Settings → List Event → Sending → Run Sending
advance r g [] m = done m
advance r g (e ∷ rest) m = while_running m.exited m (happen r g e m) >>= λ m'. advance r g rest m'

-- The process when main comes to its loop. `garbage` is what info.count holds: it is not set.
abbrev pub launched : Settings → ℕ → ℕ → Sending
launched g garbage now = record {
  info_count = garbage;
  senders = replicate (pos_part g.thread_num) (record { idx = 0; place = creating });
  calls = [];
  sent = [];
  stderr = [];
  lines = [];
  start_time = now;
  last_time = now;
  exited = none;
}

-- The program, with the events in one order.
unfoldable pub sendstring : Rabbit → List Bytes → ℕ → ℕ → List Event → Run Sending
unfolding read_args advance
sendstring r argv garbage now events =
    read_args argv >>= λ g. advance r g events (launched g garbage now)
