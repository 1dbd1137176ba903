-- ===== src/Server.antt =====
-- cpp/redis_cluster/server.cpp and cpp/redis_cluster2/server.cpp: threads that set keys of a redis
-- cluster and count what they have done, and a main loop that shows the count each second. The
-- client r3c is a parameter: what each of its calls comes to.
pub mod Counted
pub mod Shown
mod Tests
use pungoo.Common.{
  ℕ, zero, suc, ◌+◌, ◌-◌, ◌%◌, Bool, true, false, Option, none, some, ltb, if◌then◌else◌, List, [],
  ◌∷◌, ◌++◌, length, get_elem?, set, take, replicate, Run, done, ◌>>=◌,
}
use pungoo.Common.Int.{ℤ, pos, pos_part}
use pungoo.Clib.Bytes.{Bytes, lit, decimal}
use pungoo.Clib.Bytes.Numerals.{atoi}

abbrev pub int64_mod : ℕ
int64_mod = 18446744073709551616

-- `lock xaddq`: one indivisible step. The new value of *v, which is also what is returned; an
-- int64_t is its 64 bits.
unfoldable pub interlocked_add64 : ℕ → ℕ → ℕ
interlocked_add64 i v = (i + v) % int64_mod

-- A call of setex.
pub record Call : Type 0 where
  pub key : Bytes
  pub value : Bytes
  pub ttl : ℕ

-- What r3c does: whether a client comes up, and whether a call returns, given the calls before it.
-- Where it does not, it throws a CRedisException.
pub record Redis : Type 0 where
  pub connects : Bytes → Bool
  pub sets : List Call → Call → Bool

-- Where a thread stands: before its client is made, before setex, before the increment.
pub data Phase : Type 0 where
  starting : Phase
  sending : Phase
  counting : Phase

pub record Thread : Type 0 where
  pub tid : ℕ
  pub count : ℕ
  pub phase : Phase

-- The process: `info.count`, the threads, the calls that have returned (the last one first), the
-- lines that main has shown (TIMES and TICK), its two times, and the status of exit().
pub record Process : Type 0 where
  pub info_count : ℕ
  pub threads : List Thread
  pub calls : List Call
  pub lines : List (ℕ × ℕ)
  pub start_time : ℕ
  pub last_time : ℕ
  pub exited : Option ℤ

abbrev pub nodes : Bytes
nodes = lit "172.18.32.55:6380"

-- strValue, which the loop of push_back fills.
pub str_value : Bytes
str_value = replicate 51200 b'A'

-- snprintf(key, 64, "%d-%ld", thread_id, ++count) and what setex is given.
unfoldable pub call_of : ℕ → ℕ → ℕ → Call
call_of ttl tid count = record {
  key = take 63 (decimal (pos tid) ++ (b'-' ∷ decimal (pos count)));
  value = str_value;
  ttl = ttl;
}

-- catch (r3c::CRedisException& ex): exit(1) ends the process.
abbrev exit_one : Process → Process
exit_one m = record m { exited = some (pos 1) }

-- The next step of the thread `t`, which has the number `i`.
unfoldable pub thread_step : Redis → ℕ → ℕ → Thread → Phase → Process → Process
unfolding interlocked_add64
thread_step r ttl i t starting m =
    if r.connects nodes
    then record m { threads = set m.threads i (record t { phase = sending }) }
    else exit_one m
thread_step r ttl i t sending m =
    if r.sets m.calls (call_of ttl t.tid (t.count + 1))
    then record m {
      threads = set m.threads i (record t { count = t.count + 1; phase = counting });
      calls = call_of ttl t.tid (t.count + 1) ∷ m.calls;
    }
    else exit_one m
thread_step r ttl i t counting m = record m {
  info_count = interlocked_add64 1 m.info_count;
  threads = set m.threads i (record t { phase = sending });
}

-- A round of main's loop, where the clock shows `now` and, when it is read again, `later` more.
unfoldable pub watch : ℕ → ℕ → Process → Process
watch now later m =
    if ltb m.last_time now
    then record m {
      last_time = now + later;
      lines = (m.info_count, now + later - m.start_time) ∷ m.lines;
    }
    else m

-- What runs next: a thread, or main.
pub data Event : Type 0 where
  thread : ℕ → Event
  main : ℕ → ℕ → Event

-- Nothing runs behind exit().
unfoldable pub unless_exited : Option ℤ → Process → Process → Process
unless_exited none m next = next
unless_exited (some status) m next = m

unfoldable pub scheduled : Redis → ℕ → ℕ → Option Thread → Process → Process
unfolding thread_step
scheduled r ttl i none m = m
scheduled r ttl i (some t) m = thread_step r ttl i t t.phase m

unfoldable pub step : Redis → ℕ → Event → Process → Process
unfolding unless_exited scheduled watch
step r ttl (thread i) m = unless_exited m.exited m (scheduled r ttl i (get_elem? m.threads i) m)
step r ttl (main now later) m = unless_exited m.exited m (watch now later m)

unfoldable pub run : Redis → ℕ → List Event → Process → Process
unfolding step
run r ttl [] m = m
run r ttl (e ∷ rest) m = run r ttl rest (step r ttl e m)

-- pthread_create for each of the threads, whose ids the system chooses.
abbrev pub created : List ℕ → List Thread
created [] = []
created (tid ∷ rest) = record { tid = tid; count = 0; phase = starting } ∷ created rest

-- The process when main comes to its loop. `garbage` is what info.count holds: it is not set.
abbrev pub started : List ℕ → ℕ → ℕ → Process
started tids garbage now = record {
  info_count = garbage;
  threads = created tids;
  calls = [];
  lines = [];
  start_time = now;
  last_time = now;
  exited = none;
}

-- thread_num
unfoldable pub thread_num : List Bytes → Run ℤ
unfolding atoi
thread_num (name ∷ text ∷ rest) = atoi text
thread_num _ = done (pos 1)

-- The ids of the first n threads.
abbrev pub ids : ℕ → (ℕ → ℕ) → List ℕ
ids zero tids = []
ids (suc n) tids = tids n ∷ ids n tids

-- The program of redis_cluster: setex(key, strValue, 1, &which_node). `argv` has argc entries, and
-- `tids` are the ids that the system gives to the threads.
unfoldable pub server : Redis → List Bytes → (ℕ → ℕ) → ℕ → ℕ → List Event → Run Process
unfolding thread_num run
server r argv tids garbage now events =
    thread_num argv >>= λ n. done (run r 1 events (started (ids (pos_part n) tids) garbage now))

-- The program of redis_cluster2: setex(key, strValue, 20, &which_node).
unfoldable pub server2 : Redis → List Bytes → (ℕ → ℕ) → ℕ → ℕ → List Event → Run Process
unfolding thread_num run
server2 r argv tids garbage now events =
    thread_num argv >>= λ n. done (run r 20 events (started (ids (pos_part n) tids) garbage now))
