-- ===== src/Server/Shown.antt =====
-- What main of the server shows: how many threads there are, and the ticks of its lines.
use pungoo.Common.{
  ℕ, zero, suc, ap, done, Ends, ◌+◌, ◌%◌, ◌<◌, ◌≤◌, ◌≡◌, ◌∙◌, refl, Option, none, some, arith, ltb,
  ltb→lt, List, [], ◌∷◌, length, length-set, get_elem?, inl, inr, Bool-cases,
}
use pungoo.Common.Int.{ℤ, pos_part}
use pungoo.Clib.Bytes.{Bytes}
use pungoo.Server.{
  thread_num, ids, int64_mod, Redis, Phase, starting, sending, counting, Thread, Process, nodes,
  call_of, thread_step, scheduled, watch, Event, run, created, started, server, server2,
}
use pungoo.Server.Counted.{all_pending-le-length, run_keeps, run-Counted}

-- The clock of main, and the ticks that its lines divide by.
abbrev pub AllPositive : List (ℕ × ℕ) → Type 0
AllPositive [] = Unit
AllPositive (l ∷ r) = (0 < l.1) × AllPositive r

-- The threads stay as many as they were, and main's clock and lines are as they should be.
record Timed (n : ℕ) (m : Process) : Type 0 where
  size : length m.threads ≡ n
  order : m.start_time ≤ m.last_time
  ticks : AllPositive m.lines

module _ (r : Redis) (ttl n : ℕ) where
  thread_step-Timed :
      (i : ℕ) (t : Thread) (p : Phase) (m : Process)
      → Timed n m
      → Timed n (thread_step r ttl i t p m)
  unfolding thread_step
  thread_step-Timed i t starting m c = elim (Bool-cases (r.connects nodes)) [
    | inl ok ↦
        rw ok
          (record { size = length-set m.threads i _ ∙ c.size; order = c.order; ticks = c.ticks })
    | inr bad ↦ rw bad (record { size = c.size; order = c.order; ticks = c.ticks })
  ]
  thread_step-Timed i t sending m c =
      elim (Bool-cases (r.sets m.calls (call_of ttl t.tid (t.count + 1)))) [
        | inl ok ↦
            rw ok (record {
              size = length-set m.threads i _ ∙ c.size;
              order = c.order;
              ticks = c.ticks;
            })
        | inr bad ↦ rw bad (record { size = c.size; order = c.order; ticks = c.ticks })
      ]
  thread_step-Timed i t counting m c = record {
    size = length-set m.threads i _ ∙ c.size;
    order = c.order;
    ticks = c.ticks;
  }

  scheduled-Timed :
      (i : ℕ) (o : Option Thread) (m : Process)
      → get_elem? m.threads i ≡ o
      → Timed n m
      → Timed n (scheduled r ttl i o m)
  unfolding scheduled
  scheduled-Timed i none m e c = c
  scheduled-Timed i (some t) m e c = thread_step-Timed i t t.phase m c

  watch-Timed : (now later : ℕ) (m : Process) → Timed n m → Timed n (watch now later m)
  unfolding watch
  watch-Timed now later m c = elim (Bool-cases (ltb m.last_time now)) [
    | inl e ↦
        let after = ltb→lt _ _ e in
        let order = c.order in
        rw e (record { size = c.size; order = omega arith; ticks = (omega arith, c.ticks) })
    | inr e ↦ rw e c
  ]

created_size : (tids : List ℕ) → length (created tids) ≡ length tids
created_size [] = refl
created_size (tid ∷ rest) = omega (arith, created_size rest)

run-Timed :
    (r : Redis) (ttl : ℕ) (tids : List ℕ) (garbage now : ℕ) (events : List Event)
    → Timed (length tids) (run r ttl events (started tids garbage now))
run-Timed r ttl tids garbage now events =
    run_keeps r ttl (Timed (length tids)) (scheduled-Timed r ttl (length tids))
      (watch-Timed r ttl (length tids)) events (started tids garbage now)
      (record { size = created_size tids; order = omega arith; ticks = tt })

-- The count of a process with n threads stands for the calls that have returned, but for those that
-- a thread is still to count.
abbrev pub CountsCalls : ℕ → ℕ → Process → Type 0
CountsCalls n garbage m =
    (increments : ℕ) × (m.info_count ≡ (garbage + increments) % int64_mod)
    × (increments ≤ length m.calls)
    × (length m.calls ≤ increments + n)

run-CountsCalls :
    (r : Redis) (ttl : ℕ) (tids : List ℕ) (garbage now : ℕ) (events : List Event)
    → garbage < int64_mod
    → CountsCalls (length tids) garbage (run r ttl events (started tids garbage now))
run-CountsCalls r ttl tids garbage now events h =
    let c = run-Counted r ttl tids garbage now events h in
    let t = run-Timed r ttl tids garbage now events in
    let few = all_pending-le-length (run r ttl events (started tids garbage now)).threads in
    (c.increments, c.shown, omega (arith, c.made), omega (arith, c.made, t.size))

ids_size : (n : ℕ) (tids : ℕ → ℕ) → length (ids n tids) ≡ n
ids_size zero tids = refl
ids_size (suc n) tids = ap suc (ids_size n tids)

-- In both server programs, where the first argument, if there is one, gives a number of threads that
-- is an int: however the threads and main take turns, and wherever a call of the client throws, the
-- count is its first value and a number of increments, modulo 2 ^ 64; this number is at most that of
-- the calls of setex that have returned, and at least that less the number of the threads.
pub server_counts :
    (r : Redis) (argv : List Bytes) (tids : ℕ → ℕ) (garbage now : ℕ) (events : List Event) (n : ℤ)
    → thread_num argv ≡ done n
    → garbage < int64_mod
    → Ends (CountsCalls (pos_part n) garbage) (server r argv tids garbage now events)
      × Ends (CountsCalls (pos_part n) garbage) (server2 r argv tids garbage now events)
unfolding server server2
server_counts r argv tids garbage now events n args h = (rw args (at_most 1), rw args (at_most 20))
  where
    at_most :
        (ttl : ℕ)
        → CountsCalls
            (pos_part n)
            garbage
            (run r ttl events (started (ids (pos_part n) tids) garbage now))
    at_most ttl =
        let size = ids_size (pos_part n) tids in
        let (increments, shown, low, high) =
          run-CountsCalls r ttl (ids (pos_part n) tids) garbage now events h in
        (increments, shown, low, omega (arith, high, size))

-- In both server programs, under the same condition, where the second reading of the clock in a round
-- of main is no earlier than the first one, each line that main shows divides the count by a positive
-- number of seconds.
server_ticks :
    (r : Redis) (argv : List Bytes) (tids : ℕ → ℕ) (garbage now : ℕ) (events : List Event) (n : ℤ)
    → thread_num argv ≡ done n
    → Ends (λ m. AllPositive m.lines) (server r argv tids garbage now events)
      × Ends (λ m. AllPositive m.lines) (server2 r argv tids garbage now events)
unfolding server server2
server_ticks r argv tids garbage now events n args = (
  rw args (run-Timed r 1 (ids (pos_part n) tids) garbage now events).ticks,
  rw args (run-Timed r 20 (ids (pos_part n) tids) garbage now events).ticks,
)
