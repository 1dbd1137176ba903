-- ===== src/Server/Counted.antt =====
-- What the count of the server counts, however its threads and main take turns.
use pungoo.Common.{
  ℕ, ◌+◌, ◌%◌, ◌<◌, ◌≤◌, ◌≡◌, refl, Option, none, some, arith, ltb, List, [], ◌∷◌, length,
  get_elem?, inl, inr, total, total-set, total-le-length, Bool-cases,
}
use pungoo.Common.Int.{ℤ}
use pungoo.Server.{
  int64_mod, Redis, Phase, starting, sending, counting, Thread, Process, nodes, call_of,
  thread_step, unless_exited, scheduled, watch, Event, thread, main, step, run, created, started,
}

unless_exited_keeps :
    (P : Process → Type 0) (o : Option ℤ) (m next : Process)
    → P m
    → P next
    → P (unless_exited o m next)
unfolding unless_exited
unless_exited_keeps P none m next p q = q
unless_exited_keeps P (some status) m next p q = p

-- What each turn of a thread and each round of main keep, the process keeps.
module _ (r : Redis) (ttl : ℕ) (P : Process → Type 0)
    (turns : (i : ℕ) (o : Option Thread) (m : Process)
      → get_elem? m.threads i ≡ o
      → P m
      → P (scheduled r ttl i o m))
    (rounds : (now later : ℕ) (m : Process) → P m → P (watch now later m)) where
  step_keeps : (e : Event) (m : Process) → P m → P (step r ttl e m)
  unfolding step
  step_keeps (thread i) m c =
      unless_exited_keeps P m.exited m _ c (turns i (get_elem? m.threads i) m refl c)
  step_keeps (main now later) m c = unless_exited_keeps P m.exited m _ c (rounds now later m c)

  pub run_keeps : (events : List Event) (m : Process) → P m → P (run r ttl events m)
  unfolding run
  run_keeps [] m c = c
  run_keeps (e ∷ rest) m c = run_keeps rest (step r ttl e m) (step_keeps e m c)

-- A thread whose setex has returned and whose increment is still to come.
abbrev pending : Phase → ℕ
pending starting = 0
pending sending = 0
pending counting = 1

abbrev pends : Thread → ℕ
pends t = pending t.phase

abbrev pub all_pending : List Thread → ℕ
all_pending = total pends

pub all_pending-le-length : (ts : List Thread) → all_pending ts ≤ length ts
all_pending-le-length = total-le-length pends (λ t. at_most t.phase)
  where
    at_most : (p : Phase) → pending p ≤ 1
    at_most starting = omega arith
    at_most sending = omega arith
    at_most counting = omega arith

-- The increments so far, from the first value of the count, and the calls that they stand for.
pub record Counted (garbage : ℕ) (m : Process) : Type 0 where
  pub increments : ℕ
  pub shown : m.info_count ≡ (garbage + increments) % int64_mod
  pub made : increments + all_pending m.threads ≡ length m.calls

module _ (r : Redis) (ttl garbage : ℕ) where
  thread_step-Counted :
      (i : ℕ) (t : Thread) (p : Phase) (m : Process)
      → t.phase ≡ p
      → get_elem? m.threads i ≡ some t
      → Counted garbage m
      → Counted garbage (thread_step r ttl i t p m)
  unfolding thread_step
  thread_step-Counted i t starting m f e c =
      let same : pending t.phase ≡ 0 = rw f refl in
      elim (Bool-cases (r.connects nodes)) [
        | inl ok ↦ rw ok (record {
          increments = c.increments;
          shown = c.shown;
          made =
              omega (arith, total-set pends m.threads i t (record t { phase = sending }) e, c.made);
        })
        | inr bad ↦ rw bad (record { increments = c.increments; shown = c.shown; made = c.made })
      ]
  thread_step-Counted i t sending m f e c =
      let same : pending t.phase ≡ 0 = rw f refl in
      elim (Bool-cases (r.sets m.calls (call_of ttl t.tid (t.count + 1)))) [
        | inl ok ↦ rw ok (record {
          increments = c.increments;
          shown = c.shown;
          made = omega (
            arith,
            total-set pends m.threads i t (record t { count = t.count + 1; phase = counting }) e,
            c.made,
          );
        })
        | inr bad ↦ rw bad (record { increments = c.increments; shown = c.shown; made = c.made })
      ]
  thread_step-Counted i t counting m f e c =
      let same : pending t.phase ≡ 1 = rw f refl in
      record {
        increments = c.increments + 1;
        shown = omega (arith, c.shown);
        made =
            omega (arith, total-set pends m.threads i t (record t { phase = sending }) e, c.made);
      }

  scheduled-Counted :
      (i : ℕ) (o : Option Thread) (m : Process)
      → get_elem? m.threads i ≡ o
      → Counted garbage m
      → Counted garbage (scheduled r ttl i o m)
  unfolding scheduled
  scheduled-Counted i none m e c = c
  scheduled-Counted i (some t) m e c = thread_step-Counted i t t.phase m refl e c

  watch-Counted :
      (now later : ℕ) (m : Process) → Counted garbage m → Counted garbage (watch now later m)
  unfolding watch
  watch-Counted now later m c = elim (Bool-cases (ltb m.last_time now)) [
    | inl e ↦ rw e (record { increments = c.increments; shown = c.shown; made = c.made })
    | inr e ↦ rw e (record { increments = c.increments; shown = c.shown; made = c.made })
  ]

created_pending : (tids : List ℕ) → all_pending (created tids) ≡ 0
created_pending [] = refl
created_pending (tid ∷ rest) = omega (arith, created_pending rest)

pub run-Counted :
    (r : Redis) (ttl : ℕ) (tids : List ℕ) (garbage now : ℕ) (events : List Event)
    → garbage < int64_mod
    → Counted garbage (run r ttl events (started tids garbage now))
run-Counted r ttl tids garbage now events h =
    run_keeps r ttl (Counted garbage) (scheduled-Counted r ttl garbage)
      (watch-Counted r ttl garbage) events (started tids garbage now)
      (record { increments = 0; shown = omega arith; made = omega (arith, created_pending tids) })
