-- ===== src/Sendstring/Starved.antt =====
-- Runs of amqp_sendstring.cpp that come to a message which can not be made.
use pungoo.Common.{
  ℕ, suc, ◌%◌, ◌+◌, ◌<◌, ◌≤◌, ◌≡◌, ◌⊎◌, ap, sym, inl, inr, refl, arith, Option, none, some, List,
  ◌∷◌, ltb, get_elem?, set, Run, done, undefined, exhausted, Ends, ◌>>=◌, get_elem?-set,
  get_elem?-set_other, replicate-get_elem?, Bool-cases,
}
use pungoo.Common.Int.{ℤ, pos_part}
use pungoo.Clib.Bytes.{Bytes}
use pungoo.Disk.{or_undefined}
use pungoo.Server.{Event, thread, main}
use pungoo.Amqp.{IsHealthy, LeavesInts, Message, Rabbit}
use pungoo.Sendstring.{
  Settings, Place, creating, sending, counting, Sender, Sending, message, sender_step, turn, happen,
  show, advance, launched,
}
use pungoo.Sendstring.Turns.{stage, stage_max, sender_step_at}
use pungoo.Sendstring.Tallies.{turns, turns_own, turns_other}
use pungoo.Sendstring.Runs.{Unless, advance-undefined}
use native.Mathlib.Decide.{ℕ_discrete}

-- No message can be made: a text of it is null, or the platform leaves its number undefined.
abbrev pub Starved : Rabbit → Settings → Type 0
Starved r g = (g.routingkey ≡ none) ⊎ ((g.exchange ≡ none) ⊎ LeavesInts r)

message-undefined : (r : Rabbit) (g : Settings) (n : ℕ) → Starved r g → message r g n ≡ undefined
unfolding message
message-undefined r g n null = elim (Bool-cases (ltb n 2147483648)) [
  | inl small ↦ rw small (starved _ g.routingkey (r.long_of_int (n % 10000)) g.exchange (at_n null))
  | inr large ↦ rw large refl
]
  where
    at_n :
        Starved r g
        → (g.routingkey ≡ none) ⊎ ((g.exchange ≡ none) ⊎ (r.long_of_int (n % 10000) ≡ none))
    at_n (inl e) = inl e
    at_n (inr (inl e)) = inr (inl e)
    at_n (inr (inr leaves)) = inr (inr (leaves (n % 10000)))

    starved :
        (f : Bytes → ℤ → Bytes → Message) (key : Option Bytes) (l : Option ℤ)
        (exchange : Option Bytes)
        → (key ≡ none) ⊎ ((exchange ≡ none) ⊎ (l ≡ none))
        → (or_undefined key >>= λ k.
            or_undefined l >>= λ m. or_undefined exchange >>= λ x. done (f k m x))
          ≡ undefined
    starved f none l exchange null = refl
    starved f (some k) none exchange null = refl
    starved f (some k) (some m) none null = refl
    starved f (some k) (some m) (some x) (inl e) = cc
    starved f (some k) (some m) (some x) (inr (inl e)) = cc
    starved f (some k) (some m) (some x) (inr (inr e)) = cc

-- The process runs, and the thread `i` is on its way to its first message, with the turns for it.
record Doomed (i : ℕ) (rest : List Event) (m : Sending) : Type 0 where
  runs : m.exited ≡ none
  sender : Sender
  stands : get_elem? m.senders i ≡ some sender
  due : 5 ≤ stage sender.place + turns i rest

Doomed-turn :
    (i j : ℕ) (t u : Sender) (rest : List Event) (m m' : Sending)
    → get_elem? m.senders j ≡ some t
    → m'.senders ≡ set m.senders j u
    → m'.exited ≡ none
    → stage u.place ≡ suc (stage t.place)
    → Doomed i (thread j ∷ rest) m
    → Doomed i rest m'
Doomed-turn i j t u rest m m' at to runs up d = elim (ℕ_discrete i j) [
  | yes same ↦ record {
    runs = runs;
    sender = u;
    stands = rw (to, same) (get_elem?-set m.senders j t u at);
    due = omega (arith, up, same_stage same, turns_own i j rest same, d.due);
  }
  | no apart ↦ record {
    runs = runs;
    sender = d.sender;
    stands = rw (to, get_elem?-set_other m.senders j i u (λ e. apart (sym e))) d.stands;
    due = omega (arith, turns_other i j rest apart, d.due);
  }
]
  where
    same_stage : i ≡ j → stage d.sender.place ≡ stage t.place
    same_stage same =
        let stands = d.stands in
        let one : d.sender ≡ t = cc in ap (λ (v : Sender). stage v.place) one

no_message :
    (r : Rabbit) (g : Settings) (j : ℕ) (t : Sender) (m : Sending) (p : Place)
    → p ≡ sending
    → message r g (t.idx + 1) ≡ undefined
    → sender_step r g j t p m ≡ undefined
unfolding sender_step
no_message r g j t m p e bad = rw (e, bad) refl

module _ (r : Rabbit) (g : Settings) (healthy : IsHealthy r) (null : Starved r g) (i : ℕ) where
  sender_step-Unless :
      (j : ℕ) (t : Sender) (rest : List Event) (m : Sending)
      → get_elem? m.senders j ≡ some t
      → Doomed i (thread j ∷ rest) m
      → Unless (Doomed i rest) (sender_step r g j t t.place m)
  sender_step-Unless j t rest m at d =
      elim (sender_step_at r g j t m (Doomed i rest) (λ ill. absurd (ill healthy))
        (λ q calls free still up.
          Doomed-turn i j t (record t { place = q }) rest m _ at refl d.runs (omega (arith, up)) d)
        (λ x calls place defined. absurd (never x defined))
        (λ place.
          Doomed-turn i j t (record t { place = sending }) rest m _ at refl d.runs
            (omega (arith, stage_at place)) d)
        t.place refl) [
          | inl (place, bad) ↦ rw (no_message r g j t m t.place place bad) tt
          | inr keeps ↦ Ends-Unless _ keeps
        ]
    where
      stage_at : t.place ≡ counting → stage t.place ≡ 3
      stage_at e = rw e refl

      never : (x : Message) → message r g (t.idx + 1) ≡ done x → ⊥
      never x e = let bad = message-undefined r g (t.idx + 1) null in cc

      Ends-Unless : (x : Run Sending) → Ends (Doomed i rest) x → Unless (Doomed i rest) x
      Ends-Unless (done y) p = p
      Ends-Unless undefined p = absurd p
      Ends-Unless exhausted p = absurd p

  turn-Unless :
      (j : ℕ) (o : Option Sender) (rest : List Event) (m : Sending)
      → get_elem? m.senders j ≡ o
      → Doomed i (thread j ∷ rest) m
      → Unless (Doomed i rest) (turn r g j o m)
  unfolding turn
  turn-Unless j none rest m at d = record {
    runs = d.runs;
    sender = d.sender;
    stands = d.stands;
    due = omega (arith, turns_other i j rest (λ e. clash e d.stands), d.due);
  }
    where
      clash : i ≡ j → get_elem? m.senders i ≡ some d.sender → ⊥
      clash e stands = cc
  turn-Unless j (some t) rest m at d = sender_step-Unless j t rest m at d

  happen-Unless :
      (e : Event) (rest : List Event) (m : Sending)
      → Doomed i (e ∷ rest) m
      → Unless (Doomed i rest) (happen r g e m)
  unfolding happen show
  happen-Unless (thread j) rest m d = turn-Unless j (get_elem? m.senders j) rest m refl d
  happen-Unless (main now later) rest m d = elim (Bool-cases (ltb m.last_time now)) [
    | inl e ↦ rw e (record { runs = d.runs; sender = d.sender; stands = d.stands; due = d.due })
    | inr e ↦ rw e (record { runs = d.runs; sender = d.sender; stands = d.stands; due = d.due })
  ]

  pub advance-Starved :
      (garbage now : ℕ) (events : List Event)
      → i < pos_part g.thread_num
      → 5 ≤ turns i events
      → advance r g events (launched g garbage now) ≡ undefined
  advance-Starved garbage now events made due =
      advance-undefined r g (Doomed i) happen-Unless (λ rest m d. d.runs)
        (λ m d. impossible (stage_max d.sender.place) d.due) events (launched g garbage now)
        (record {
          runs = refl;
          sender = record { idx = 0; place = creating };
          stands = replicate-get_elem? (pos_part g.thread_num) i _ made;
          due = omega arith;
        })
    where
      impossible : {n : ℕ} → n ≤ 4 → 5 ≤ n + 0 → ⊥
      impossible a b = omega arith
