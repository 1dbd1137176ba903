-- ===== src/Sendstring/Progress.antt =====
-- How far a thread of amqp_sendstring.cpp comes in its turns while the library does what it is asked.
use pungoo.Common.{
  ℕ, suc, ◌+◌, ◌*◌, ◌<◌, ◌≤◌, ◌≡◌, ◌≢◌, ◌∙◌, ap, sym, inl, inr, refl, arith, Option, none, some,
  List, [], ◌∷◌, length, get_elem?, set, ltb, Ends, All, All-set, All-weaken, All-get_elem?,
  get_elem?-set, get_elem?-set_other, Bool-cases,
}
use pungoo.Common.Int.{ℤ}
use pungoo.Clib.Bytes.{Bytes}
use pungoo.Server.{Event, thread, main}
use pungoo.Amqp.{IsHealthy, Rabbit}
use pungoo.Sendstring.{
  Settings, Place, sending, counting, Sender, Sending, turn, sender_step, happen, show, advance,
}
use pungoo.Sendstring.Turns.{stage, sender_step_at}
use pungoo.Sendstring.Tallies.{turns, turns_own, turns_other, sent_by, sent_by_own, sent_by_other}
use pungoo.Sendstring.Named.{IsGiven, message-defined}
use pungoo.Sendstring.Runs.{advance-Ends}
use native.Mathlib.Decide.{ℕ_discrete}

-- The turns that have brought a thread where it is.
abbrev pub rank : Sender → ℕ
rank t = stage t.place + 2 * t.idx

-- The process runs, and the thread `i` is where its turns have brought it: `whole` in all.
pub record Progress (i whole : ℕ) (rest : List Event) (m : Sending) : Type 0 where
  pub runs : m.exited ≡ none
  pub sender : Sender
  pub stands : get_elem? m.senders i ≡ some sender
  pub due : rank sender + turns i rest ≡ whole
  pub taken : sent_by i m.sent ≡ sender.idx
  pub room : All (λ (t : Sender). t.idx + length rest < 2147483648) m.senders

-- A turn of the thread `j`, from `t` to `u`.
Progress-turn :
    (i whole j : ℕ) (t u : Sender) (rest : List Event) (m m' : Sending)
    → get_elem? m.senders j ≡ some t
    → m'.senders ≡ set m.senders j u
    → m'.exited ≡ none
    → rank u ≡ suc (rank t)
    → u.idx ≤ t.idx + 1
    → ((k : ℕ) → k ≢ j → sent_by k m'.sent ≡ sent_by k m.sent)
    → sent_by j m'.sent + t.idx ≡ sent_by j m.sent + u.idx
    → Progress i whole (thread j ∷ rest) m
    → Progress i whole rest m'
Progress-turn i whole j t u rest m m' at to runs up small others own p = elim (ℕ_discrete i j) [
  | yes same ↦ record {
    runs = runs;
    sender = u;
    stands = rw (to, same) (get_elem?-set m.senders j t u at);
    due = omega (arith, up, same_rank same, turns_own i j rest same, p.due);
    taken = omega (arith, own_of same);
    room = all_room;
  }
  | no apart ↦ record {
    runs = runs;
    sender = p.sender;
    stands = rw (to, get_elem?-set_other m.senders j i u (λ e. apart (sym e))) p.stands;
    due = omega (arith, turns_other i j rest apart, p.due);
    taken = others i apart ∙ p.taken;
    room = all_room;
  }
]
  where
    same_rank : i ≡ j → rank p.sender ≡ rank t
    same_rank same = let stands = p.stands in let one : p.sender ≡ t = cc in ap rank one

    own_of : i ≡ j → sent_by i m'.sent + t.idx ≡ t.idx + u.idx
    own_of same =
        let stands = p.stands in
        let one : p.sender ≡ t = cc in
        let sent : sent_by j m.sent ≡ t.idx =
          ap (λ (k : ℕ). sent_by k m.sent) (sym same)
          ∙ (p.taken ∙ ap (λ (v : Sender). v.idx) one) in
        rw same (omega (arith, own, sent))

    room_of : t.idx + length (thread j ∷ rest) < 2147483648
    room_of =
        All-get_elem? (λ (v : Sender). v.idx + length (thread j ∷ rest) < 2147483648) m.senders j t
          p.room at

    all_room : All (λ (v : Sender). v.idx + length rest < 2147483648) m'.senders
    all_room = rw to (
        All-set _ m.senders j u (All-weaken _ _ m.senders p.room (λ v h. omega arith))
          (omega (arith, room_of)))

module _ (r : Rabbit) (g : Settings) (key exchange : Bytes) (healthy : IsHealthy r)
    (given : IsGiven r key exchange g) (i whole : ℕ) where
  sender_step-Progress :
      (j : ℕ) (t : Sender) (rest : List Event) (m : Sending)
      → get_elem? m.senders j ≡ some t
      → Progress i whole (thread j ∷ rest) m
      → Ends (Progress i whole rest) (sender_step r g j t t.place m)
  sender_step-Progress j t rest m at p =
      elim (sender_step_at r g j t m (Progress i whole rest) (λ ill. absurd (ill healthy))
        (λ q calls free still up.
          Progress-turn i whole j t (record t { place = q }) rest m _ at refl p.runs
            (omega (arith, up)) (omega arith) (λ k apart. refl) refl p)
        (λ x calls place defined.
          Progress-turn i whole j t (record { idx = t.idx + 1; place = counting }) rest m _ at refl
            p.runs (omega (arith, stage_at place refl)) (omega arith)
            (λ k apart. sent_by_other k j x m.sent apart) (omega (arith, sent_by_own j x m.sent)) p)
        (λ place.
          Progress-turn i whole j t (record t { place = sending }) rest m _ at refl p.runs
            (omega (arith, stage_at place refl)) (omega arith) (λ k apart. refl) refl p)
        t.place refl) [
          | inl (place, bad) ↦
              absurd
                (message-defined r key exchange g (t.idx + 1) given (omega (arith, has_room)) bad)
          | inr keeps ↦ keeps
        ]
    where
      stage_at : {q : Place} → t.place ≡ q → {n : ℕ} → stage q ≡ n → stage t.place ≡ n
      stage_at e f = rw e f

      has_room : t.idx + length (thread j ∷ rest) < 2147483648
      has_room =
          All-get_elem? (λ (v : Sender). v.idx + length (thread j ∷ rest) < 2147483648) m.senders j
            t p.room at

  -- What is no turn of a thread leaves the process as it is.
  passed :
      (e : Event) (rest : List Event) (m : Sending)
      → turns i (e ∷ rest) ≡ turns i rest
      → Progress i whole (e ∷ rest) m
      → Progress i whole rest m
  passed e rest m same p = record {
    runs = p.runs;
    sender = p.sender;
    stands = p.stands;
    due = omega (arith, same, p.due);
    taken = p.taken;
    room = All-weaken _ _ m.senders p.room (λ t h. omega arith);
  }

  show-Progress :
      (now later : ℕ) (rest : List Event) (m : Sending)
      → Progress i whole rest m
      → Progress i whole rest (show now later m)
  unfolding show
  show-Progress now later rest m p = elim (Bool-cases (ltb m.last_time now)) [
    | inl e ↦ rw e (record {
      runs = p.runs;
      sender = p.sender;
      stands = p.stands;
      due = p.due;
      taken = p.taken;
      room = p.room;
    })
    | inr e ↦ rw e p
  ]

  turn-Progress :
      (j : ℕ) (o : Option Sender) (rest : List Event) (m : Sending)
      → get_elem? m.senders j ≡ o
      → Progress i whole (thread j ∷ rest) m
      → Ends (Progress i whole rest) (turn r g j o m)
  unfolding turn
  turn-Progress j none rest m at p =
      passed (thread j) rest m (turns_other i j rest (λ e. clash e p.stands)) p
    where
      clash : i ≡ j → get_elem? m.senders i ≡ some p.sender → ⊥
      clash e stands = cc
  turn-Progress j (some t) rest m at p = sender_step-Progress j t rest m at p

  happen-Progress :
      (e : Event) (rest : List Event) (m : Sending)
      → m.exited ≡ none
      → Progress i whole (e ∷ rest) m
      → Ends (Progress i whole rest) (happen r g e m)
  unfolding happen
  happen-Progress (thread j) rest m runs p = turn-Progress j (get_elem? m.senders j) rest m refl p
  happen-Progress (main now later) rest m runs p =
      show-Progress now later rest m (passed (main now later) rest m refl p)

  pub advance-Progress :
      (events : List Event) (m : Sending)
      → Progress i whole events m
      → Ends (Progress i whole []) (advance r g events m)
  advance-Progress =
      advance-Ends r g (Progress i whole) happen-Progress
        λ e rest m status over p. absurd (never m p over)
    where
      never :
          {rest : List Event} {status : ℤ} (m : Sending)
          → Progress i whole rest m
          → m.exited ≡ some status
          → ⊥
      never m p over = let runs = p.runs in cc
