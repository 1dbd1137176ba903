-- ===== src/Sendstring/Sound.antt =====
-- What a process of amqp_sendstring.cpp that has its texts keeps, whatever the library does.
use pungoo.Common.{
  ℕ, ◌+◌, ◌%◌, ◌<◌, ◌≡◌, ◌∙◌, ◌⊎◌, inl, inr, refl, arith, Option, none, some, List, [], ◌∷◌, length,
  get_elem?, ltb, Ends, All, All-set, All-weaken, All-get_elem?, total, total-set, length-set,
  Bool-cases,
}
use pungoo.Common.Int.{pos}
use pungoo.Clib.Bytes.{Bytes}
use pungoo.Server.{int64_mod, interlocked_add64, Event, thread, main}
use pungoo.Amqp.{Message, Rabbit}
use pungoo.Sendstring.{
  Settings, sending, counting, Sender, Sending, sender_step, turn, happen, show, advance,
}
use pungoo.Sendstring.Turns.{pending, sender_step_at}
use pungoo.Sendstring.Named.{IsGiven, IsNamed, message-defined, done-IsNamed}
use pungoo.Sendstring.Runs.{advance-Ends}

-- The process runs and has said nothing, or has ended with 1 and one line on stderr.
abbrev pub EndsOnce : Sending → Type 0
EndsOnce m =
    ((m.exited ≡ none) × (m.stderr ≡ [])) ⊎ ((m.exited ≡ some (pos 1)) × (length m.stderr ≡ 1))

abbrev pub pends : Sender → ℕ
pends t = pending t.place

idle_at : (t : Sender) → t.place ≡ sending → pends t ≡ 0
idle_at t e = rw e refl

counts_at : (t : Sender) → t.place ≡ counting → pends t ≡ 1
counts_at t e = rw e refl

-- The count, the number of threads, the room that each int idx has, the names and the end.
pub record Sound (key exchange : Bytes) (garbage n : ℕ) (rest : List Event) (m : Sending)
    : Type 0 where
  pub increments : ℕ
  pub shown : m.info_count ≡ (garbage + increments) % int64_mod
  pub made : increments + total pends m.senders ≡ length m.sent
  pub size : length m.senders ≡ n
  pub room : All (λ (t : Sender). t.idx + length rest < 2147483648) m.senders
  pub named : All (λ (x : ℕ × Message). IsNamed key exchange x.1) m.sent
  pub once : EndsOnce m

module _ (r : Rabbit) (g : Settings) (key exchange : Bytes) (given : IsGiven r key exchange g)
    (garbage n : ℕ) where
  abbrev Keeps : List Event → Sending → Type 0
  Keeps = Sound key exchange garbage n

  idle : (e : Event) (rest : List Event) (m : Sending) → Keeps (e ∷ rest) m → Keeps rest m
  idle e rest m s = record {
    increments = s.increments;
    shown = s.shown;
    made = s.made;
    size = s.size;
    room = All-weaken _ _ m.senders s.room (λ t h. omega arith);
    named = s.named;
    once = s.once;
  }

  line_once : (m : Sending) (line : Bytes) → m.exited ≡ none → EndsOnce m → length m.stderr ≡ 0
  line_once m line e (inl (runs, quiet)) = rw quiet refl
  line_once m line e (inr (ended, said)) = cc

  shown_once : (m : Sending) → m.exited ≡ none → EndsOnce m → m.stderr ≡ []
  shown_once m e (inl (runs, quiet)) = quiet
  shown_once m e (inr (ended, said)) = cc

  turn-Sound :
      (i : ℕ) (t : Sender) (e : Event) (rest : List Event) (m : Sending)
      → get_elem? m.senders i ≡ some t
      → m.exited ≡ none
      → Keeps (e ∷ rest) m
      → Ends (Keeps rest) (sender_step r g i t t.place m)
  unfolding interlocked_add64
  turn-Sound i t e rest m at runs s =
      elim (sender_step_at r g i t m (Keeps rest)
        (λ ill calls line. record {
          increments = s.increments;
          shown = s.shown;
          made = s.made;
          size = s.size;
          room = later.room;
          named = s.named;
          once = inr (refl, omega (arith, line_once m line runs s.once));
        })
        (λ q calls free still up. record {
          increments = s.increments;
          shown = s.shown;
          made = omega (
            arith,
            total-set pends m.senders i t (record t { place = q }) at,
            free,
            still,
            s.made,
          );
          size = length-set m.senders i _ ∙ s.size;
          room = All-set _ m.senders i _ later.room (All-get_elem? _ m.senders i t later.room at);
          named = s.named;
          once = s.once;
        })
        (λ x calls place defined. record {
          increments = s.increments;
          shown = s.shown;
          made = omega (
            arith,
            total-set pends m.senders i t (record { idx = t.idx + 1; place = counting }) at,
            idle_at t place,
            s.made,
          );
          size = length-set m.senders i _ ∙ s.size;
          room = All-set _ m.senders i _ later.room (omega (arith, has_room));
          named = (
            done-IsNamed r key exchange g (t.idx + 1) given (omega (arith, has_room)) x defined,
            s.named,
          );
          once = s.once;
        })
        (λ place. record {
          increments = s.increments + 1;
          shown = omega (arith, s.shown);
          made = omega (
            arith,
            total-set pends m.senders i t (record t { place = sending }) at,
            counts_at t place,
            s.made,
          );
          size = length-set m.senders i _ ∙ s.size;
          room = All-set _ m.senders i _ later.room (All-get_elem? _ m.senders i t later.room at);
          named = s.named;
          once = s.once;
        })
        t.place refl) [
          | inl (place, bad) ↦
              absurd
                (message-defined r key exchange g (t.idx + 1) given (omega (arith, has_room)) bad)
          | inr keeps ↦ keeps
        ]
    where
      later : Keeps rest m
      later = idle e rest m s

      has_room : t.idx + length (e ∷ rest) < 2147483648
      has_room =
          All-get_elem? (λ (u : Sender). u.idx + length (e ∷ rest) < 2147483648) m.senders i t
            s.room at

  scheduled-Sound :
      (i : ℕ) (o : Option Sender) (e : Event) (rest : List Event) (m : Sending)
      → get_elem? m.senders i ≡ o
      → m.exited ≡ none
      → Keeps (e ∷ rest) m
      → Ends (Keeps rest) (turn r g i o m)
  unfolding turn
  scheduled-Sound i none e rest m at runs s = idle e rest m s
  scheduled-Sound i (some t) e rest m at runs s = turn-Sound i t e rest m at runs s

  show-Sound :
      (now later : ℕ) (rest : List Event) (m : Sending)
      → Keeps rest m
      → Keeps rest (show now later m)
  unfolding show
  show-Sound now later rest m s = elim (Bool-cases (ltb m.last_time now)) [
    | inl e ↦ rw e (record {
      increments = s.increments;
      shown = s.shown;
      made = s.made;
      size = s.size;
      room = s.room;
      named = s.named;
      once = s.once;
    })
    | inr e ↦ rw e s
  ]

  happen-Sound :
      (e : Event) (rest : List Event) (m : Sending)
      → m.exited ≡ none
      → Keeps (e ∷ rest) m
      → Ends (Keeps rest) (happen r g e m)
  unfolding happen
  happen-Sound (thread i) rest m runs s =
      scheduled-Sound i (get_elem? m.senders i) (thread i) rest m refl runs s
  happen-Sound (main now later) rest m runs s =
      show-Sound now later rest m (idle (main now later) rest m s)

  pub advance-Sound :
      (events : List Event) (m : Sending) → Keeps events m → Ends (Keeps []) (advance r g events m)
  advance-Sound = advance-Ends r g Keeps happen-Sound (λ e rest m status over s. idle e rest m s)
