-- ===== src/Sendstring/Runs.antt =====
-- The rules for a run of amqp_sendstring.cpp, whose index is the list of the events to come.
use pungoo.Common.{
  ◌≡◌, refl, Option, none, some, List, [], ◌∷◌, Run, done, undefined, exhausted, ◌>>=◌, Ends,
  Ends-bind,
}
use pungoo.Common.Int.{ℤ}
use pungoo.Server.{Event}
use pungoo.Amqp.{Rabbit}
use pungoo.Sendstring.{Settings, Sending, happen, while_running, advance}

-- The code may run into undefined behaviour; a value has the property.
abbrev pub Unless {ℓ} : {A : Type ℓ} → (A → Type 0) → Run A → Type 0
Unless P (done a) = P a
Unless P undefined = Unit
Unless P exhausted = ⊥

module _ (r : Rabbit) (g : Settings) (P : List Event → Sending → Type 0) where
  while_running-Ends :
      (rest : List Event) (o : Option ℤ) (m : Sending) (next : Run Sending)
      → ((status : ℤ) → o ≡ some status → P rest m)
      → (o ≡ none → Ends (P rest) next)
      → Ends (P rest) (while_running o m next)
  unfolding while_running
  while_running-Ends rest none m next idle k = k refl
  while_running-Ends rest (some status) m next idle k = idle status refl

  -- What each event keeps holds at the end of the run, which has no undefined behaviour.
  pub advance-Ends :
      ((e : Event) (rest : List Event) (m : Sending)
        → m.exited ≡ none
        → P (e ∷ rest) m
        → Ends (P rest) (happen r g e m))
      → ((e : Event) (rest : List Event) (m : Sending) (status : ℤ)
          → m.exited ≡ some status
          → P (e ∷ rest) m
          → P rest m)
      → (events : List Event) (m : Sending) → P events m
      → Ends (P []) (advance r g events m)
  unfolding advance
  advance-Ends keeps idle [] m p = p
  advance-Ends keeps idle (e ∷ rest) m p =
      Ends-bind (P rest) (P []) (while_running m.exited m (happen r g e m)) _
        (while_running-Ends rest m.exited m _ (λ status over. idle e rest m status over p)
          λ runs. keeps e rest m runs p)
        λ m' q. advance-Ends keeps idle rest m' q

  running :
      (o : Option ℤ) (m : Sending) (next : Run Sending) → o ≡ none → while_running o m next ≡ next
  unfolding while_running
  running none m next e = refl
  running (some status) m next e = cc

  undefined_after :
      (x : Run Sending) (rest : Sending → Run Sending) (Q : Sending → Type 0)
      → Unless Q x
      → ((m : Sending) → Q m → rest m ≡ undefined)
      → (x >>= rest) ≡ undefined
  undefined_after (done m) rest Q q k = k m q
  undefined_after undefined rest Q q k = refl
  undefined_after exhausted rest Q q k = absurd q

  -- A process that each event keeps from an end by exit() and from the end of the events comes to
  -- undefined behaviour.
  pub advance-undefined :
      ((e : Event) (rest : List Event) (m : Sending)
        → P (e ∷ rest) m
        → Unless (P rest) (happen r g e m))
      → ((events : List Event) (m : Sending) → P events m → m.exited ≡ none)
      → ((m : Sending) → ¬ P [] m)
      → (events : List Event) (m : Sending) → P events m
      → advance r g events m ≡ undefined
  unfolding advance
  advance-undefined keeps runs never [] m p = absurd (never m p)
  advance-undefined keeps runs never (e ∷ rest) m p =
      rw (running m.exited m (happen r g e m) (runs (e ∷ rest) m p)) (
        undefined_after (happen r g e m) _ (P rest) (keeps e rest m p)
          λ m' q. advance-undefined keeps runs never rest m' q)
