-- ===== src/Sendstring/Turns.antt =====
-- What a turn of a thread of amqp_sendstring.cpp can come to, and the rules for a run of the program.
use pungoo.Common.{
  ℕ, ◌+◌, ◌%◌, ◌≤◌, ◌≡◌, ◌⊎◌, inl, inr, refl, true, false, Option, none, some, List, ◌∷◌, ltb, set,
  done, undefined, ◌>>=◌, Ends, Bool-cases, arith,
}
use pungoo.Common.Int.{ℤ, pos, negsuc, eqb_ℤ}
use pungoo.Clib.Bytes.{Bytes}
use pungoo.Disk.{or_undefined}
use pungoo.Server.{interlocked_add64}
use pungoo.Amqp.{
  IsHealthy, Message, Request, tcp_socket_new, socket_open, Call, Rabbit, RpcReply, response_normal,
  response_none, library_exception, server_exception, die_on_amqp_error, die_on_error,
}
use pungoo.Sendstring.{
  Settings, Place, creating, opening, logging, asking, sending, counting, Sender, Sending, message,
  die_or, publish, sender_step,
}

-- A thread whose message is taken and whose increment is still to come.
abbrev pub pending : Place → ℕ
pending counting = 1
pending _ = 0

-- The turns that have brought a thread to a place, less two for each message.
abbrev pub stage : Place → ℕ
stage creating = 0
stage opening = 1
stage logging = 2
stage asking = 3
stage sending = 4
stage counting = 3

pub stage_max : (p : Place) → stage p ≤ 4
stage_max creating = omega arith
stage_max opening = omega arith
stage_max logging = omega arith
stage_max asking = omega arith
stage_max sending = omega arith
stage_max counting = omega arith

pub message-cases :
    (r : Rabbit) (g : Settings) (n : ℕ)
    → (message r g n ≡ undefined) ⊎ ((x : Message) × (message r g n ≡ done x))
unfolding message
message-cases r g n = elim (Bool-cases (ltb n 2147483648)) [
  | inl small ↦ rw small (named _ g.routingkey (r.long_of_int (n % 10000)) g.exchange)
  | inr large ↦ inl (rw large refl)
]
  where
    named :
        (f : Bytes → ℤ → Bytes → Message) (key : Option Bytes) (l : Option ℤ)
        (exchange : Option Bytes)
        → let made = or_undefined key >>= λ k.
            or_undefined l >>= λ n. or_undefined exchange >>= λ x. done (f k n x) in
          (made ≡ undefined) ⊎ ((x : Message) × (made ≡ done x))
    named f none l exchange = inl refl
    named f (some k) none exchange = inl refl
    named f (some k) (some n) none = inl refl
    named f (some k) (some n) (some x) = inr (_, refl)

not_zero : (x : ℤ) → eqb_ℤ x (pos 0) ≡ false → x ≡ pos 0 → ⊥
not_zero x bad e = let zero : eqb_ℤ x (pos 0) ≡ true = rw e refl in cc

-- What a process is after a turn of the thread `t`, which has the number `i`.
module _ (r : Rabbit) (g : Settings) (i : ℕ) (t : Sender) (m : Sending) (Q : Sending → Type 0)
    (died : ¬ IsHealthy r
      → (calls : List Call) (line : Bytes)
      → Q (record m { calls = calls; stderr = line ∷ m.stderr; exited = some (pos 1) }))
    (moved : (q : Place) (calls : List Call)
      → pending t.place ≡ 0
      → pending q ≡ 0
      → stage q ≡ stage t.place + 1
      → Q (record m { calls = calls; senders = set m.senders i (record t { place = q }) }))
    (delivered : (x : Message) (calls : List Call)
      → t.place ≡ sending
      → message r g (t.idx + 1) ≡ done x
      → Q (record m {
        calls = calls;
        senders = set m.senders i (record { idx = t.idx + 1; place = counting });
        sent = (i, x) ∷ m.sent;
      }))
    (counted : t.place ≡ counting
      → Q (record m {
        info_count = interlocked_add64 1 m.info_count;
        senders = set m.senders i (record t { place = sending });
      })) where
  replied :
      (x : RpcReply) (context : Bytes) (m' next : Sending)
      → (x ≡ response_normal → Q next)
      → ((x ≡ response_normal → ⊥)
          → (line : Bytes) → Q (record m' { stderr = line ∷ m'.stderr; exited = some (pos 1) }))
      → Q (die_or (die_on_amqp_error r x context) m' next)
  unfolding die_or die_on_amqp_error
  replied response_normal context m' next k d = k refl
  replied response_none context m' next k d = d (λ e. cc) _
  replied (library_exception e) context m' next k d = d (λ e. cc) _
  replied (server_exception c) context m' next k d = d (λ e. cc) _

  answered :
      (x : ℤ) (context : Bytes) (m' next : Sending)
      → Q next
      → ((x ≡ pos 0 → ⊥)
          → (line : Bytes) → Q (record m' { stderr = line ∷ m'.stderr; exited = some (pos 1) }))
      → Q (die_or (die_on_error r x context) m' next)
  unfolding die_or die_on_error
  answered (pos n) context m' next k d = k
  answered (negsuc n) context m' next k d = d (λ e. cc) _

  ended :
      (line : Bytes) (m' : Sending)
      → Q (record m' { stderr = line ∷ m'.stderr; exited = some (pos 1) })
      → Q (die_or (some line) m' m')
  unfolding die_or
  ended line m' q = q

  abbrev asks : Request → List Call
  asks q = record { caller = i; request = q } ∷ m.calls

  pub sender_step_at :
      (p : Place)
      → t.place ≡ p
      → ((t.place ≡ sending) × (message r g (t.idx + 1) ≡ undefined))
        ⊎ Ends Q (sender_step r g i t p m)
  unfolding sender_step publish
  sender_step_at creating e = inr (elim (Bool-cases (r.has_socket (asks tcp_socket_new))) [
    | inl ok ↦ rw ok (moved opening _ (rw e refl) refl (rw e refl))
    | inr bad ↦ rw bad (ended _ _ (died (λ h. let o = h.socket (asks tcp_socket_new) in cc) _ _))
  ])
  sender_step_at opening e =
      inr
        (elim (Bool-cases (eqb_ℤ (r.open_status (asks (socket_open g.hostname g.port))) (pos 0))) [
          | inl ok ↦ rw ok (moved logging _ (rw e refl) refl (rw e refl))
          | inr bad ↦ rw bad (
              ended _ _
                (died (λ h. not_zero _ bad (h.opened (asks (socket_open g.hostname g.port)))) _ _))
        ])
  sender_step_at logging e = inr (
      replied _ _ _ _ (λ ok. moved asking _ (rw e refl) refl (rw e refl))
        λ bad line. died (λ h. bad (h.logged_in _)) _ _)
  sender_step_at asking e = inr (
      replied _ _ _ _ (λ ok. moved sending _ (rw e refl) refl (rw e refl))
        λ bad line. died (λ h. bad (h.channel _)) _ _)
  sender_step_at sending e = elim (message-cases r g (t.idx + 1)) [
    | inl bad ↦ inl (e, bad)
    | inr (x, ok) ↦ inr (
        rw ok
          (answered _ _ _ _ (delivered x _ e ok) λ bad line. died (λ h. bad (h.published _)) _ _))
  ]
  sender_step_at counting e = inr (counted e)
