-- ===== src/SendOne/Answers.antt =====
-- What amqp_sendstring.c asks of rabbitmq-c, and how far the library answers.
use pungoo.Common.{
  ℕ, zero, suc, ◌≤◌, ◌≡◌, ◌⊎◌, ap, true, none, some, List, [], ◌∷◌, drop, length, replicate,
}
use pungoo.Common.Int.{ℤ, pos}
use pungoo.Clib.Bytes.{Bytes, lit}
use pungoo.Amqp.{
  Message, Request, tcp_socket_new, socket_open, login, channel_open, basic_publish, Call, Rabbit,
  response_normal,
}
use pungoo.SendOne.{Session}

-- The library has done what the last call asked of it, where `calls` are the calls up to it.
abbrev pub Answered : Rabbit → Request → List Call → Type 0
Answered r tcp_socket_new calls = r.has_socket calls ≡ true
Answered r (socket_open host port) calls = r.open_status calls ≡ pos 0
Answered r (login vhost user password) calls = r.login_reply calls ≡ response_normal
Answered r channel_open calls = r.channel_reply calls ≡ response_normal
Answered r (basic_publish x) calls = (v : ℕ) × (r.publish_status calls ≡ pos v)

-- It has done so for each of the calls.
abbrev pub AllAnswered : Rabbit → List Call → Type 0
AllAnswered r [] = Unit {0}
AllAnswered r (c ∷ calls) = Answered r c.request (c ∷ calls) × AllAnswered r calls

abbrev pub call_for : Request → Call
call_for q = record { caller = 0; request = q }

-- The calls of a run that asks for a message `n` times, the last one first.
abbrev pub asked : Bytes → ℤ → Message → ℕ → List Call
asked host port x zero =
    call_for channel_open
    ∷ call_for (login (lit "perf") (lit "admin") (lit "admin"))
    ∷ call_for (socket_open (some host) port)
    ∷ call_for tcp_socket_new
    ∷ []
asked host port x (suc n) = call_for (basic_publish x) ∷ asked host port x n

-- The calls of a run that ended, after `j` messages, at a call that the library refused.
pub record Refused (r : Rabbit) (host : Bytes) (port : ℤ) (x : Message) (j : ℕ) (s : Session)
    : Type 0 where
  pub request : Request
  pub before : List Call
  pub last : s.calls ≡ call_for request ∷ before
  pub skipped : ℕ
  pub in_order : s.calls ≡ drop skipped (asked host port x (suc j))
  pub refused : ¬ Answered r request (call_for request ∷ before)
  pub answered : AllAnswered r before

-- The library has done what each call asked, and has taken the message in each of k rounds; or it
-- refused a call, the first one that it did, and the program has ended there with exit status 1 and
-- one line on stderr, after at most k messages.
abbrev pub Delivered : Rabbit → Bytes → ℤ → Message → ℕ → Session → Type 0
Delivered r host port x k s =
    ((s.exited ≡ none)
      × (s.stderr ≡ [])
      × (s.sent ≡ replicate k x)
      × (s.calls ≡ asked host port x k)
      × AllAnswered r s.calls)
    ⊎ ((s.exited ≡ some (pos 1))
        × (length s.stderr ≡ 1)
        × (j : ℕ) × (j ≤ k)
        × (s.sent ≡ replicate j x)
        × Refused r host port x j s)

pub one_more :
    {before after : List Call} (q : Request)
    → before ≡ after
    → call_for q ∷ before ≡ call_for q ∷ after
one_more q e = ap (λ l. call_for q ∷ l) e
