-- ===== src/SendOne/Delivered.antt =====
-- What amqp_sendstring.c has published after the first rounds of its loop.
use pungoo.Common.{
  ℕ, zero, suc, ◌+◌, ◌≤◌, ◌≡◌, ap, inl, inr, refl, arith, Bool, true, false, none, some, List, [],
  ◌∷◌, drop, replicate, done, Ends,
}
use pungoo.Common.Int.{ℤ, pos, negsuc, eqb_ℤ}
use pungoo.Clib.Bytes.{Bytes}
use pungoo.Clib.Bytes.Numerals.{atoi}
use pungoo.Amqp.{
  Message, Request, tcp_socket_new, socket_open, channel_open, basic_publish, Rabbit, RpcReply,
  response_normal, response_none, library_exception, server_exception, die_on_amqp_error,
  die_on_error,
}
use pungoo.SendOne.{
  Session, ask, unless_dead, failed, publish_rounds, after_open, send, message_to, opened, main,
}
use pungoo.SendOne.Answers.{Answered, AllAnswered, call_for, asked, Delivered, one_more}

-- A session that runs, after `n` messages, with no refusal.
record Runs (r : Rabbit) (x : Message) (n : ℕ) (s : Session) : Type 0 where
  running : s.exited ≡ none
  quiet : s.stderr ≡ []
  taken : s.sent ≡ replicate n x
  answered : AllAnswered r s.calls

module _ (r : Rabbit) (host : Bytes) (port : ℤ) (x : Message) (k : ℕ) where
  -- A call, and what follows where the library does what it asks.
  module _ (q : Request) (n i : ℕ) (s next : Session) (m : Runs r x n s) (h : n ≤ k)
      (place : (ask q s).calls ≡ drop i (asked host port x (suc n)))
      (rest : Answered r q (ask q s).calls → Delivered r host port x k next) where
    ended :
        (line : Bytes)
        → ¬ Answered r q (ask q s).calls
        → Delivered r host port x k (unless_dead (some line) (ask q s) next)
    unfolding unless_dead
    ended line bad = inr (
      refl,
      rw m.quiet refl,
      n,
      h,
      m.taken,
      record {
        request = q;
        before = s.calls;
        last = refl;
        skipped = i;
        in_order = place;
        refused = bad;
        answered = m.answered;
      },
    )

    status_cases :
        (e : ℤ) (context : Bytes)
        → ((v : ℕ) → e ≡ pos v → Answered r q (ask q s).calls)
        → ((v : ℕ) → e ≡ negsuc v → ¬ Answered r q (ask q s).calls)
        → Delivered r host port x k (unless_dead (die_on_error r e context) (ask q s) next)
    unfolding die_on_error unless_dead
    status_cases (pos v) context good bad = rest (good v refl)
    status_cases (negsuc v) context good bad = ended _ (bad v refl)

    reply_cases :
        (e : RpcReply) (context : Bytes)
        → (e ≡ response_normal → Answered r q (ask q s).calls)
        → (¬ (e ≡ response_normal) → ¬ Answered r q (ask q s).calls)
        → Delivered r host port x k (unless_dead (die_on_amqp_error r e context) (ask q s) next)
    unfolding die_on_amqp_error unless_dead
    reply_cases response_normal context good bad = rest (good refl)
    reply_cases response_none context good bad = ended _ (bad λ e. cc)
    reply_cases (library_exception v) context good bad = ended _ (bad λ e. cc)
    reply_cases (server_exception v) context good bad = ended _ (bad λ e. cc)

    failed_cases :
        (ok : Bool) (line : Bytes)
        → (ok ≡ true → Answered r q (ask q s).calls)
        → (ok ≡ false → ¬ Answered r q (ask q s).calls)
        → Delivered r host port x k (unless_dead (failed ok line) (ask q s) next)
    unfolding unless_dead
    failed_cases true line good bad = rest (good refl)
    failed_cases false line good bad = ended line (bad refl)

  publish_rounds-Delivered :
      (left n : ℕ) (s : Session)
      → n + left ≡ k
      → s.calls ≡ asked host port x n
      → Runs r x n s
      → Delivered r host port x k (publish_rounds r x left s)
  unfolding publish_rounds
  publish_rounds-Delivered zero n s size calls m =
      let all : n ≡ k = omega arith in
      inl (m.running, m.quiet, rw (← all) m.taken, rw (← all) calls, m.answered)
  publish_rounds-Delivered (suc left) n s size calls m =
      status_cases (basic_publish x) n 0 s _ m (omega arith) (one_more _ calls)
        (λ good. publish_rounds-Delivered left (suc n) _ (omega arith) (one_more _ calls) (record {
          running = m.running;
          quiet = m.quiet;
          taken = ap (λ (l : List Message). x ∷ l) m.taken;
          answered = (good, m.answered);
        }))
        _ _ (λ v e. (v, e)) λ v e (w, f). cc

  after :
      (q : Request) (s : Session)
      → Runs r x 0 s
      → Answered r q (ask q s).calls
      → Runs r x 0 (ask q s)
  after q s m good = record {
    running = m.running;
    quiet = m.quiet;
    taken = m.taken;
    answered = (good, m.answered);
  }

  opened-Runs : Runs r x 0 opened
  opened-Runs = record { running = refl; quiet = refl; taken = refl; answered = tt }

  after_open-Delivered :
      (s : Session)
      → s.calls ≡ call_for (socket_open (some host) port) ∷ call_for tcp_socket_new ∷ []
      → Runs r x 0 s
      → Delivered r host port x k (after_open r x k s)
  unfolding after_open
  after_open-Delivered s calls m =
      reply_cases _ 0 2 s _ m (omega arith) (one_more _ calls)
        (λ in_login.
          reply_cases channel_open 0 1 _ _ (after _ s m in_login) (omega arith)
            (one_more _ (one_more _ calls))
            (λ in_channel.
              publish_rounds-Delivered k 0 _ (omega arith) (one_more _ (one_more _ calls))
                (after _ _ (after _ s m in_login) in_channel))
            _ _ (λ e. e) λ e. e)
        _ _ (λ e. e) λ e. e

  send-Delivered : Delivered r host port x k (send r host port x k opened)
  unfolding send
  send-Delivered =
      failed_cases tcp_socket_new 0 4 opened _ opened-Runs (omega arith) refl
        (λ made.
          failed_cases (socket_open (some host) port) 0 3 _ _ (after _ _ opened-Runs made)
            (omega arith) refl
            (λ in_open.
              after_open-Delivered _ refl (after _ _ (after _ _ opened-Runs made) in_open))
            _ _ (λ e. zero_status _ e) λ e f. not_zero _ e f)
        _ _ (λ e. e) λ e f. cc
    where
      not_zero : (e : ℤ) → eqb_ℤ e (pos 0) ≡ false → e ≡ pos 0 → ⊥
      not_zero e h f = let zero : eqb_ℤ e (pos 0) ≡ true = rw f refl in cc

      zero_status : (e : ℤ) → eqb_ℤ e (pos 0) ≡ true → e ≡ pos 0
      zero_status (pos v) h = ground arith
      zero_status (negsuc v) h = cc

-- amqp_sendstring.c with its five arguments, whose second one is a number that is an int, and k rounds
-- of its loop. Either the library has done what each call asked (there was a socket, it was opened,
-- the login, the channel and each publishing succeeded), it has taken the message of the last three
-- arguments k times, the calls are these in their order, and nothing stands on stderr. Or the program
-- has ended with exit status 1 and one line there, at the first of these calls that the library
-- refused, and the library has taken the message k times at most.
pub main-Delivered :
    (r : Rabbit) (name host port exchange key body : Bytes) (more : List Bytes) (p : ℤ) (k : ℕ)
    → atoi port ≡ done p
    → Ends
        (Delivered r host p (message_to exchange key body) k)
        (main r (name ∷ host ∷ port ∷ exchange ∷ key ∷ body ∷ more) k)
unfolding main
main-Delivered r name host port exchange key body more p k e =
    rw e (send-Delivered r host p (message_to exchange key body) k)
