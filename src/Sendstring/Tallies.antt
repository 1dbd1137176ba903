-- ===== src/Sendstring/Tallies.antt =====
-- The turns of a thread of amqp_sendstring.cpp among the events, and its messages.
use pungoo.Common.{ℕ, suc, ◌≡◌, ◌≢◌, arith, List, [], ◌∷◌, ◌==◌, if◌then◌else◌}
use pungoo.Server.{Event, thread, main}
use pungoo.Amqp.{Message}

-- The turns of a thread among the events.
abbrev pub turns : ℕ → List Event → ℕ
turns i [] = 0
turns i (thread j ∷ rest) = if i == j then suc (turns i rest) else turns i rest
turns i (main now later ∷ rest) = turns i rest

-- The messages of a thread.
abbrev pub sent_by : ℕ → List (ℕ × Message) → ℕ
sent_by i [] = 0
sent_by i ((j, x) ∷ rest) = if i == j then suc (sent_by i rest) else sent_by i rest

pub turns_own :
    (i j : ℕ) (rest : List Event) → i ≡ j → turns i (thread j ∷ rest) ≡ suc (turns i rest)
turns_own i j rest e = ground arith

pub turns_other : (i j : ℕ) (rest : List Event) → i ≢ j → turns i (thread j ∷ rest) ≡ turns i rest
turns_other i j rest e = ground arith

pub sent_by_own :
    (i : ℕ) (x : Message) (sent : List (ℕ × Message))
    → sent_by i ((i, x) ∷ sent) ≡ suc (sent_by i sent)
sent_by_own i x sent = ground arith

pub sent_by_other :
    (i j : ℕ) (x : Message) (sent : List (ℕ × Message))
    → i ≢ j
    → sent_by i ((j, x) ∷ sent) ≡ sent_by i sent
sent_by_other i j x sent e = ground arith
