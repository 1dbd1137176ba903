-- ===== src/Server/Tests.antt =====
-- The server with two threads, in one order of their turns.
use pungoo.Common.{
  ◌≡◌, refl, true, some, List, [], ◌∷◌, arith, length, ltb, ℕ, ◌+◌, none, Option, Run, done, Ends,
}
use pungoo.Common.Int.{ℤ, pos}
use pungoo.Clib.Bytes.{Bytes, lit}
use pungoo.Server.{thread_num, Process, Redis, Event, thread, main, server, server2}
use pungoo.Server.Shown.{CountsCalls, server_counts}

-- A cluster that takes three calls and fails at the fourth.
abbrev cluster : Redis
cluster = record { connects = λ n. true; sets = λ calls c. ltb (length calls) 3 }

abbrev turns : List Event
turns =
    thread 0
    ∷ thread 1
    ∷ thread 0
    ∷ thread 1
    ∷ thread 1
    ∷ main 8 1
    ∷ thread 1
    ∷ thread 0
    ∷ thread 0
    ∷ thread 1
    ∷ main 20 0
    ∷ []

abbrev arguments : List Bytes
arguments = lit "server" ∷ lit "2" ∷ []

abbrev tids : ℕ → ℕ
tids k = 11 + k

server_counts_example :
    Ends (CountsCalls 2 7) (server cluster arguments tids 7 5 turns)
    × Ends (CountsCalls 2 7) (server2 cluster arguments tids 7 5 turns)
unfolding thread_num
server_counts_example = server_counts cluster arguments tids 7 5 turns (pos 2) refl (omega arith)

shown_of : Run Process → List (ℕ × ℕ) × (ℕ × Option ℤ)
shown_of (done m) = (m.lines, (m.info_count, m.exited))
shown_of _ = ([], (0, none))

server_run : shown_of (server cluster arguments tids 7 5 turns) ≡ ((8, 4) ∷ [], (9, some (pos 1)))
unfolding server shown_of
server_run = refl
