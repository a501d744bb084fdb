-- ===== src/Tcp/Resend.antt =====
-- What a round of `unacked_sender` of tcp.cpp sends of the bytes that wait.
use mathlib.Core.Option
use myip.Base.{ℕ, ◌+◌, ◌≡◌, true, false, Option, none, some, List, [], ◌∷◌, ◌++◌, ◌==◌, length, u32}
use myip.Tcp.State.{TcpSession, Event, sent}

-- A receiver of segments: it expects the number `q`, appends what continues there, and gives up on
-- any other segment.
pub reassemble : ℕ → List Event → Option (List ℕ)
reassemble q [] = some []
reassemble q (sent g ∷ log) = elim g.seq [
  | none ↦ none
  | some x ↦ elim (x == q) [
    | true ↦ Option.map (λ t. g.content ++ t) (reassemble (u32 (q + length g.content)) log)
    | false ↦ none
  ]
]
reassemble q (_ ∷ log) = none

-- The loop ends, and a receiver that expects its first number gets the bytes from `i` to the stop.
record Resent (q : ℕ) (want : List ℕ) (unacked : List ℕ) (result : Option (TcpSession × List Event))
    : Type 0 where
  final : TcpSession
  log : List Event
  ends : result ≡ some (final, log)
  stream : reassemble q log ≡ some want
  kept : final.unacked ≡ unacked
