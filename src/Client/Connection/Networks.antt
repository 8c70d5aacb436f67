-- ===== src/Client/Connection/Networks.antt =====
-- The loop of `sendWithRetry` over a network that is known one attempt at a time.
use sc4051_dist_system_proj.Prelude.{
  ℕ, zero, suc, ◌+◌, ◌≤◌, ◌≡◌, refl, ap, ◌∙◌, [], ◌∷◌, Bytes, Bool, not, ltb, ◌==◌, if◌then◌else◌,
  arith,
}
use sc4051_dist_system_proj.Prelude.Int.{to_word}
use sc4051_dist_system_proj.RequestMessage.{RequestMessage}
use sc4051_dist_system_proj.Client
use sc4051_dist_system_proj.Client.{
  Client, Network, Attempt, Reception, failed, datagram, Outcome, returned, exited,
  null_dereference, packet, buffer_size,
}

abbrev pub from : ℕ → Attempt → Network → Network
from attempt now later n = if n == attempt then now else later n

from_later :
    (first attempt : ℕ) (now : Attempt) (net : Network)
    → suc first ≤ attempt
    → from first now net attempt ≡ net attempt
from_later first attempt now net h = ground arith

from_here : (n : ℕ) (now : Attempt) (net : Network) → from n now net n ≡ now
from_here n now net = ground arith

-- A round of the loop, when the rest of it is known.
abbrev pub turn : Bool × Client → Outcome Bytes → Outcome Bytes × Client → Outcome Bytes × Client
turn (goes_on, a) response rest = if not goes_on then (exited, a) else elim response [
  | returned [] ↦ rest
  | returned (x ∷ text) ↦ (returned (x ∷ text), a)
  | exited ↦ (exited, a)
  | null_dereference ↦ (null_dereference, a)
]

abbrev pub now_sent : RequestMessage → ℕ → Attempt → Client → Bool × Client
now_sent request attempt now a = Client.send_request request (ltb 0 attempt) now.send_succeeds a

abbrev pub turn_at :
    RequestMessage
    → ℕ
    → Attempt
    → (Client → Outcome Bytes × Client)
    → Client
    → Outcome Bytes × Client
turn_at request attempt now next a =
    turn (now_sent request attempt now a)
      (Client.receive_response (to_word 0x8000_0000 request.request_id) now.reception)
      (next (now_sent request attempt now a).1)

loop-turn :
    (left attempt : ℕ) (request : RequestMessage) (net : Network) (a : Client)
    → Client.retry_loop (suc left) attempt request net a
      ≡ turn_at request attempt (net attempt) (Client.retry_loop left (attempt + 1) request net) a
unfolding Client.retry_loop
loop-turn left attempt request net a = refl

-- The loop looks at no attempt before its own.
later_only :
    (left attempt first : ℕ) (now : Attempt) (request : RequestMessage) (net : Network) (a : Client)
    → suc first ≤ attempt
    → Client.retry_loop left attempt request (from first now net) a
      ≡ Client.retry_loop left attempt request net a
unfolding Client.retry_loop
later_only zero attempt first now request net a h = refl
later_only (suc left) attempt first now request net a h =
    ap
      (λ n.
        turn_at request attempt n
          (Client.retry_loop left (attempt + 1) request (from first now net)) a)
      (from_later first attempt now net h)
    ∙ ap
        (turn (now_sent request attempt (net attempt) a) (
          Client.receive_response (to_word 0x8000_0000 request.request_id) (net attempt).reception))
        (later_only left (attempt + 1) first now request net
          (now_sent request attempt (net attempt) a).1 (omega arith))

-- The first attempt of a loop is in front of the later ones.
pub loop_from :
    (left attempt : ℕ) (request : RequestMessage) (now : Attempt) (later : Network) (a : Client)
    → Client.retry_loop (suc left) attempt request (from attempt now later) a
      ≡ turn_at request attempt now (Client.retry_loop left (attempt + 1) request later) a
loop_from left attempt request now later a =
    loop-turn left attempt request (from attempt now later) a
    ∙ ap
        (λ n.
          turn_at request attempt n
            (Client.retry_loop left (attempt + 1) request (from attempt now later)) a)
        (from_here attempt now later)
    ∙ ap
        (turn (now_sent request attempt now a)
          (Client.receive_response (to_word 0x8000_0000 request.request_id) now.reception))
        (later_only left (attempt + 1) attempt now request later (now_sent request attempt now a).1
          (omega arith))
