-- ===== src/Client/Answers.antt =====
-- What `sendWithRetry` returns.
use sc4051_dist_system_proj.Prelude.{
  ℕ, zero, suc, ◌+◌, ◌≤◌, ◌<◌, ==_iff, ◌≡◌, ◌≢◌, refl, sym, ap, ◌∙◌, subst, [], ◌∷◌, ◌++◌, Bytes,
  true, ◌⊎◌, inl, inr, length, arith,
}
use sc4051_dist_system_proj.Prelude.Int.{to_word}
use sc4051_dist_system_proj.Parity.{verify_even_parity}
use sc4051_dist_system_proj.RequestMessage.{RequestMessage}
use sc4051_dist_system_proj.RequestMessage.RoundTrip.{IsMessage}
use sc4051_dist_system_proj.Client.{
  Client, Network, Attempt, datagram, returned, exited, null_dereference, packet, receive_response,
  retry_loop, send_with_retry, failure_text, buffer_size, max_retries,
}
use sc4051_dist_system_proj.Client.Round.{
  sent_once, expected_id, not_sent, silent, answered, null_packet, round, loop-not_sent,
  loop-silent, loop-answered, loop-null_packet,
}
use sc4051_dist_system_proj.Client.Receive.{
  IsReply, returned-inj, receive_response-IsReply, receive_response-packet, receive_response-null,
}

-- In this attempt the request goes out, and no reply to it is received.
pub record IsSilent (request : RequestMessage) (now : Attempt) : Type 0 where
  pub sends : now.send_succeeds ≡ true
  pub no_reply : receive_response (expected_id request) now.reception ≡ returned []

-- The attempts from `attempt` on, as many as `count`, are silent.
abbrev pub AreSilent : RequestMessage → Network → ℕ → ℕ → Type 0
AreSilent request net attempt count = (j : ℕ) → j < count → IsSilent request (net (attempt + j))

retry_loop-counts :
    {left left' attempt attempt' : ℕ} (request : RequestMessage) (net : Network) (c : Client)
    → left ≡ left'
    → attempt ≡ attempt'
    → retry_loop left attempt request net c ≡ retry_loop left' attempt' request net c
retry_loop-counts request net c p q = cc

add_zero : (n : ℕ) → n + 0 ≡ n
add_zero n = omega arith

skip :
    (count left attempt : ℕ) (request : RequestMessage) (net : Network) (c : Client)
    → AreSilent request net attempt count
    → (c' : Client) × (retry_loop (count + left) attempt request net c
        ≡ retry_loop left (attempt + count) request net c')
skip zero left attempt request net c quiet =
    (c, retry_loop-counts request net c (omega arith) (omega arith))
skip (suc count) left attempt request net c quiet =
    let now : IsSilent request (net attempt) =
      subst (λ i. IsSilent request (net i)) (add_zero attempt) (quiet 0 (omega arith)) in
    let quiet' : AreSilent request net (attempt + 1) count =
      λ j h. subst (λ i. IsSilent request (net i)) (omega arith) (quiet (suc j) (omega arith)) in
    let (c', same) =
      skip count left (attempt + 1) request net (sent_once request attempt c) quiet' in
    (
      c',
      retry_loop-counts request net c (omega arith) refl
          ∙ loop-silent (count + left) attempt request net c now.sends now.no_reply
          ∙ same
          ∙ retry_loop-counts request net c' refl (omega arith),
    )

rounds_left : (i n : ℕ) → i < n → (left : ℕ) × (i + suc left ≡ n)
rounds_left i zero h = absurd (omega arith)
rounds_left zero (suc n) h = (n, omega arith)
rounds_left (suc i) (suc n) h = let (left, e) = rounds_left i n (omega arith) in (left, omega arith)

first_rounds :
    (i : ℕ) (request : RequestMessage) (net : Network) (c : Client)
    → i < 5
    → AreSilent request net 0 i
    → (left : ℕ) × (c' : Client) × (send_with_retry request net c
        ≡ retry_loop (suc left) i request net c')
unfolding send_with_retry
first_rounds i request net c few quiet =
    let (left, total) = rounds_left i max_retries few in
    let (c', same) = skip i (suc left) 0 request net c quiet in
    (
      left,
      c',
      retry_loop-counts request net c (sym total) refl
          ∙ same
          ∙ retry_loop-counts request net c' refl (omega arith),
    )

-- When the first attempts send and get no reply, and the next of the five sends and gets the packet
-- of a message in range, with the identifier of the request, with data that is not empty, and which
-- fits the buffer, then `sendWithRetry` returns the data of the message.
pub send_with_retry-answered :
    (i : ℕ) (request m : RequestMessage) (net : Network) (c : Client)
    → i < 5
    → AreSilent request net 0 i
    → (net i).send_succeeds ≡ true
    → (net i).reception ≡ datagram (packet m)
    → IsMessage m
    → length (packet m) ≤ buffer_size
    → to_word 0x8000_0000 m.request_id ≡ to_word 0x8000_0000 request.request_id
    → m.message_data ≢ []
    → (send_with_retry request net c).0 ≡ returned m.message_data
send_with_retry-answered i request m net c few quiet sends arrives range fits same some_data =
    let (left, c', steps) = first_rounds i request net c few quiet in
    by_text left c' steps m.message_data refl
  where
    by_text :
        (left : ℕ) (c' : Client)
        → send_with_retry request net c ≡ retry_loop (suc left) i request net c'
        → (text : Bytes) → m.message_data ≡ text
        → (send_with_retry request net c).0 ≡ returned m.message_data
    by_text left c' steps [] e = absurd (some_data e)
    by_text left c' steps (x ∷ text) e =
        let received : receive_response (expected_id request) (net i).reception
            ≡ returned (x ∷ text) =
          rw arrives (
            receive_response-packet (expected_id request) m range fits
            ∙ rw (same, e, (==_iff _ _).1 refl) refl) in
        rw (steps, loop-answered left i request net c' x text sends received, e) refl

pub send_with_retry-silent :
    (request : RequestMessage) (net : Network) (c : Client)
    → AreSilent request net 0 5
    → (send_with_retry request net c).0 ≡ returned failure_text
unfolding send_with_retry retry_loop
send_with_retry-silent request net c quiet =
    let (c', steps) = skip 5 0 0 request net c quiet in ap (λ r. r.0) steps

-- When the first attempts send and get no reply, and the next of the five sends and gets a packet
-- that begins with the null marker 0, fits the buffer, and has the right parity bit, the program
-- uses a null pointer.
pub send_with_retry-null :
    (i : ℕ) (rest : Bytes) (parity_bit : ℕ) (request : RequestMessage) (net : Network) (c : Client)
    → i < 5
    → AreSilent request net 0 i
    → (net i).send_succeeds ≡ true
    → (net i).reception ≡ datagram ((0 ∷ rest) ++ parity_bit ∷ [])
    → length ((0 ∷ rest) ++ parity_bit ∷ []) ≤ buffer_size
    → verify_even_parity (0 ∷ rest) parity_bit ≡ true
    → (send_with_retry request net c).0 ≡ null_dereference
send_with_retry-null i rest parity_bit request net c few quiet sends arrives fits right =
    let (left, c', steps) = first_rounds i request net c few quiet in
    let received : receive_response (expected_id request) (net i).reception ≡ null_dereference =
      rw arrives (receive_response-null (expected_id request) rest parity_bit right fits) in
    rw (steps, loop-null_packet left i request net c' sends received) refl

-- The attempt, of those that were left, that a text came from.
abbrev FromAttempt : RequestMessage → Network → ℕ → ℕ → Bytes → Type 0
FromAttempt request net attempt left text =
    (i : ℕ) × (attempt ≤ i)
    × (i < attempt + left)
    × ((net i).send_succeeds ≡ true)
    × IsReply (expected_id request) (net i).reception text

exited-ne-returned : {A : Type 0} {a : A} → ¬ (exited ≡ returned a)
exited-ne-returned h = cc

null-ne-returned : {A : Type 0} {a : A} → ¬ (null_dereference ≡ returned a)
null-ne-returned h = cc

loop-IsReply :
    (left attempt : ℕ) (request : RequestMessage) (net : Network) (c : Client) (text : Bytes)
    → (retry_loop left attempt request net c).0 ≡ returned text
    → (text ≡ failure_text) ⊎ FromAttempt request net attempt left text
unfolding retry_loop
loop-IsReply zero attempt request net c text h = inl (sym (returned-inj h))
loop-IsReply (suc left) attempt request net c text h = elim (round request (net attempt)) [
  | not_sent n ↦
      let e = rw (loop-not_sent left attempt request net c n) at h in absurd (exited-ne-returned e)
  | silent sends r ↦ later (
      loop-IsReply left (attempt + 1) request net (sent_once request attempt c) text
        (rw (loop-silent left attempt request net c sends r) at h))
  | answered x reply sends r ↦
      let e : returned (x ∷ reply) ≡ returned text =
        rw (loop-answered left attempt request net c x reply sends r) at h in
      let own = receive_response-IsReply (expected_id request) (net attempt).reception x reply r in
      inr (
        attempt,
        omega arith,
        omega arith,
        sends,
        subst (λ t. IsReply (expected_id request) (net attempt).reception t) (returned-inj e) own,
      )
  | null_packet sends r ↦
      absurd (null-ne-returned (rw (loop-null_packet left attempt request net c sends r) at h))
]
  where
    later :
        (text ≡ failure_text) ⊎ FromAttempt request net (attempt + 1) left text
        → (text ≡ failure_text) ⊎ FromAttempt request net attempt (suc left) text
    later (inl e) = inl e
    later (inr (i, low, high, sends, reply)) = inr (i, omega arith, omega arith, sends, reply)

-- A text that `sendWithRetry` returns is the text of the failure, or the data of a message with the
-- identifier of the request, which one of the five attempts received.
pub send_with_retry-IsReply :
    (request : RequestMessage) (net : Network) (c : Client) (text : Bytes)
    → (send_with_retry request net c).0 ≡ returned text
    → (text ≡ failure_text)
      ⊎ ((i : ℕ) × (i < 5)
          × ((net i).send_succeeds ≡ true)
          × IsReply (expected_id request) (net i).reception text)
unfolding send_with_retry
send_with_retry-IsReply request net c text h = elim (loop-IsReply 5 0 request net c text h) [
  | inl e ↦ inl e
  | inr (i, low, high, sends, reply) ↦ inr (i, omega arith, sends, reply)
]
