-- ===== src/Client/Round.antt =====
-- One round of the loop of `sendWithRetry`, case by case.
use sc4051_dist_system_proj.Prelude.{
  ℕ, suc, ◌+◌, ◌≡◌, refl, [], ◌∷◌, ◌++◌, Bytes, true, false, Option, none, some, ltb, not,
  Bool-cases, inl, inr, if◌then◌else◌,
}
use sc4051_dist_system_proj.Prelude.Int.{to_word}
use sc4051_dist_system_proj.Result.{Result, ok, err}
use sc4051_dist_system_proj.Serializer.JavaDeserializer.{DeserializerState, object_at}
use sc4051_dist_system_proj.RequestMessage.{RequestMessage, message_class}
use sc4051_dist_system_proj.Client.{
  Client, Network, Attempt, Reception, failed, datagram, Outcome, returned, exited,
  null_dereference, increment, packet, send_request, response_of, response_at, receive_response,
  retry_loop,
}

-- The member `requestID` after the `requestID++` of a first attempt.
abbrev pub counted : ℕ → Client → Client
counted attempt c =
    if not (ltb 0 attempt) then record c { request_id = increment c.request_id } else c

-- The client after a packet was sent.
abbrev pub sent_once : RequestMessage → ℕ → Client → Client
sent_once request attempt c =
    let c' : Client = counted attempt c in record c' { sent = c'.sent ++ packet request ∷ [] }

-- The expected identifier, as `receiveResponse` gets it.
abbrev pub expected_id : RequestMessage → ℕ
expected_id request = to_word 0x8000_0000 request.request_id

-- What can happen in the attempt with this number.
pub data Round (request : RequestMessage) (now : Attempt) : Type 0 where
  not_sent : now.send_succeeds ≡ false → Round request now
  silent :
      now.send_succeeds ≡ true
      → receive_response (expected_id request) now.reception ≡ returned []
      → Round request now
  answered :
      (x : ℕ) (text : Bytes)
      → now.send_succeeds ≡ true
      → receive_response (expected_id request) now.reception ≡ returned (x ∷ text)
      → Round request now
  null_packet :
      now.send_succeeds ≡ true
      → receive_response (expected_id request) now.reception ≡ null_dereference
      → Round request now

response_at-ne-exited :
    (expected : ℕ) (o : Option RequestMessage) → ¬ (response_at expected o ≡ exited)
unfolding response_at
response_at-ne-exited expected none h = cc
response_at-ne-exited expected (some m) h = cc

response_of-ne-exited :
    (expected : ℕ) (r : Result (Option ℕ × DeserializerState RequestMessage))
    → ¬ (response_of expected r ≡ exited)
unfolding response_of
response_of-ne-exited expected (err e) h = cc
response_of-ne-exited expected (ok (none, s)) h = cc
response_of-ne-exited expected (ok (some p, s)) h =
    response_at-ne-exited expected (object_at s.store p) h

-- A call of `receiveResponse` never leaves the program.
receive_response-ne-exited :
    (expected : ℕ) (r : Reception) → ¬ (receive_response expected r ≡ exited)
unfolding receive_response
receive_response-ne-exited expected failed h = cc
receive_response-ne-exited expected (datagram bytes) h = response_of-ne-exited expected _ h

pub round : (request : RequestMessage) (now : Attempt) → Round request now
round request now = elim (Bool-cases now.send_succeeds) [
  | inr no_send ↦ not_sent no_send
  | inl sends ↦ by_response sends (receive_response (expected_id request) now.reception) refl
]
  where
    by_response :
        now.send_succeeds ≡ true
        → (o : Outcome Bytes) → receive_response (expected_id request) now.reception ≡ o
        → Round request now
    by_response sends (returned []) e = silent sends e
    by_response sends (returned (x ∷ text)) e = answered x text sends e
    by_response sends exited e = absurd (receive_response-ne-exited _ _ e)
    by_response sends null_dereference e = null_packet sends e

module _ (left attempt : ℕ) (request : RequestMessage) (net : Network) (c : Client) where
  send_fails :
      (net attempt).send_succeeds ≡ false
      → send_request request (ltb 0 attempt) (net attempt).send_succeeds c
        ≡ (false, counted attempt c)
  unfolding send_request
  send_fails h = rw h refl

  send_works :
      (net attempt).send_succeeds ≡ true
      → send_request request (ltb 0 attempt) (net attempt).send_succeeds c
        ≡ (true, sent_once request attempt c)
  unfolding send_request
  send_works h = rw h refl

  pub loop-not_sent :
      (net attempt).send_succeeds ≡ false
      → retry_loop (suc left) attempt request net c ≡ (exited, counted attempt c)
  unfolding retry_loop
  loop-not_sent h = rw (send_fails h)

  pub loop-silent :
      (net attempt).send_succeeds ≡ true
      → receive_response (expected_id request) (net attempt).reception ≡ returned []
      → retry_loop (suc left) attempt request net c
        ≡ retry_loop left (attempt + 1) request net (sent_once request attempt c)
  unfolding retry_loop
  loop-silent h r = rw (r, send_works h)

  pub loop-answered :
      (x : ℕ) (text : Bytes)
      → (net attempt).send_succeeds ≡ true
      → receive_response (expected_id request) (net attempt).reception ≡ returned (x ∷ text)
      → retry_loop (suc left) attempt request net c
        ≡ (returned (x ∷ text), sent_once request attempt c)
  unfolding retry_loop
  loop-answered x text h r = rw (r, send_works h)

  pub loop-null_packet :
      (net attempt).send_succeeds ≡ true
      → receive_response (expected_id request) (net attempt).reception ≡ null_dereference
      → retry_loop (suc left) attempt request net c
        ≡ (null_dereference, sent_once request attempt c)
  unfolding retry_loop
  loop-null_packet h r = rw (r, send_works h)
