-- ===== src/Client/Receive.antt =====
-- What `receiveResponse` does with the packets that a network can bring.
use sc4051_dist_system_proj.Prelude.{
  ℕ, zero, suc, ◌≤◌, ◌<◌, ◌≡◌, refl, ap, [], ◌∷◌, ◌++◌, Bytes, true, Option, none, some, length,
  take, arith, ==_iff, ◌==◌, Bool-cases, inl, inr,
}
use sc4051_dist_system_proj.Prelude.Int.{to_word}
use sc4051_dist_system_proj.Result.{Result, ok, err}
use sc4051_dist_system_proj.Parity.{verify_even_parity}
use sc4051_dist_system_proj.Parity.Detect.{BitPosition, IsBitOf, IsByteString, flip, length-set}
use sc4051_dist_system_proj.Serializer.JavaSerializer.{cleared}
use sc4051_dist_system_proj.Serializer.JavaDeserializer.{DeserializerState, object_at, deserialize}
use sc4051_dist_system_proj.Serializer.RoundTrip.{deserialize-null}
use sc4051_dist_system_proj.Serializer.Corruption.{deserialize-flip}
use sc4051_dist_system_proj.RequestMessage.{RequestMessage, message_class, registered_classes}
use sc4051_dist_system_proj.RequestMessage.RoundTrip.{IsMessage, message_round_trip}
use sc4051_dist_system_proj.Client.{
  Reception, failed, datagram, returned, null_dereference, accept, packet, response_at, response_of,
  receive_response, buffer_size,
}

pub take_all : (xs : Bytes) (n : ℕ) → length xs ≤ n → take n xs ≡ xs
take_all [] zero h = refl
take_all [] (suc n) h = refl
take_all (x ∷ xs) zero h = absurd (omega arith)
take_all (x ∷ xs) (suc n) h = ap (λ l. x ∷ l) (take_all xs n (omega arith))

pub receive_response-packet :
    (expected : ℕ) (m : RequestMessage)
    → IsMessage m
    → length (packet m) ≤ buffer_size
    → receive_response expected (datagram (packet m)) ≡ returned (accept expected m)
unfolding receive_response response_of response_at
receive_response-packet expected m range fits =
    let (st, taken, stored) = message_round_trip m 0 cleared range in
    rw (take_all (packet m) buffer_size fits, taken, stored) refl

-- A packet of bytes that fits the buffer and has the right parity bit, with any one of its bits
-- flipped, gives the empty text: `sendWithRetry` takes it as no reply.
pub receive_response-flip :
    (expected : ℕ) (body : Bytes) (parity_bit : ℕ) (p : BitPosition)
    → IsByteString body
    → parity_bit < 256
    → verify_even_parity body parity_bit ≡ true
    → IsBitOf (body ++ parity_bit ∷ []) p
    → length (body ++ parity_bit ∷ []) ≤ buffer_size
    → receive_response expected (datagram (flip (body ++ parity_bit ∷ []) p)) ≡ returned []
unfolding receive_response response_of
receive_response-flip expected body parity_bit p bytes small right inside fits =
    let same_size : length (flip (body ++ parity_bit ∷ []) p) ≡ length (body ++ parity_bit ∷ []) =
      length-set _ p.index _ in
    rw
      (
        take_all (flip (body ++ parity_bit ∷ []) p) buffer_size (omega arith),
        deserialize-flip registered_classes body parity_bit p bytes small right inside,
      )
      refl

-- A packet that fits the buffer, begins with the null marker 0 and has the right parity bit, makes
-- `receiveResponse` use a null pointer.
pub receive_response-null :
    (expected : ℕ) (rest : Bytes) (parity_bit : ℕ)
    → verify_even_parity (0 ∷ rest) parity_bit ≡ true
    → length ((0 ∷ rest) ++ parity_bit ∷ []) ≤ buffer_size
    → receive_response expected (datagram ((0 ∷ rest) ++ parity_bit ∷ [])) ≡ null_dereference
unfolding receive_response response_of
receive_response-null expected rest parity_bit right fits =
    rw
      (
        take_all ((0 ∷ rest) ++ parity_bit ∷ []) buffer_size fits,
        deserialize-null registered_classes rest parity_bit right,
      )
      refl

-- Where a reply comes from: a datagram from which the client made a message with the expected
-- identifier, which has this text as its data.
pub record IsReply (expected : ℕ) (r : Reception) (text : Bytes) : Type 0 where
  pub bytes : Bytes
  pub arrives : r ≡ datagram bytes
  pub message : RequestMessage
  pub pointer : ℕ
  pub state : DeserializerState RequestMessage
  pub taken : deserialize registered_classes (take buffer_size bytes) ≡ ok (some pointer, state)
  pub stored : object_at state.store pointer ≡ some message
  pub same_id : to_word 0x8000_0000 message.request_id ≡ expected
  pub is_data : message.message_data ≡ text

pub returned-inj : {A : Type 0} {a b : A} → returned a ≡ returned b → a ≡ b
returned-inj h = cc

accept-same_id :
    (expected : ℕ) (m : RequestMessage) (x : ℕ) (text : Bytes)
    → accept expected m ≡ x ∷ text
    → (to_word 0x8000_0000 m.request_id ≡ expected) × (m.message_data ≡ x ∷ text)
accept-same_id expected m x text h =
    elim (Bool-cases (to_word 0x8000_0000 m.request_id == expected)) [
      | inl same ↦ ((==_iff _ _).0 same, rw same at h)
      | inr other ↦ (let e : [] ≡ x ∷ text = rw other at h in cc)
    ]

pub receive_response-IsReply :
    (expected : ℕ) (r : Reception) (x : ℕ) (text : Bytes)
    → receive_response expected r ≡ returned (x ∷ text)
    → IsReply expected r (x ∷ text)
unfolding receive_response response_of response_at
receive_response-IsReply expected failed x text h = cc
receive_response-IsReply expected (datagram bytes) x text h =
    by_result (deserialize registered_classes (take buffer_size bytes)) refl h
  where
    by_object :
        (p : ℕ) (s : DeserializerState RequestMessage)
        → deserialize registered_classes (take buffer_size bytes) ≡ ok (some p, s)
        → (o : Option RequestMessage) → object_at s.store p ≡ o
        → response_at expected o ≡ returned (x ∷ text)
        → IsReply expected (datagram bytes) (x ∷ text)
    by_object p s taken none stored e = cc
    by_object p s taken (some m) stored e =
        let same = accept-same_id expected m x text (returned-inj e) in
        record {
          bytes = bytes;
          arrives = refl;
          message = m;
          pointer = p;
          state = s;
          taken = taken;
          stored = stored;
          same_id = same.0;
          is_data = same.1;
        }

    by_result :
        (r : Result (Option ℕ × DeserializerState RequestMessage))
        → deserialize registered_classes (take buffer_size bytes) ≡ r
        → response_of expected r ≡ returned (x ∷ text)
        → IsReply expected (datagram bytes) (x ∷ text)
    by_result (err error) e h' = cc
    by_result (ok (none, s)) e h' = cc
    by_result (ok (some p, s)) e h' = by_object p s e (object_at s.store p) refl h'
