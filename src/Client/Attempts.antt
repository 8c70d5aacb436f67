-- ===== src/Client/Attempts.antt =====
-- What `sendWithRetry` sends, whatever the network does.
use sc4051_dist_system_proj.Prelude.{
  ℕ, zero, suc, ◌+◌, ◌≤◌, ◌<◌, ◌≡◌, refl, ap, ◌∙◌, [], ◌∷◌, ◌++◌, false, ◌⊎◌, inl, inr, arith,
  replicate, append_assoc, append-nil, sym,
}
use sc4051_dist_system_proj.Prelude.Int.{ℤ}
use sc4051_dist_system_proj.RequestMessage.{RequestMessage}
use sc4051_dist_system_proj.Client.{Client, Network, increment, packet, retry_loop, send_with_retry}
use sc4051_dist_system_proj.Client.Round.{
  counted, sent_once, not_sent, silent, answered, null_packet, round, loop-not_sent, loop-silent,
  loop-answered, loop-null_packet,
}

-- `after` has the identifier `id`, and has sent the packet of the request `times` more than
-- `before`, and nothing else.
pub record Sent (request : RequestMessage) (id : ℤ) (times : ℕ) (before after : Client)
    : Type 0 where
  pub id_is : after.request_id ≡ id
  pub packets : after.sent ≡ before.sent ++ replicate times (packet request)

-- A later attempt counts nothing.
counted_later : (attempt : ℕ) (c : Client) → 0 < attempt → counted attempt c ≡ c
counted_later attempt c h = ground arith

none-Sent : (request : RequestMessage) (c : Client) → Sent request c.request_id 0 c c
none-Sent request c = record { id_is = refl; packets = sym (append-nil c.sent) }

-- One packet more in front of the others.
cons-Sent :
    (request : RequestMessage) (attempt times : ℕ) (c after : Client)
    → Sent request
        (sent_once request attempt c).request_id
        times
        (sent_once request attempt c)
        after
    → Sent request (counted attempt c).request_id (suc times) c after
cons-Sent request attempt times c after h = record {
  id_is = h.id_is;
  packets =
      h.packets
      ∙ append_assoc (counted attempt c).sent (packet request ∷ [])
          (replicate times (packet request))
      ∙ ap (λ l. l ++ packet request ∷ replicate times (packet request)) (sent_counted attempt);
}
  where
    sent_counted : (n : ℕ) → (counted n c).sent ≡ c.sent
    sent_counted n = ground arith

one-Sent :
    (request : RequestMessage) (attempt : ℕ) (c : Client)
    → Sent request (counted attempt c).request_id 1 c (sent_once request attempt c)
one-Sent request attempt c = cons-Sent request attempt 0 c _ (none-Sent request _)

later_id :
    (request : RequestMessage) (attempt times : ℕ) (c after : Client)
    → 0 < attempt
    → Sent request (counted attempt c).request_id times c after
    → Sent request c.request_id times c after
later_id request attempt times c after h sent = record {
  id_is = sent.id_is ∙ ap (λ (d : Client). d.request_id) (counted_later attempt c h);
  packets = sent.packets;
}

-- How often the rounds that are left send, after the first attempt.
later-Sent :
    (left attempt : ℕ) (request : RequestMessage) (net : Network) (c : Client)
    → 0 < attempt
    → (times : ℕ) × Sent request c.request_id times c (retry_loop left attempt request net c).1
      × (times ≤ left)
unfolding retry_loop
later-Sent zero attempt request net c h = (0, none-Sent request c, omega arith)
later-Sent (suc left) attempt request net c h =
    let (times, sent, few) =
      later-Sent left (attempt + 1) request net (sent_once request attempt c) (omega arith) in
    elim (round request (net attempt)) [
      | not_sent n ↦ (
        0,
        rw (loop-not_sent left attempt request net c n, counted_later attempt c h)
            (none-Sent request c),
        omega arith,
      )
      | silent sends r ↦ (
        suc times,
        rw (loop-silent left attempt request net c sends r)
            (later_id request attempt _ c _ h (cons-Sent request attempt times c _ sent)),
        omega arith,
      )
      | answered x text sends r ↦ (
        1,
        rw (loop-answered left attempt request net c x text sends r)
            (later_id request attempt _ c _ h (one-Sent request attempt c)),
        omega arith,
      )
      | null_packet sends r ↦ (
        1,
        rw (loop-null_packet left attempt request net c sends r)
            (later_id request attempt _ c _ h (one-Sent request attempt c)),
        omega arith,
      )
    ]

-- Whatever the network does, `sendWithRetry` adds one to the identifier of the next request, and
-- sends nothing but the packet of this request: at most five times, and at least once unless the
-- first `sendto` fails.
pub send_with_retry-Sent :
    (request : RequestMessage) (net : Network) (c : Client)
    → (times : ℕ) × Sent request (increment c.request_id) times c (send_with_retry request net c).1
      × (times ≤ 5)
      × (((net 0).send_succeeds ≡ false) ⊎ (1 ≤ times))
unfolding send_with_retry
send_with_retry-Sent request net c =
    let (times, sent, few) =
      later-Sent 4 (0 + 1) request net (sent_once request 0 c) (omega arith) in
    elim (round request (net 0)) [
      | not_sent n ↦ (
        0,
        rw (loop-not_sent 4 0 request net c n)
            (record { id_is = refl; packets = sym (append-nil c.sent) }),
        omega arith,
        inl n,
      )
      | silent sends r ↦ (
        suc times,
        rw (loop-silent 4 0 request net c sends r) (cons-Sent request 0 times c _ sent),
        omega arith,
        inr (omega arith),
      )
      | answered x text sends r ↦ (
        1,
        rw (loop-answered 4 0 request net c x text sends r) (one-Sent request 0 c),
        omega arith,
        inr (omega arith),
      )
      | null_packet sends r ↦ (
        1,
        rw (loop-null_packet 4 0 request net c sends r) (one-Sent request 0 c),
        omega arith,
        inr (omega arith),
      )
    ]
