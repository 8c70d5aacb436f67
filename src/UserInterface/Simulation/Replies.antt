-- ===== src/UserInterface/Simulation/Replies.antt =====
-- The parts of a handler, for two clients of which one simulates the other.
use sc4051_dist_system_proj.Prelude.{
  refl, ap, subst, [], ◌∷◌, List, Bytes, Bool, true, false, Option, none, some, Bool-cases, inl,
  inr,
}
use sc4051_dist_system_proj.Prelude.Int.{ℤ}
use sc4051_dist_system_proj.Text.{found_at_start}
use sc4051_dist_system_proj.RequestMessage.{RequestType, monitor, request_message}
use sc4051_dist_system_proj.ResponseParser.{status_success}
use sc4051_dist_system_proj.Client.{Outcome, returned, exited, null_dereference}
use sc4051_dist_system_proj.Client.Requests.{
  Transport, ask, ask_with, updates_for, after_registration,
}
use sc4051_dist_system_proj.UserInterface.Handlers.{
  Handled, add_boxes, unless_error, show_reply, show_reply_to, done, show_updates,
}
use sc4051_dist_system_proj.UserInterface.Simulation.{Matched, Simulates}

unless_error-Matched :
    {S T : Type 0} (R : S → T → Type 0) (is_error : Bool) (box : List Bytes) (more : Handled S)
    (more' : Handled T) (x : S) (a : T)
    → R x a
    → Matched R more more'
    → Matched R (unless_error is_error box more x) (unless_error is_error box more' a)
unfolding unless_error
unless_error-Matched R true box more more' x a r m = (refl, r)
unless_error-Matched R false box more more' x a r m = (ap (add_boxes (box ∷ [])) m.0, m.1)

show_updates-Matched :
    {S T : Type 0} (R : S → T → Type 0) (response : Bytes) (texts : Option (List Bytes)) (x : S)
    (a : T)
    → R x a
    → Matched R
        (show_updates (updates_for response (texts, x)))
        (show_updates (updates_for response (texts, a)))
show_updates-Matched R response none x a r = (refl, r)
show_updates-Matched R response (some texts) x a r = (refl, r)

module _ {M K S N L T : Type 0} {t : Transport M K S} {u : Transport N L T} {R : S → T → Type 0}
    (sim : Simulates t u R) where
  -- Some environment of the second client makes the statement true.
  abbrev pub Somehow : (N → L → Type 0) → Type 0
  Somehow P = (env : N × L) × P env.0 env.1

  reply-Matched :
      (o : Outcome Bytes) (x : S) (a : T) (parse : Bytes → List Bytes)
      (next : Bytes → S → Handled S) (next' : N → L → Bytes → T → Handled T)
      → R x a
      → ((text : Bytes) → Somehow (λ net l. Matched R (next text x) (next' net l text a)))
      → Somehow (λ net l.
        Matched R (show_reply (o, x) parse next) (show_reply (o, a) parse (next' net l)))
  unfolding show_reply
  reply-Matched (returned text) x a parse next next' r cont =
      let ((net, l), m) = cont text in
      ((net, l), unless_error-Matched R _ (parse text) (next text x) (next' net l text a) x a r m)
  reply-Matched exited x a parse next next' r cont =
      ((sim.some_network, sim.some_listening), (refl, r))
  reply-Matched null_dereference x a parse next next' r cont =
      ((sim.some_network, sim.some_listening), (refl, r))

  ask-Matched :
      (type : RequestType) (text : Bytes) (now : M) (x : S) (a : T)
      → R x a
      → (net : N) × Matched R (ask t type text now x) (ask u type text net a)
  ask-Matched type text now x a r =
      subst
        (λ id.
          (net : N) × Matched R (ask t type text now x)
            (u.send (request_message type id text) net a))
        (sim.ids x a r) (sim.sends (request_message type (t.next_id x) text) now x a r)

  -- A request whose reply is shown, and after which the handler goes on.
  pub asked-Matched :
      (type : RequestType) (text : Bytes) (now : M) (x : S) (a : T) (parse : Bytes → List Bytes)
      (next : Bytes → S → Handled S) (next' : N → L → Bytes → T → Handled T)
      → R x a
      → ((reply : Bytes) (x' : S) (a' : T)
          → R x' a'
          → Somehow (λ net l. Matched R (next reply x') (next' net l reply a')))
      → (first : N) × Somehow (λ net l.
          Matched R
            (show_reply (ask t type text now x) parse next)
            (show_reply (ask u type text first a) parse (next' net l)))
  asked-Matched type text now x a parse next next' r cont =
      let (first, (same, r')) = ask-Matched type text now x a r in
      let p = ask t type text now x in
      let q = ask u type text first a in
      (
        first,
        subst
            (λ o. Somehow (λ net l.
              Matched R (show_reply p parse next) (show_reply (o, q.1) parse (next' net l))))
            same (reply-Matched p.0 p.1 q.1 parse next next' r' (λ reply. cont reply p.1 q.1 r')),
      )

  -- A request at the end of a handler.
  pub last_asked-Matched :
      (type : RequestType) (text : Bytes) (now : M) (x : S) (a : T) (parse : Bytes → List Bytes)
      → R x a
      → Somehow (λ net l.
        Matched R
          (show_reply (ask t type text now x) parse done)
          (show_reply (ask u type text net a) parse done))
  last_asked-Matched type text now x a parse r =
      let (first, ((_, l), m)) =
        asked-Matched type text now x a parse done (λ net l. done) r
          (λ reply x' a' r'. ((sim.some_network, sim.some_listening), (refl, r'))) in
      ((first, l), m)

  pub ask_with-Matched :
      (type : RequestType) (text : Option Bytes) (now : M) (x : S) (a : T)
      (parse : Bytes → List Bytes)
      → R x a
      → Somehow (λ net l.
        Matched R
          (show_reply_to (ask_with t type text now x) parse x)
          (show_reply_to (ask_with u type text net a) parse a))
  unfolding show_reply_to
  ask_with-Matched type none now x a parse r = ((sim.some_network, sim.some_listening), (refl, r))
  ask_with-Matched type (some text) now x a parse r = last_asked-Matched type text now x a parse r

  registered-Matched :
      (o : Outcome Bytes) (duration : ℤ) (now : K) (x : S) (a : T)
      → R x a
      → (l : L) × Matched R
          (show_updates (after_registration t duration now (o, x)))
          (show_updates (after_registration u duration l (o, a)))
  unfolding after_registration
  registered-Matched (returned response) duration now x a r =
      elim (Bool-cases (found_at_start status_success response)) [
        | inl found ↦
            let (l, (same, r')) = sim.listens duration now x a r in
            (
              l,
              rw found (
                  subst
                    (λ texts.
                      Matched R (show_updates (updates_for response (t.listen duration now x)))
                        (show_updates (updates_for response (texts, (u.listen duration l a).1))))
                    same (show_updates-Matched R response (t.listen duration now x).0 _ _ r')),
            )
        | inr other ↦ (sim.some_listening, rw other (refl, r))
      ]
  registered-Matched exited duration now x a r = (sim.some_listening, (refl, r))
  registered-Matched null_dereference duration now x a r = (sim.some_listening, (refl, r))

  -- The registration, and what follows it.
  pub monitored-Matched :
      (text : Bytes) (duration : ℤ) (second : M) (now : K) (x : S) (a : T)
      → R x a
      → Somehow (λ net l.
        Matched R
          (show_updates (after_registration t duration now (ask t monitor text second x)))
          (show_updates (after_registration u duration l (ask u monitor text net a))))
  monitored-Matched text duration second now x a r =
      let (net, (same, r')) = ask-Matched monitor text second x a r in
      let p = ask t monitor text second x in
      let q = ask u monitor text net a in
      let (l, m) =
        subst
          (λ o.
            (l : L) × Matched R (show_updates (after_registration t duration now p))
              (show_updates (after_registration u duration l (o, q.1))))
          same (registered-Matched p.0 duration now p.1 q.1 r') in
      ((net, l), m)
