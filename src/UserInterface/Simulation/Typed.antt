-- ===== src/UserInterface/Simulation/Typed.antt =====
-- The prompts of a handler, for two clients of which one simulates the other, with the same input.
use sc4051_dist_system_proj.Prelude.{◌≡◌, refl, subst, Bytes, Bool, true, false}
use sc4051_dist_system_proj.Client.Requests.{Transport}
use sc4051_dist_system_proj.UserInterface.Console.{
  Typing, Asked, answered, asks_on, uncaught, undefined, ask_confirmation,
}
use sc4051_dist_system_proj.UserInterface.Handlers.{Handled, typed, ask_user, if_confirmed}
use sc4051_dist_system_proj.UserInterface.Simulation.{Matched, Simulates}

-- The clients agree, and the input is the same.
abbrev pub Alike : {S T : Type 0} → (S → T → Type 0) → Typing S → Typing T → Type 0
Alike R x a = R x.client a.client × (x.input ≡ a.input)

abbrev pub typed-Simulates :
    {M K S N L T : Type 0} {t : Transport M K S} {u : Transport N L T} {R : S → T → Type 0}
    → Simulates t u R
    → Simulates (typed t) (typed u) (Alike R)
typed-Simulates sim = record {
  ids = λ x a r. sim.ids x.client a.client r.0;
  sends = λ request now x a r.
      let (net, (same, r')) = sim.sends request now x.client a.client r.0 in
      (net, (same, (r', r.1)));
  listens = λ duration now x a r.
      let (listening, (same, r')) = sim.listens duration now x.client a.client r.0 in
      (listening, (same, (r', r.1)));
  some_network = sim.some_network;
  some_listening = sim.some_listening;
}

-- A prompt answers the same, whatever the environment does behind it.
module _ {S T : Type 0} (R : S → T → Type 0) {I : Type 0} (i0 : I) where
  answered-Matched :
      {A : Type 0} (asked : Asked A) (x : Typing S) (a : Typing T)
      (next : A → Typing S → Handled (Typing S)) (next' : I → A → Typing T → Handled (Typing T))
      → Alike R x a
      → ((v : A) (x' : Typing S) (a' : Typing T)
          → Alike R x' a'
          → (i : I) × Matched (Alike R) (next v x') (next' i v a'))
      → (i : I) × Matched (Alike R) (ask_user asked x next) (ask_user asked a (next' i))
  unfolding ask_user
  answered-Matched (answered v rest) x a next next' r cont =
      cont v (record x { input = rest }) (record a { input = rest }) (r.0, refl)
  answered-Matched asks_on x a next next' r cont = (i0, (refl, r))
  answered-Matched uncaught x a next next' r cont = (i0, (refl, r))
  answered-Matched undefined x a next next' r cont = (i0, (refl, r))

  pub ask_user-Matched :
      {A : Type 0} (ask : Bytes → Asked A) (x : Typing S) (a : Typing T)
      (next : A → Typing S → Handled (Typing S)) (next' : I → A → Typing T → Handled (Typing T))
      → Alike R x a
      → ((v : A) (x' : Typing S) (a' : Typing T)
          → Alike R x' a'
          → (i : I) × Matched (Alike R) (next v x') (next' i v a'))
      → (i : I) × Matched
          (Alike R)
          (ask_user (ask x.input) x next)
          (ask_user (ask a.input) a (next' i))
  ask_user-Matched ask x a next next' r cont =
      subst
        (λ input.
          (i : I) × Matched (Alike R) (ask_user (ask x.input) x next)
            (ask_user (ask input) a (next' i)))
        r.1 (answered-Matched (ask x.input) x a next next' r cont)

  confirmed-Matched :
      (confirmation : Bool) (x : Typing S) (a : Typing T) (next : Typing S → Handled (Typing S))
      (next' : I → Typing T → Handled (Typing T))
      → Alike R x a
      → ((i : I) × Matched (Alike R) (next x) (next' i a))
      → (i : I) × Matched
          (Alike R)
          (if_confirmed confirmation x next)
          (if_confirmed confirmation a (next' i))
  unfolding if_confirmed
  confirmed-Matched true x a next next' r m = m
  confirmed-Matched false x a next next' r m = (i0, (refl, r))

  pub if_agreed-Matched :
      (x : Typing S) (a : Typing T) (next : Typing S → Handled (Typing S))
      (next' : I → Typing T → Handled (Typing T))
      → Alike R x a
      → ((x' : Typing S) (a' : Typing T)
          → Alike R x' a'
          → (i : I) × Matched (Alike R) (next x') (next' i a'))
      → (i : I) × Matched
          (Alike R)
          (ask_user
            (ask_confirmation x.input)
            x
            (λ confirmation x'. if_confirmed confirmation x' next))
          (ask_user
            (ask_confirmation a.input)
            a
            (λ confirmation a'. if_confirmed confirmation a' (next' i)))
  if_agreed-Matched x a next next' r cont =
      ask_user-Matched ask_confirmation x a _
        (λ i confirmation a'. if_confirmed confirmation a' (next' i)) r
        (λ confirmation x' a' r'.
          confirmed-Matched confirmation x' a' next next' r' (cont x' a' r'))
