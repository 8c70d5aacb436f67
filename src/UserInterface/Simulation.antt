-- ===== src/UserInterface/Simulation.antt =====
-- Two clients that answer the same requests alike give the same session of the menu: the contract
-- between the handlers of Client/src/UserInterface.cpp and what sends their requests.
pub mod Replies
pub mod Typed
pub mod Menu
use sc4051_dist_system_proj.Prelude.{◌≡◌, List, Bytes}
use sc4051_dist_system_proj.Prelude.Int.{ℤ}
use sc4051_dist_system_proj.RequestMessage.{RequestMessage}
use sc4051_dist_system_proj.Client.Requests.{Transport}

-- The same result, and states that agree.
abbrev pub Matched : {A S T : Type 0} → (S → T → Type 0) → A × S → A × T → Type 0
Matched R (r, x) (r', a) = (r ≡ r') × R x a

-- Whatever the environment of the first client does, some environment of the second gives the same
-- outcome, and states that agree again.
pub record Simulates {M K S N L T : Type 0} (t : Transport M K S) (u : Transport N L T)
    (R : S → T → Type 0) : Type 0 where
  pub ids : (x : S) (a : T) → R x a → t.next_id x ≡ u.next_id a
  pub sends :
      (request : RequestMessage) (now : M) (x : S) (a : T)
      → R x a
      → (net : N) × Matched R (t.send request now x) (u.send request net a)
  pub listens :
      (duration : ℤ) (now : K) (x : S) (a : T)
      → R x a
      → (listening : L) × Matched R (t.listen duration now x) (u.listen duration listening a)
  pub some_network : N
  pub some_listening : L
