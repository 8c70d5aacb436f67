-- ===== src/Main/Run.antt =====
-- What a run of the program sends, and which descriptors it closes.
use sc4051_dist_system_proj.Prelude.{
  ℕ, suc, ◌<◌, ◌≡◌, ◌⊎◌, inl, inr, refl, sym, ap, ◌∙◌, subst, [], ◌∷◌, ◌++◌, List, Bytes, true,
  false, ◌&&◌, leb, Option, none, some, map, length, All, Bool-cases, arith,
}
use sc4051_dist_system_proj.Prelude.Int.{ℤ, pos, negsuc, to_word}
use sc4051_dist_system_proj.Text.Numbers.{stoi}
use sc4051_dist_system_proj.Socket.{System, Address, close_socket}
use sc4051_dist_system_proj.Socket.Logged.{World, logged}
use sc4051_dist_system_proj.Client.Connection.{Connection}
use sc4051_dist_system_proj.Client.Connection.Opening.{
  Ended, ended, exit_with, throws, open_client, close_client,
}
use sc4051_dist_system_proj.Client.Connection.Lifecycle.{Clean, IsConnected, open_client-Clean}
use sc4051_dist_system_proj.Client.Connection.Refines.{IsBounded}
use sc4051_dist_system_proj.UserInterface.Prompts.{in_range}
use sc4051_dist_system_proj.UserInterface.Words.{
  number_in, server_port_of, or_again, prompt_server_port,
}
use sc4051_dist_system_proj.UserInterface.Handlers.{Ending, finished, exits, is_undefined, typed}
use sc4051_dist_system_proj.UserInterface.Console.{Asked, answered, ask_server_ip, ask_server_port}
use sc4051_dist_system_proj.UserInterface.Console.Rounds.{answer_in, first_of}
use sc4051_dist_system_proj.UserInterface.Console.Reads.{words_in, prompts-read}
use sc4051_dist_system_proj.UserInterface.Handlers
use sc4051_dist_system_proj.UserInterface.Session.{Turn, display_menu}
use sc4051_dist_system_proj.UserInterface.History.{History, packets_of, ids_of, numbers, IsFew}
use sc4051_dist_system_proj.UserInterface.Connected.{Running, on_socket}
use sc4051_dist_system_proj.UserInterface.Connected.Refines.{
  display_menu-sent, display_menu-Refines, typing_at,
}
use sc4051_dist_system_proj.Main.{
  Finish, goes_on, waits, undefined_behaviour, terminates, leaves, returns, after_menu, with_client,
  main,
}

-- The port is one.
abbrev IsPort : ℤ → Type 0
IsPort n = in_range 1 65535 n ≡ true

number_in-in_range :
    (lowest highest : ℕ) (typed : Option ℤ) (n : ℤ)
    → number_in lowest highest typed ≡ some n
    → in_range lowest highest n ≡ true
unfolding number_in
number_in-in_range lowest highest none n h = cc
number_in-in_range lowest highest (some k) n h = elim (Bool-cases (in_range lowest highest k)) [
  | inl inside ↦
      let e : some k ≡ some n = rw inside at h in
      let same : k ≡ n = cc in subst (λ m. in_range lowest highest m ≡ true) same inside
  | inr outside ↦ let e : none ≡ some n = rw outside at h in cc
]

prompt_server_port-IsPort :
    (words rest : List Bytes) (n : ℤ) → prompt_server_port words ≡ some (n, rest) → IsPort n
unfolding prompt_server_port server_port_of
prompt_server_port-IsPort [] rest n h = cc
prompt_server_port-IsPort (word ∷ words) rest n h =
    by_answer (prompt_server_port-IsPort words rest n) (number_in 1 65535 (stoi word)) refl h
  where
    by_answer :
        (prompt_server_port words ≡ some (n, rest) → IsPort n)
        → (o : Option ℤ) → number_in 1 65535 (stoi word) ≡ o
        → or_again o words (prompt_server_port words) ≡ some (n, rest)
        → IsPort n
    by_answer again none e h = again h
    by_answer again (some k) e h =
        let same : k ≡ n = cc in subst IsPort same (number_in-in_range 1 65535 (stoi word) k e)

ask_server_port-IsPort :
    (input rest : Bytes) (n : ℤ) → ask_server_port input ≡ answered n rest → IsPort n
ask_server_port-IsPort input rest n h =
    let words = words_in (suc (length input)) input in
    let read = (prompts-read (suc (length input)) input (omega arith)).7 in
    by_words (prompt_server_port words) refl (ap answer_in (sym h) ∙ read)
  where
    by_words :
        (o : Option (ℤ × List Bytes))
        → prompt_server_port (words_in (suc (length input)) input) ≡ o
        → some n ≡ first_of o
        → IsPort n
    by_words none e same = absurd (wrong same)
      where
        wrong : some n ≡ none → ⊥
        wrong h = cc
    by_words (some (m, words)) e same =
        let agree : m ≡ n = cc in
        subst IsPort agree
          (prompt_server_port-IsPort (words_in (suc (length input)) input) words m e)

-- What was sent is a sequence of requests to one server at the port, with the identifiers 0, 1, 2 and
-- so on, each in at most five datagrams that are all equal.
abbrev pub HasSent : {W : Type 0} → System W → ℕ → World W → Type 0
HasSent os port w =
    (server : Address) × (history : History) × (w.sent
      ≡ map (λ bytes. (bytes, server)) (packets_of history))
    × (server.sin_port ≡ os.htons port)
    × (ids_of history ≡ numbers 0 (length history))
    × All IsFew history

-- A `main` that returns, after an exception, has closed one descriptor, once or twice. Otherwise no
-- descriptor was closed.
abbrev pub IsClosed : Finish → List ℤ → Type 0
IsClosed (returns code) closed =
    (sockfd : ℤ) × ((closed ≡ sockfd ∷ []) ⊎ (closed ≡ sockfd ∷ sockfd ∷ []))
IsClosed (leaves code) closed = closed ≡ []
IsClosed goes_on closed = closed ≡ []
IsClosed waits closed = closed ≡ []
IsClosed terminates closed = closed ≡ []
IsClosed undefined_behaviour closed = closed ≡ []

module _ {W : Type 0} (os : System W) (bounded : IsBounded os)
    (prompt_rating : Bytes → Asked Bytes) where
  abbrev IsRun : ℕ → Finish × World W → Type 0
  IsRun port (finish, w) = HasSent os port w × IsClosed finish w.closed

  none_sent : (port : ℕ) (w : World W) → w.sent ≡ [] → HasSent os port w
  unfolding packets_of numbers
  none_sent port w h =
      (record { sin_family = pos 0; sin_port = os.htons port; sin_addr = 0 }, [], h, refl, refl, tt)

  after_menu-IsRun :
      (port : ℕ) (ending : Ending) (r : Running (World W))
      → HasSent os port r.world
      → r.world.closed ≡ []
      → IsRun port (after_menu (logged os) prompt_rating (ending, r))
  unfolding close_client close_socket logged
  after_menu-IsRun port (finished boxes) r sent untouched = (sent, untouched)
  after_menu-IsRun port (exits code boxes) r sent untouched = (sent, untouched)
  after_menu-IsRun port (is_undefined boxes) r sent untouched = (sent, untouched)
  after_menu-IsRun port (Handlers.waits boxes) r sent untouched = (sent, untouched)
  after_menu-IsRun port (Handlers.throws boxes) r sent untouched =
      let sockfd = r.client.socket.sockfd in
      (sent, (sockfd, inr (ap (λ l. (l ++ sockfd ∷ []) ++ sockfd ∷ []) untouched)))

  with_client-IsRun :
      (port : ℕ) (turns : List (Turn Unit Unit)) (input : Bytes) (w : World W)
      (made : Ended (Connection × List Bytes) × World W)
      → w.sent ≡ []
      → w.closed ≡ []
      → Clean (λ made. IsConnected os port made.0) w made
      → IsRun port (with_client (logged os) prompt_rating turns input made)
  with_client-IsRun port turns input w (exit_with code, w') unsent untouched kept =
      (none_sent port w' (kept.sent ∙ unsent), kept.closed ∙ untouched)
  with_client-IsRun port turns input w (throws what, w') unsent untouched (sent, (sockfd, closed)) =
      (
        none_sent port w' (sent ∙ unsent),
        (sockfd, inl (closed ∙ ap (λ l. l ++ sockfd ∷ []) untouched)),
      )
  with_client-IsRun port turns input w (ended (c, info), w') unsent untouched (connected, kept) =
      let unsent' = kept.sent ∙ unsent in
      let (turns', rounds, (same, (follows, left))) =
        display_menu-Refines os bounded prompt_rating turns c w'
          (record { request_id = c.request_id; sent = [] }) input
          (record { same_id = refl; same_sent = unsent' }) in
      let (history, packets, ids, last, few) =
        display_menu-sent os bounded prompt_rating turns 0 c w' input connected.starts unsent' in
      let r =
        display_menu (typed (on_socket (logged os))) prompt_rating turns
          (typing_at os bounded c w' input) in
      after_menu-IsRun port r.0 r.1.client
        (c.server_addr, history, packets, connected.server.1, ids, few)
        (follows.peer.closed ∙ (kept.closed ∙ untouched))

  -- A run in which a server and a port were typed, on a system whose `recvfrom` returns at most the
  -- size of the buffer and has written as many bytes as it returns. The port is from 1 to 65535.
  -- Whatever else the text of the input is, all that was sent is a sequence of requests to one server
  -- at this port, in network order, with the identifiers 0, 1, 2 and so on, each in at most five
  -- datagrams that are all equal. A `main` that returns, after an exception, has closed one
  -- descriptor, once or twice; otherwise no descriptor was closed.
  pub main-IsRun :
      (input rest rest' : Bytes) (server_ip : Bytes) (server_port : ℤ)
      (turns : List (Turn Unit Unit)) (w : World W)
      → ask_server_ip input ≡ answered server_ip rest
      → ask_server_port rest ≡ answered server_port rest'
      → w.sent ≡ []
      → w.closed ≡ []
      → (port : ℕ) × (server_port ≡ pos port)
        × (0 < port)
        × (port < 65536)
        × HasSent os port (main (logged os) prompt_rating turns input w).1
        × IsClosed
            (main (logged os) prompt_rating turns input w).0
            (main (logged os) prompt_rating turns input w).1.closed
  unfolding main
  main-IsRun input rest rest' server_ip (negsuc n) turns w typed typed' unsent untouched =
      absurd (negative (ask_server_port-IsPort rest rest' (negsuc n) typed'))
    where
      negative : false ≡ true → ⊥
      negative h = cc
  main-IsRun input rest rest' server_ip (pos port) turns w typed typed' unsent untouched =
      let inside : (leb 1 port && leb port 65535) ≡ true =
        ask_server_port-IsPort rest rest' (pos port) typed' in
      let low : 0 < port = ground arith in
      let high : port < 65536 = ground arith in
      let run =
        with_client-IsRun port turns rest' w (open_client (logged os) server_ip port w) unsent
          untouched (open_client-Clean os server_ip port w) in
      let same : to_word 0x8000 (pos port) ≡ port = omega arith in
      let run' =
        subst
          (λ k. IsRun port (
            with_client (logged os) prompt_rating turns rest'
              (open_client (logged os) server_ip k w)))
          (sym same) run in
      (port, refl, low, high, rw (typed, typed') run'.0, rw (typed, typed') run'.1)
