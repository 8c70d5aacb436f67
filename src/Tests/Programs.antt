-- ===== src/Tests/Programs.antt =====
-- The theorems on the program on a socket at concrete inputs.
use sc4051_dist_system_proj.Prelude.{
  ℕ, ◌+◌, ◌<◌, ◌≡◌, refl, [], ◌∷◌, ◌++◌, List, Bytes, map, length, All, codes,
}
use sc4051_dist_system_proj.Prelude.Int.{ℤ, pos, negsuc}
use sc4051_dist_system_proj.Text.{split_at}
use sc4051_dist_system_proj.Text.Numbers.{stoi, unsigned_number, read_digits}
use sc4051_dist_system_proj.Client.{Client}
use sc4051_dist_system_proj.Socket.Logged.{World, logged}
use sc4051_dist_system_proj.UserInterface.Session.{Turn, display_menu}
use sc4051_dist_system_proj.UserInterface.History.{History, packets_of, ids_of, numbers, IsFew}
use sc4051_dist_system_proj.UserInterface.Words.{
  all_digits, dotted, is_server_ip, number_in, server_port_of,
}
use sc4051_dist_system_proj.UserInterface.Console.{
  Typing, asking, answered, ask_server_ip, ask_server_port,
}
use sc4051_dist_system_proj.UserInterface.Handlers.{typed}
use sc4051_dist_system_proj.Text.Input.{skip_spaces, split_word, extract_word}
use sc4051_dist_system_proj.UserInterface.Connected.{Running, on_socket}
use sc4051_dist_system_proj.UserInterface.Connected.Refines.{display_menu-sent}
use sc4051_dist_system_proj.Main.{main}
use sc4051_dist_system_proj.Main.Run.{HasSent, IsClosed, main-IsRun}
use sc4051_dist_system_proj.Tests.Samples.{a_client, no_rating}
use sc4051_dist_system_proj.Tests.Sockets.{
  Clocked, a_system, a_system-IsBounded, a_world, a_connection,
}

abbrev socket_turn : Turn Unit Unit
socket_turn = record { first = tt; second = tt; listening = tt }

-- The names, a monitoring and the exit.
abbrev socket_turns : List (Turn Unit Unit)
socket_turns = socket_turn ∷ socket_turn ∷ socket_turn ∷ []

abbrev menu_text : Bytes
menu_text = codes "\n1\n7\nGym\n60\n11\nyes\n"

abbrev at_start : Typing (Running (World Clocked))
at_start = record { client = record { client = a_connection; world = a_world }; input = menu_text }

abbrev on_network : Typing Client
on_network = record { client = a_client; input = menu_text }

display_menu-sent_example :
    (history : History) × ((display_menu
        (typed (on_socket (logged a_system)))
        no_rating
        socket_turns
        at_start).1.client.world.sent
      ≡ map (λ bytes. (bytes, a_connection.server_addr)) (packets_of history))
    × (ids_of history ≡ numbers 7 (length history))
    × ((display_menu
          (typed (on_socket (logged a_system)))
          no_rating
          socket_turns
          at_start).1.client.client.request_id
        ≡ pos (7 + length history))
    × All IsFew history
display_menu-sent_example =
    display_menu-sent a_system a_system-IsBounded no_rating socket_turns 7 a_connection a_world
      menu_text refl refl

abbrev port_text : Bytes
port_text = codes "\n0 2222" ++ menu_text

abbrev typed_text : Bytes
typed_text = codes "nowhere 127.0.0.1" ++ port_text

typed_ip : ask_server_ip typed_text ≡ answered (codes "127.0.0.1") port_text
unfolding ask_server_ip asking extract_word skip_spaces split_word is_server_ip dotted all_digits
    split_at
typed_ip = refl

typed_port : ask_server_port port_text ≡ answered (pos 2222) menu_text
unfolding ask_server_port asking extract_word skip_spaces split_word server_port_of number_in stoi
    unsigned_number read_digits
typed_port = refl

main-IsRun_example :
    (port : ℕ) × (pos 2222 ≡ pos port)
    × (0 < port)
    × (port < 65536)
    × HasSent a_system port (main (logged a_system) no_rating socket_turns typed_text a_world).1
    × IsClosed
        (main (logged a_system) no_rating socket_turns typed_text a_world).0
        (main (logged a_system) no_rating socket_turns typed_text a_world).1.closed
main-IsRun_example =
    main-IsRun a_system a_system-IsBounded no_rating typed_text port_text menu_text
      (codes "127.0.0.1") (pos 2222) socket_turns a_world typed_ip typed_port refl refl

abbrev timeout_of : ℤ → ℕ
timeout_of (pos n) = n
timeout_of (negsuc n) = 0
