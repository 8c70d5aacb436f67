-- ===== src/Main.antt =====
-- Client/src/main.cpp: the program, from the prompts for the server to the end of the session.
pub mod Run
use sc4051_dist_system_proj.Prelude.{List, Bytes, Option, none, some}
use sc4051_dist_system_proj.Prelude.Int.{ℤ, pos, to_word}
use sc4051_dist_system_proj.Socket.{System}
use sc4051_dist_system_proj.Client.Connection.{Connection}
use sc4051_dist_system_proj.Client.Connection.Opening.{
  Ended, ended, exit_with, throws, open_client, close_client,
}
use sc4051_dist_system_proj.UserInterface.Handlers.{Ending, finished, exits, is_undefined, typed}
use sc4051_dist_system_proj.UserInterface.Handlers
use sc4051_dist_system_proj.UserInterface.Session.{Turn, display_menu}
use sc4051_dist_system_proj.UserInterface.Console.{
  Typing, Asked, answered, asks_on, uncaught, undefined, ask_server_ip, ask_server_port,
}
use sc4051_dist_system_proj.UserInterface.Connected.{Running, on_socket}

-- How a run ends: the turns that are given are over, a prompt asks for ever since the input is over,
-- the behaviour is undefined, an exception terminates the program, it has left by `exit`, or `main`
-- has returned.
pub data Finish : Type 0 where
  goes_on waits undefined_behaviour terminates : Finish
  leaves returns : ℤ → Finish

module _ {W : Type 0} (os : System W) (prompt_rating : Bytes → Asked Bytes) where
  -- The end of the session. An exception destroys the client, and the `catch` block takes it.
  abbrev pub after_menu : Ending × Running W → Finish × W
  after_menu (finished boxes, r) = (goes_on, r.world)
  after_menu (exits code boxes, r) = (leaves code, r.world)
  after_menu (is_undefined boxes, r) = (undefined_behaviour, r.world)
  after_menu (Handlers.waits boxes, r) = (waits, r.world)
  after_menu (Handlers.throws boxes, r) = (returns (pos 0), close_client os r.client r.world)

  abbrev pub without_typing : Ending × Typing (Running W) → Ending × Running W
  without_typing (ending, c) = (ending, c.client)

  -- The block of `try`.
  abbrev pub with_client :
      List (Turn Unit Unit) → Bytes → Ended (Connection × List Bytes) × W → Finish × W
  with_client turns input (ended (c, info), w) = after_menu (
      without_typing (
        display_menu (typed (on_socket os)) prompt_rating turns
          (record { client = record { client = c; world = w }; input = input })))
  with_client turns input (exit_with code, w) = (leaves code, w)
  with_client turns input (throws what, w) = (returns (pos 0), w)

  abbrev pub with_port : List (Turn Unit Unit) → Bytes → Asked ℤ → W → Finish × W
  with_port turns server_ip (answered server_port input) w =
      with_client turns input (open_client os server_ip (to_word 0x8000 server_port) w)
  with_port turns server_ip asks_on w = (waits, w)
  with_port turns server_ip uncaught w = (terminates, w)
  with_port turns server_ip undefined w = (undefined_behaviour, w)

  abbrev pub with_ip : List (Turn Unit Unit) → Asked Bytes → W → Finish × W
  with_ip turns (answered server_ip input) w = with_port turns server_ip (ask_server_port input) w
  with_ip turns asks_on w = (waits, w)
  with_ip turns uncaught w = (terminates, w)
  with_ip turns undefined w = (undefined_behaviour, w)

  -- The input is the text that the user types in the whole run.
  unfoldable pub main : List (Turn Unit Unit) → Bytes → W → Finish × W
  main turns input w = with_ip turns (ask_server_ip input) w
