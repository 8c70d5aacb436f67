-- ===== src/Lib.antt =====
-- A verification library for the client of a distributed facility booking system. The client sends
-- requests over UDP to a server in Java and shows its replies. What it sends and takes are objects
-- in a wire format with a parity bit; a request is repeated until a reply comes or five attempts
-- have passed.
--
-- The parts, each with the files under Client/ that it stands for:
-- - Parity (src/Parity.cpp): `calculateEvenParityBit` and `verifyEvenParity`.
-- - ByteBuffer and ByteReader (src/ByteBuffer.cpp, src/ByteReader.cpp): the writer appends to a list
--   of bytes; a reader is a function that returns its value and the moved reader, or an exception.
--   ByteBuffer.Layout and ByteReader.RoundTrip say which bytes stand for which values.
-- - Serializer (include/Serializer.hpp, src/Serializer.cpp): the virtual methods of
--   `JavaSerializable` are the interface of that name; `ObjectFactory`, `JavaSerializer` and
--   `JavaDeserializer` are its children. The static members are a state that is passed on. The
--   objects that a packet makes lie in a store, so that references to them are shared.
--   `IsFaithful` is what a class owes for a round trip.
-- - RequestMessage (src/RequestMessage.cpp, and `registerClasses` of src/main.cpp): the one class of
--   objects, which keeps that contract.
-- - Text: what the code uses of `std::string`, `std::getline`, `std::to_string` and `std::stoi`.
-- - ResponseParser (src/ResponseParser.cpp): from the text of a reply to the lines of a box. The
--   local variables of a parser are a record, and the body of its loop over the lines is a function
--   on it. The replies of the theorems have the formats of the server's API specification; those on
--   the availability are as Server/Server.java writes them.
-- - Client (src/Client.cpp): `sendRequest`, `receiveResponse` and `sendWithRetry` in Client.antt,
--   with the network as an argument, a function from the number of an attempt to what the socket
--   does in it. An outcome is a value, an exit of the program, or the use of a null pointer.
--   Exceptions of the deserializer end in the empty text, as the catch clause has it. The functions
--   that make the requests are in Client/Requests.antt. They stand over a `Transport`, the interface
--   of what sends a request and what listens for updates; `over_network` is the first one.
-- - Socket (src/Socket.cpp): the methods, over a record of the system calls on a type of worlds.
--   Socket.Logged adds to any such system the datagrams that were sent and the descriptors that
--   were closed.
-- - Client.Connection: src/Client.cpp once more, on a socket, with the constructor and the
--   destructor in Client/Connection/Opening.antt and `listenForMonitoringUpdates` by the clock in
--   Client/Connection/Listening.antt. Client.Connection.Refines ties it to the client over a
--   network: what the world does in each attempt makes up the network.
-- - UserInterface (src/UserInterface.cpp): `generateBox` and `isErrorResponse`; the prompts in
--   UserInterface/Console.antt, on the text of `std::cin`, whose operations are in Text/Input.antt;
--   their loops in UserInterface/Prompts.antt and UserInterface/Words.antt on the list of the words,
--   lines or numbers that are extracted; the handlers in UserInterface/Handlers.antt and the menu in
--   UserInterface/Session.antt. A state is a client with the text of the user (`Typing`), the result
--   is the contents of the boxes in their order and how the handler ends: it returns, the program
--   exits, an exception leaves it, the behaviour is undefined, or a prompt asks on for ever.
--   UserInterface.Simulation says when two transports give the same session; `on_socket` of
--   UserInterface.Connected is the second one.
-- - Main (src/main.cpp): the program, from the prompts for the server to the end of the session.
--
-- Loops: the retry loop recurses on the attempts that are left, five at first. The loop on
-- `std::getline` has the length of the text as fuel, and Text.Lines proves that it goes on exactly
-- while `getline` succeeds. The loop over the bits of a byte recurses on the order of its counter.
-- `std::to_string` has ten rounds, enough for ten digits. The monitoring loop has one round for each
-- tick of the clock up to its end, and Client.Connection.Monitoring shows that these are enough if
-- a call of `recvfrom` takes a tick. The loop of a prompt has one round more than the text is long,
-- and UserInterface.Console.Reads shows that more rounds change nothing. The menu, whose loop has no
-- end, goes on for the turns that are given.
--
-- Numbers: the bytes are natural numbers; a 32-bit or 64-bit integer is an integer with its two's
-- complement pattern, and shifts and masks act on patterns. Overflow of the request identifier and
-- of sums of minutes, which is undefined behaviour, is left out. A rating is a value of a type of
-- floats that is given, with its comparison; what the prompt for it makes of the input in a
-- handler, and its text, is an argument.
--
-- Not modelled: the branches for Windows, the text that is printed besides the boxes of the handlers
-- and the menu, and the server, which is another program in another language.
pub mod Prelude
pub mod Result
pub mod Parity
pub mod ByteBuffer
pub mod ByteReader
pub mod Text
pub mod Serializer
pub mod RequestMessage
pub mod ResponseParser
pub mod UserInterface
pub mod Client
pub mod Socket
pub mod Main
pub mod Tests
