-- ===== src/Lib.antt =====
-- firestr: a peer-to-peer program whose peers exchange messages over UDP. This library models the
-- parts that carry its data: the serialization, the messages, the queues and mailboxes between its
-- threads, the post offices that route messages between them and other peers, the encrypted
-- channels, the vector clocks and the strings merged by them, the store on disk, the UDP
-- connection, and the server at which peers find each other.
--
-- The parts, from the outside in. A message (src/message/message.cpp) is written in the format of
-- src/util/mencode.cpp. Mailboxes (src/message/mailbox.cpp, src/util/mailbox.hpp), which are two
-- queues each (src/util/queue.hpp), hold messages between the threads. Post offices
-- (src/message/post_office.cpp) form a tree and route a message by the addresses in front of it;
-- the one at the root (src/message/master_post.cpp) encrypts messages for other peers
-- (src/security/security_library.cpp) and decrypts theirs. The UDP connection
-- (src/network/udp_queue.cpp) cuts a byte string into chunks, sends the chunks round robin within a
-- window, acknowledges and resends, and puts the chunks together on the other side. Applications
-- share texts as concurrent strings (src/util/crstring.cpp), ordered by vector clocks
-- (src/util/vclock.hpp), and keep their data in stores on disk (src/util/disk_store.cpp). A
-- conversation has contacts (src/user/user.cpp), whose pings say who is there
-- (src/user/user_service.cpp), and who must all know one another
-- (src/conversation/conversation.cpp, src/conversation/conversation_service.cpp). Peers find each
-- other through a locator (src/firelocator/firelocator.cpp), with the messages of src/messages.
--
-- Which file models what, and how:
--  Prelude   the names shared by the other files. Prelude.Failure has the outcome of a call: a
--            value, an exception, or a failed contract of src/util/dbc.hpp, which ends the process.
--            Prelude.Maps has std::map and std::unordered_map as association lists.
--  Mencode   src/util/mencode.hpp and src/util/mencode.cpp. Value: `value`, `dict` and `array`,
--            with their accessors. Encode: the functions `encode`. Stream: std::istream as the
--            bytes that are left and a flag, with the work space. Decode: the functions `decode_`.
--            Lexical: boost::lexical_cast, a parameter, and in Decimal an instance of it.
--  Envelope  src/message/message.hpp and src/message/message.cpp: `operator<<` and `operator>>`.
--  Mail      Queue: src/util/queue.hpp. Mailbox: src/util/mailbox.hpp and src/message/mailbox.cpp.
--            Each call holds the queue's mutex, so what threads do is a sequence of calls; the wait
--            on the condition variable is an answer of `pop`.
--  Post      Office: the state of src/message/post_office.hpp, with the offices and mailboxes that
--            the pointers lead to in one world, where an expired pointer leads nowhere; `add`,
--            `has` and `remove`. Send: `send` and the loop of `send_thread`, with the offices whose
--            mutex the calling thread holds as an argument. Master: rounds of the threads
--            `out_thread` and `in_thread` of src/message/master_post.cpp. snappy is a parameter.
--  Security  src/security/security.cpp and src/security/security_library.cpp. Botan, the library,
--            is a parameter with named laws. Rsa: the loops over blocks. Secret: `dh_secret` and
--            the keys. Channels: `encrypted_channels`. Toy: an instance of the parameters.
--  Messages  src/messages: the structures of greeter.cpp and new_app.cpp, as messages and back.
--            Sender: sender.cpp, whose contact is an argument.
--  Locator   src/firelocator/firelocator.cpp. Users: what is known of a user, and how a
--            registration changes it. Server: the handlers, whose changes stay where an exception
--            ends them.
--  User      Contacts: `contact_list` of src/user/user.cpp.
--  UserService
--            src/user/user_service.cpp: the states of contacts. State: their changes and the
--            events. Pings: `received_ping`, and the loop of `ping_thread` over the contacts, in
--            the order of insertion. Turns: `send_ping`, and a whole turn of `ping_thread`, whose
--            `send_ticks` and whether the user is idle are arguments. Timed: what holds between two
--            steps; Changed, Heard, Sent and Loop: that changes of state, a ping, the pings of a
--            turn, and its loop keep it. Ticks: one contact in a turn. Runs, Aging and Farewell:
--            sequences of messages and turns. Sending: a ping where it arrives.
--  Conversation
--            src/conversation/conversation.cpp: the requests to the contacts about a user who may
--            join, and `part_of_clique`. Members: a conversation, its contacts and applications.
--            Service and Handlers: src/conversation/conversation_service.cpp, with the loop of
--            src/service/service.cpp around the handlers; Lists, Kept, Served, Steps and Calls:
--            what holds between them; Admission, Unasked and Stuck: who joins. An operation on a
--            conversation gives back the conversation and what was sent, and the handler puts it
--            where the pointer leads. A letter stands for the message that carries it, after
--            `from_message`.
--  DiskStore src/util/disk_store.cpp. Disk: the files, as part of the state, which an operation
--            gives back also where it throws. Store: the operations. Holds: the map that a store
--            stands for.
--  VClock    src/util/vclock.hpp. Clock: `vclock`. Tracked: `tracked_vclock`. The ids are any type
--            with an equality; the order in which std::map keeps them is not used by the code.
--  CrString  src/util/crstring.cpp and `merge` of src/util/text.cpp, with dtl::Diff3 as a
--            parameter.
--  Udp       src/network/udp_queue.hpp and src/network/udp_queue.cpp. Chunk: the constants, a
--            chunk, and the cutting. Wire: `encode_udp_wire` and `decode_udp_wire`. Assemble:
--            `insert_chunk`. Connection, Sending and Receiving: the state of `udp_connection` and
--            its handlers, each a function to the next state. Reach: the states that the handlers
--            reach.
--
-- Numbers. Integers of a fixed width are natural numbers, or the integers of Prelude.Int, with the
-- wrap-around written out where the code can reach it. A double is the number of its bits.
--
-- Fuel and bounds. The decoders recurse on fuel; more than three times the bytes of the stream is
-- enough, since of three calls in a row at least one takes a byte. The loop of `queue_next_chunk`
-- recurses on the size of the ring, which is enough, since the loop stops where it began. `send`
-- recurses on the calls between offices, which are few where no office stands above itself; without
-- that the recursion of the program has no end either. The loops of RSA take at most one round for
-- each byte. The other loops are structural. A message of the UDP connection has at most 65535
-- chunks of 499 bytes, 512 less a header of 13.
--
-- Not modelled. The map of a dictionary iterates in the order of insertion here, where
-- unordered_map has an order of its own. A pointer into the map of working messages is the
-- message's sequence number. A chunk's bit beyond the end of a bitset, or an index beyond the end
-- of the message ring, is undefined behaviour in the program; the model ignores such a write, and
-- ends the process for such an index. Sockets, host names, timers and threads are I/O: the
-- datagrams handed to the socket and the calls that wait in the io_service are part of the state.
-- The thread that resends takes no lock; its call is one step. A lock that a thread takes while it
-- holds it is an answer of its own. The draws of random generators are arguments. What Botan throws on a
-- malformed key, and what address::from_string throws on a malformed host, is not modelled. Of the
-- user service, the requests to connect, greeters and introductions are not modelled; of the
-- conversation service, its mailboxes in the post office. TCP and the graphical interface are not
-- modelled.
pub mod Prelude
pub mod User
pub mod UserService
pub mod Conversation
pub mod Locator
pub mod Mail
pub mod Messages
pub mod Post
pub mod DiskStore
pub mod Security
pub mod Mencode
pub mod Envelope
pub mod VClock
pub mod CrString
pub mod Udp
