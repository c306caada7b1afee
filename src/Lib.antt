-- ===== src/Lib.antt =====
-- Kapua: a model of a peer-to-peer storage node (C++), with the theorems about it.
--
-- A node keeps a registry of its peers (`Core`, src/Core.cpp), talks to them in datagrams (`UDPNetwork`,
-- src/UDPNetwork.cpp, with the packet of src/Protocol.hpp), agrees with each on session keys by RSA
-- (src/RSA.cpp), and finds the peers that hold a block (`DistributedBlockStore`,
-- src/DistributedBlockStore.cpp). `UDPNetwork::_main_loop` calls `_receive`, which turns a datagram into
-- a packet and a node of the registry, decrypting where the node's state says so and adding a node that
-- is new, and hands the packet to `_process_packet`, which moves the node through the handshake and
-- answers by `_send`.
--
-- Files, and the code that they model:
--   Protocol    src/Protocol.hpp, src/Kapua.hpp: Packet, its constructors, checks and public key, and
--               its packed memory (to_bytes, of_bytes); Protocol/Wire and Protocol/Layout have the theorems,
--               Protocol/Names the text for the log.
--   Util        src/Util.hpp: text for the log.
--   Address     src/SockaddrHashable.hpp: addresses, their operators and hash, maps keyed by them.
--   Node        src/Node.hpp, and KeyPair of src/RSA.hpp.
--   Core        src/Core.hpp, src/Core.cpp, src/Actions.hpp: the registry and the queue of actions;
--               Core/Registry has its invariant and lookups, Core/Known an identity added twice,
--               Core/Threads the interleavings of start and stop with _main_loop.
--   Rsa         src/RSA.cpp: encrypt_aes_context, decrypt_aes_context, load_rsa_key_pair,
--               get_pkey_size; Rsa/SessionKey and Rsa/KeyFiles have the theorems. Rsa/Generation has
--               generate_rsa_key_pair on files, and what is loaded after it.
--   UdpNetwork  src/UDPNetwork.cpp. State has what a call takes from the system and the state that it
--               works on; Aes has _aes_encrypt and _aes_decrypt, Send has _send, Process has
--               _process_packet with one definition for each case, Receive has _receive. Transitions
--               and Handshake are about the state machine, Agreement about the two sides of the key
--               exchange, Writes, Cases, Side and Connection about the whole handshake, Orderly and
--               Progress about packets that are handled to the end, Faults about those that are not,
--               Unread about _main_loop at a key that cannot be read, Reception, Strangers and
--               Delivery about _receive. Service has start, stop, _listen,
--               _shutdown, _broadcast and _main_loop. Evolution says what a later
--               registry has of an earlier one, and Loop follows that through _main_loop; Arrival and
--               Round are about datagrams and rounds that come to their end, Threads about the
--               interleavings of start and stop with _main_loop, Endless about a start that comes
--               twice. Meeting has two nodes on a network that takes a datagram to its address, or to
--               both nodes where it is broadcast: Carrier is about the packets on their way, Peer, Newcomer,
--               Encrypted and Steps about a round that takes one, Course about all rounds of one node,
--               Offers about what it sends, Turns and Interleaving about the order of the turns, Sides
--               and Meets put them together.
--   BlockStore  src/DistributedBlockStore.cpp: the ring of virtual nodes. Ring has std::set, Invariant,
--               Owners, Lookup and Selection the theorems. Refinement has the abstract specification, which
--               knows owners and capacities alone, Abstract the stores up to it as a quotient, and
--               Stability what a node that leaves moves.
--   Logger      src/Logger.hpp, src/Logger.cpp: IOStreamLogger and ScopedLogger, in a list of objects
--               that refer to one another. Chain and Levels have the theorems.
--   Config      src/Config.cpp: the parsers of settings, and to_hex64_str of src/Util.hpp, on the characters
--               and numerals of Text. Values has identities in hexadecimal, Stoi ports, Duration
--               durations. Load has the settings and the statements that load one, Sources load_yaml
--               and load_cmd_line; Settled is about such statements in a row, Loaded and Survives
--               about load_yaml, Commanded about load_cmd_line.
--   Lifetime    the constructors and destructors of the classes with a logger of their own, and
--               src/Settings.cpp and src/MemcachedServer.cpp, which have little else. Objects has
--               sequences of them, Nested the theorem.
--   Kapuad      examples/kapuad/main.cpp: main and its signal handler.
--   OpenSsl     the calls of OpenSSL, a parameter of every definition that makes one: a record of
--               functions, and the documented laws that theorems ask of it. OpenSsl/Toy is an instance
--               at which the laws hold, for the examples.
--   Prelude     lists, maps, bytes and results. The files named Tests, Runs, Rounds, Connections, Receipts,
--               Sample and Samples have examples.
--
-- State is passed explicitly. A `Node*` is a number under which a heap in `Core` holds the node; a null
-- pointer is `none`. `Result` has a normal result, a C++ exception, or undefined behaviour: an access
-- past the end of a buffer, a null pointer, locking a mutex that the thread holds, or a use of an object
-- that was deleted. What memory held before a constructor ran, what `RAND_bytes`, the clock and `sendto`
-- give, and what `select` and `recvfrom` bring are arguments. Numbers are natural numbers; where the
-- code's width shows (the hash, the packet's fields, the size of a datagram) it is written out. `htons`
-- and the packet's layout are
-- those of a little-endian machine.
--
-- Loops run over lists (the queue, the ring, the nodes, a text, the rounds of a loop that end when
-- another thread clears a flag), except the walk of the block store's lookup, whose fuel is five, the
-- number of steps that the code's counter allows, and the digits of a number, where the fuel bounds
-- their number: 16 for 64 bits in hexadecimal, 10 for an `int` in decimal.
--
-- The YAML library, Boost's program options and `inet_pton` are parameters as OpenSSL is. A loader of
-- settings gives the settings with its result, since what it has stored before it fails stays stored.
--
-- Not modelled: the Windows build; the lines that are logged; reading the YAML file and the command
-- line themselves, which are other libraries'; the memory of `EVP_PKEY` objects, except what
-- load_rsa_key_pair frees; the random numbers themselves. One thread works on the registry or on a
-- logger at a time; Core/Threads has two threads, UdpNetwork/Threads as many as start makes, and UdpNetwork/Meeting
-- two nodes, each with its own registry, between which no datagram is lost.
pub mod Prelude
pub mod OpenSsl
pub mod Protocol
pub mod Address
pub mod Node
pub mod Core
pub mod Rsa
pub mod UdpNetwork
pub mod BlockStore
pub mod Text
pub mod Logger
pub mod Config
pub mod Lifetime
pub mod Kapuad
pub mod Util
