-- ===== src/Lib.antt =====
-- chamomile: a peer-to-peer network library. This library models the part of it that decides what a
-- node does with peers, keys and messages, and proves what that part promises.
--
-- The program. A node keeps a table of the peers that it has met (src/kad.rs, two Kademlia trees over
-- one table of values, one by peer id and one by socket address), the peers that it is in stable
-- contact with (src/peer_list.rs) and what waits for a connection (src/buffer.rs); src/global.rs holds
-- them behind locks and moves a peer from one to another. Each connection has a session
-- (src/session.rs), which agrees on a key with its remote peer (src/keys.rs), encrypts core data and
-- exchanges endpoint messages with the transports (src/transports.rs, src/hole_punching.rs). The types
-- that all of it shares are in types/src.
--
-- The files.
--   Prelude      byte sequences, results, maps and tests that all parts share; Act is the monad of what
--                changes a state and may fail, Keeps the rules for what its actions keep
--   Types        types/src: PeerId, TransportType, SocketAddr, Peer, the messages; Types/RoundTrip has
--                their bytes, Text and PeerText their texts, TextTrip and PeerTrip what is read back
--   Kad          src/kad.rs: Distance and Key (Kad/Distance), Node with insert (Kad/Node), with search,
--                remove, keys and is_empty (Kad/Lookup), KadTree (Kad/Tree) and DoubleKadTree
--                (Kad/Double). Cells, Scan, Split, Post, Insert, Search and Removal are the lemmas on
--                one node, the files in Tree and Double the theorems on the trees
--   Keys         src/keys.rs: KeyType and Keypair (Keys/Keypair), SessionKey (Keys/Session); the crates
--                that it calls are the record Crypto, and what they document is Documented
--                (Keys/Crypto)
--   Wire         src/hole_punching.rs (Wire/Hole), RemotePublic and EndpointMessage of
--                src/transports.rs (Wire/Endpoint), CoreData of src/session.rs (Wire/Core); the files
--                named Trip have their round trips
--   Store        src/buffer.rs (Buffer), src/peer_list.rs (PeerList, with all, dht_keys and stable_all
--                in PeerList/All, load and save in PeerList/Load), src/global.rs (Global); Queues and
--                Sweep are about the buffer, Stables, Meeting and Saving about the peer list, Kept is
--                about what both keep
--   Session      src/session.rs: the state and its actions (State), close, upgrade and core data (Core),
--                handle_outside (Outside), handle_endpoint (Endpoint), forever and listen (Run),
--                direct_stable and relay_stable (Stable); Delivery, Closing and Invariant are about the
--                first, Opening, Upgrading, Sending and Failing about the last
--   Server       src/server.rs: its state (State), the loop over incoming connections and timers
--                (Incoming), the loop over messages from outside (Outside), what it starts on (Start,
--                with src/config.rs); Refusing and Joining are about connections, Connecting and
--                Answering about connect messages, Starting about the key, Invariant about both loops
--   Transport    src/transports/tcp.rs (Tcp) and src/transports/quic.rs (Quic) on the bytes of a
--                connection (Stream); Framing and Ending are about TCP, Streams is about QUIC
--   Examples     concrete values at which the theorems are applied
--
-- How the code is modelled. A function of the source that changes `self` gives the new value back.
-- A Result is a result with the text of its error. A byte is a number, and a theorem on bytes says
-- where it needs them below 256; the width of a length or an id is written out where it is cast. A
-- HashMap is the list of its entries in the order of an iteration. A BitVec is the list of its bits;
-- from_bytes and the order of the crate bit_vec are arguments. A channel end is a number, and what is
-- sent to it is appended to a log; whether a channel takes what is sent, what is drawn at random, and
-- the numbers of new channels are functions of the log that the theorems hold for all of. A handler
-- runs from start to end before the next event: what other tasks do while it waits is not modelled.
--
-- A stream is the list of the pieces and errors that its socket will give, each read taking what one
-- piece has or less. A text is the list of its ASCII codes; how the standard library prints and
-- parses addresses, numbers and Boolean values is the record Printing.
--
-- Bounds. A tree has levels 1 to 8 below its root and 4 cells in a leaf. Node::insert runs on fuel 15,
-- one more than twice the 7 levels below the first: on each level it calls itself at most twice in
-- depth, once after a split and once for the child. The reading loop of a TCP connection runs on fuel,
-- one round for each frame; the size of the stream and one more is enough. The session's count of
-- heartbeats, a u32 in the source, is a number without a bound. generate_remote draws until a session
-- key can be made, which depends on the key of the node alone: here it draws once, and an error stands
-- for a node on which the source does not end.
--
-- Not modelled: sockets, and the certificates of QUIC; src/transports/udp.rs, which is not part of the
-- crate (src/transports.rs has its line in a comment), and rtp.rs and udt.rs beside it, which have no
-- code; the start of a transport in src/transports.rs, which only starts tasks; generate_kepair of
-- src/keys.rs, which draws a pair at random; src/lib.rs and src/primitives.rs, which list modules and
-- constants; the examples.
pub mod Prelude
pub mod Types
pub mod Kad
pub mod Keys
pub mod Wire
pub mod Store
pub mod Session
pub mod Server
pub mod Transport
pub mod Examples
