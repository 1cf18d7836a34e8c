-- ===== src/Lib.antt =====
-- muc-opcua: an OPC UA server, from its binary encoding to its sessions.
--
-- A connection's bytes come in as message chunks. src/core/tcp_connection.c answers the hello that
-- opens the connection; src/core/message_chunk.c parses the header of every chunk after it and the
-- sequence header in it; src/core/sequence.c accepts or refuses the sequence number. An
-- OpenSecureChannel request goes to src/services/secure_channel.c, which looks its policy up in
-- src/security/security_policy.c; the session services go through
-- src/core/service_dispatch/create_session.c to the table of sessions of src/services/session.c.
-- src/core/server cuts the bytes of a connection into messages, joins the chunks of a request and
-- hands it to its service. Requests and responses are read and written by src/encoding, and src/core/uasc.c puts the header
-- in front of a response.
--
-- Files:
--   Common: the names that all modules share, with lists and Boolean tests over native numbers,
--     runs of bytes in a buffer (Overwrite) and bit operations (Bits).
--   Status: the status codes of include/muc_opcua/status.h, and results.
--   Encoding: src/encoding. State is the monad of a C function over a reader or writer that returns
--     a status; Le, Reader, Writer, Text, NodeIds, Composite and Extension are binary_le.h,
--     binary_reader.c, binary_writer.c, binary_string.c, binary_nodeid.c, the composite types of
--     the reader and the writer, and binary_extension_object.c. A definition has the name of its
--     function without mu_binary_. Format is the wire format, written down apart from the code;
--     Calculus, Words, Strings, Identifiers, Expanded and Localized connect the two, RoundTrip and
--     Confined are about decoding what was written and decoding anything, Ensures about what holds of
--     a decoded value. Variant is
--     binary_variant.c and variant_type.c, Variant/DataValue is binary_datavalue.c.
--   Core: src/core. Sequence is sequence.c (mu_sequence_), Uasc is uasc.c (mu_uasc_), Chunk is
--     message_chunk.c (mu_), Tcp is tcp_connection.c (mu_tcp_).
--   Services: Policy is src/security/security_policy.c, SecureChannel is
--     src/services/secure_channel.c (mu_secure_channel_), Session and Session/Table are
--     src/services/session.c (mu_session_) with initialize_create_session of
--     src/core/service_dispatch/create_session.c; Services/Memstore is
--     src/services/history_memstore.c (mu_memstore_), with its array of points as a list in Refine,
--     Delete and Paging.
--   AddressSpace: src/address_space/node_id.c, the order of NodeIds, with the index over the nodes
--     and the lookups in AddressSpace/Index (mu_address_space_). Key writes the order as that of
--     words of numbers; Index/Insert, Build, Sorted and Held are about the rebuild, Search about the
--     binary search, Lookup, Agreement and Direct about what a lookup finds, Rebuilt about what a
--     rebuild leaves.
--   Server: src/core/server. Server has its state and what it asks of its neighbours, DataChunk and
--     Secure are data_chunk.c, Process is process_message.c, Poll is poll_process_buffer of poll.c.
--     Part, Assembly and Reassembly are about requests in several chunks, Numbering about their
--     sequence numbers, Accepted and Binding about which messages come to a service, Poll/Stream
--     about the messages in a buffer.
--   Authorization: Base64url is src/cu/core_2022_server/authorization/base64url.c, which the tokens
--     of users are decoded by; Format is the encoding, RoundTrip and Anything are about decoding an
--     encoding and any input.
--   Subscription: Queue is the queue of a monitored item, in subscription_monitor.c,
--     deadband.c, notification.c and monitored_items.c of
--     src/cu/core_2022_server/subscription/basic; Ring is about its indices, Refine and
--     Reports about reports, Drain and Resize about what else changes it. Retransmit is
--     retransmit.c, where a message waits for its acknowledgement. Lifecycle is tick.c but for
--     the tick itself and mu_subscription_find_any: subscriptions come, change and go; Items
--     has the monitored items, the transfer and the parked requests; Slots, Allocation and
--     Distinct have lemmas, Invariant and Counted what each call keeps, Reachable the
--     sequences of calls.
--
-- The build that is modelled is the full one: several chunks, several connections, redundancy and
-- cryptography with the elliptic curves.
--
-- Conventions: a machine word is a natural number below its power of two, and a signed one its bit
-- pattern; what wraps has its modulus written out. size_t does not wrap: the buffers that it
-- measures are in memory, and a decoded length is at most 4096. A buffer is the list of its bytes
-- with the length that the code was given. An output parameter is a result, and what a function
-- that fails has left in one is not modelled, except where it is part of the state. The tests of
-- pointers that no caller of the library passes as NULL are left out; the NULL of a buffer, a
-- string, a URI and the entropy adapter is modelled. The entropy adapter, calloc and the sizes of
-- the C types are parameters, and so are, for Server, the services, the transport and the
-- cryptography of chunks; their state is a type that the model does not look into. poll's loop runs
-- once for each byte at most, which is enough since a message has at least eight.
-- Loops are structural recursion; the loops over salts and over the ids of subscriptions run once for
-- each slot and once more, as in the code. The binary search has one round more than there are nodes, which is enough since each
-- round makes the range smaller.
--
-- Not modelled: the structures that the server writes in ExtensionObjects; the dispatch of services
-- other than sessions; of subscriptions, the tick that publishes, events and triggering; the nodes of
-- the address space beyond their NodeIds, and their values; the claims and signatures of tokens; the
-- protection of chunks and the derivation of keys; the client; the adapters to platforms and
-- cryptographic libraries; generated data.
pub mod Common
pub mod Status
pub mod Encoding
pub mod AddressSpace
pub mod Authorization
pub mod Core
pub mod Services
pub mod Subscription
pub mod Server
