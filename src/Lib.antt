-- ===== src/Lib.antt =====
-- Fast reliable file transfer over UDP: a model of the protocol and of the two endpoints' state.
--
-- The program sends one file from a client to a server. It has these parts:
--   include/common.hpp, include/protocol.hpp, src/protocol.cpp: the datagram format, the control
--     and ACK payloads, and the sizes of chunks.
--   include/reliability.hpp, src/reliability.cpp: `SenderWindow`, which decides what the client sends
--     and resends, and `ReceiverTracker`, which records what the server has and makes the ACKs.
--   src/server.cpp and src/client.cpp: the session of each endpoint, over sockets and clocks.
--   src/pacer.cpp and src/file_io.cpp: the sending rate and the mapped files.
-- The client's loop asks `select_next_packet` for a chunk, sends it and calls `mark_sent`; the server
-- calls `mark_received` for each DATA datagram and answers with the serialized `make_ack_snapshot`;
-- the client hands each ACK to `process_ack` and calls `check_timeouts` as time passes.
--
-- Files:
--   Common: names and lemmas that the parts share. Loops has the three loop forms, Words the wrap of
--     machine words, Bits the bits of a byte, Counting the number of chunks with a property, Int the
--     signed stall times.
--   Protocol/Types: constants, enumerations and structures. Protocol/Bytes: `write_u16` to `read_u64`.
--   Protocol/Sizes: `chunk_size_for_mtu` and `chunk_count`. Protocol/Header: `serialize_packet`,
--     `deserialize_packet_view` and `deserialize_packet`. Protocol/Payloads: the four payloads.
--     The RoundTrip modules hold the proofs about each.
--   Chunks: offset and length of a chunk, as both endpoints compute them.
--   Reliability/Receiver: `ReceiverTracker`; Tracking and Snapshot hold the proofs.
--   Reliability/Sender: `SenderWindow`, field by field, each method a function on it; a method that
--     throws returns a `Result`. Window states its invariant, Ack, Sack, Queue, Advance and Scan are
--     about the parts of `process_ack`, Process about the whole, Timeouts, Select and Sent about the
--     other methods, Marks and Issued about what they leave of the chunks acknowledged and sent, History
--     about sequences of calls, Due about when there is something to send.
--   Reliability/Agreement: a snapshot of the tracker, processed by the window.
--   Server: the session of src/server.cpp. `handle_packet` is the body of the main loop, `serve` the
--     loop over the datagrams that arrive, `answer_late` the body of `time_wait`; Start is the loop
--     that waits for a START. The bytes that are handed to `sendto` are results. Storing and Stored
--     are about the file, Safety about the file at the end, Batching about the ACKs held back, Cases
--     about the branches of `handle_packet`.
--   FileIo: the constructors, destructors and `sync` of src/file_io.cpp, with the resources they take
--     and give back; Release is about what a process holds afterwards.
--   Net: what both endpoints have, and Net/Wire what a receiver decodes from a datagram sent.
--   Client: the session of src/client.cpp. Diagnostics holds its statistics, Receiving
--     `receive_expected`, `apply_ack_packet`, `drain_acks` and `wait_for_ack`, Sending the transfer
--     loop, whose body is `pass_once`, Control the two handshakes and `run_client`. Sending/Keeps is
--     about what a pass leaves true of the window, Passing about passes in which no system call fails,
--     Due about when a pass sends, Chunk and Gather about the DATA datagrams; Control/Handshake is
--     about the attempts, Proposal about the START, Report about the end of the run.
--   System: both endpoints over a network, as a step relation on their states and on the bytes sent so
--     far. Upstream and Downstream are about what is sent, Hearing and Answering about what the
--     endpoints make of it, Agreed has the invariant, Delivery and Completion what follows from it.
--   Examples: tests at concrete inputs.
--
-- How the code is represented:
--   A C++ unsigned integer is a natural number; where the code adds or subtracts, the wrap is written
--   out (`inc32`, `dec32`, `% 2 ^ 64`). A buffer is the list of its bytes; a pointer is an option of
--   the buffer that begins there; what an out-parameter receives is the result. A time point is a
--   number of nanoseconds, handed in where the code reads the clock. A vector keeps its length; a read
--   beyond it gives a default value, where the code would be undefined.
--   The loops over a range are structural. `advance`, the loop `while (test(i)) ++i`, has one round
--   more than there are chunks: the test fails at the end of the transfer, so that this is enough
--   (`advance-Stops` in Common/Loops).
--
-- The server takes its file as a list of bytes, zero at first, and `msync` as an argument that says
-- whether it succeeded. Its loop is structural on the datagrams that arrive.
--
-- The client's loops are structural on what the clock, `poll` and `recvfrom` give in each turn; a list
-- that ends is a deadline, an empty socket, or a run that goes on. The handshakes are structural on
-- their attempts.
--
-- Not modelled: sockets, polling and clocks, beyond what their calls return; a send that fails, which
-- ends the program; argument parsing, name lookup and printing; floating-point arithmetic; the pacer,
-- but for the time that it takes.
pub mod Common
pub mod Protocol
pub mod Chunks
pub mod Reliability
pub mod Net
pub mod Server
pub mod FileIo
pub mod Client
pub mod System
pub mod Examples
