-- ===== src/Lib.antt =====
-- The Swarm: a peer-to-peer network that stores data in erasure-coded shards and executes
-- programs on the shards, ordered by a graph consensus.
--
-- The program. Each node runs four modules that exchange events with the network behaviour over
-- bounded channels: the consensus orders transactions, the instruction memory follows which
-- programs were finalized and which peers executed them, the processor executes a program on the
-- shards that the node is assigned, and the data memory stores, distributes and recollects
-- shards. The processor reads and writes the data memory over a bus of two channels of its own,
-- one for each.
--
-- The files. Paths are those of the repository.
--   Types, Types/Xor                      src/types.rs
--   Encoding/ReedSolomon and below it     src/encoding/reed_solomon.rs (`ReedSolomonWrapper`)
--   Processor/Instruction                 src/processor/instruction.rs
--   Processor/Program                     src/processor/mod.rs (`Program`, `ProgramIdentifier`)
--   Processor/SingleThreaded and below    src/processor/single_threaded.rs (`ShardProcessor`)
--   Processor/SingleThreaded/Queue        programs whose writes wait for the memory
--   Processor/Mock and below it           src/processor/mock.rs (`MockProcessor`)
--   InstructionStorage and below it       src/instruction_storage/mod.rs (`InstructionMemory`)
--   DataMemory/State, Output              src/data_memory/mod.rs: events, state, output channel
--   DataMemory/Storage                    the methods of `InitializedDataMemory` on its maps
--   DataMemory/Uninitialized              `UninitializedDataMemory`
--   DataMemory/Handlers, Run              the branches of the event loop, and the loop
--   DataMemory/Invariant and below it     what every event keeps true
--   DataMemory/Distribution, Recollection how data reaches the peers and comes back
--   DataMemory/Responses, Retrieval       a recollection from the request to the last response
--   DataMemory/Acceptance, Access         accepted distributions; the local storage
--   DataMemory/Rewriting                  data that is put under an id that was used before
--   Consensus/Transaction, Graph, Loop    src/consensus/mod.rs, src/consensus/graph.rs
--   Consensus/Buffer, Inclusion           the order of transactions; what becomes of scheduled ones
--   Behaviour/Handlers, Delivery          src/behaviour/handlers.rs
--   Behaviour/State, Memory, Exchange     src/behaviour/mod.rs: state; data memory; network requests
--   Behaviour/Gossip, Poll                src/behaviour/mod.rs: peers and gossip; the rest of `poll`
--   Behaviour/Timer, Metrics              src/behaviour/gossip_timer.rs, src/behaviour/metrics.rs
--   Behaviour/Steps, Stages, Trace        what holds at the end of each part of a poll
--   Behaviour/Failure                     why a poll fails
--   Behaviour/Quiet, Progress             polling again and again comes to an end
--   Behaviour/Log, Consistency, Reachable the measurements and the timer in every reachable state
--   Behaviour/Deadline, Timeline          the bounds of the timer; the points drawn of the syncs
--   Behaviour/Recognition, Gating         how transactions reach the modules, and programs the processor
--   Behaviour/Heard, Answering, Responding  requests and responses between peers
--   Behaviour/Serving, Initialization     together with the data memory: serving, initializing
--   Behaviour/Peers                       the connected peers, and the choice of one
--   Module                                src/module.rs: the state that a module shares
--   Protocol                              src/protocol/mod.rs, src/request_response.rs
--   Encoding/Mock and below it            src/encoding/mock.rs (`MockEncoding`)
--   Common and below it                   maps, results, channels and lists that these share
--   a module Tests                        runs of the definitions on small inputs
--
-- How the model corresponds to the code. A module's state is a record with the fields of the
-- struct, less its channels; a handler is a function from the state and the output channel to the
-- new ones and to how it ended: it goes on, `run` returned, the shutdown token was cancelled, or
-- it panicked. The loops take the list of what wakes them. A channel is the list of the events
-- sent, and how many sends succeed before the receiver is closed, if it ever is: a send that
-- would wait counts as one that succeeds; where the behaviour polls a send once, a full channel
-- is one that aborts. The behaviour is a record of its fields and of its ends of the channels; a
-- part of `poll` is a function to the new state and to what the poll returns there, if it does,
-- and the parts are composed in the order of the code. A poll sees the queues as they are when it
-- starts to receive: what the other tasks add to them or take from them is an exchange between
-- two calls. The clock and the random numbers are functions of the number of times that they were
-- used, a peer id is a number, and a sync is a list of the graph's jobs. `HashMap` and `HashSet`
-- are association lists and lists of keys, whose order stands for the order of a visit. Numbers
-- are unbounded, as the code compares identifiers and counts elements of collections only, and
-- durations are whole numbers of some unit; bytes are numbers that are only copied, compared,
-- added in the field or xor-ed. Log messages are left out.
--
-- Parameters. The erasure-coding crate is the record `ErasureCode`; what the wrapper relies on is
-- `IsErasureCode`: a codeword begins with its data shards, and any `data_shard_count` shards of
-- it bring back the whole codeword. A small code of three shards stands for it in the tests. The
-- addition of GF(2^8), `bincode`, the hash function, the sigmoid of the timer in floating-point
-- numbers (`Floats`), the clock, the random numbers, the hashgraph crate's `Graph` (`GraphApi`)
-- and the channels between the processor and the memory are parameters too: a bus whose contents
-- count the writes that are queued (`IsMemory`), or one where the memory comes to no write
-- (`IsQueue`); what is between, the memory at work on the writes while a program reads, is not
-- modelled. The sizes are those of the default build: shards of 4 bytes, data of two shards.
--
-- Bounds. Every loop is structural recursion on the list that it visits. `chunks` counts its
-- rounds, of which the length of the bytes is enough, as each takes a byte at least. `next_tx`
-- loops for as many rounds as there are events without transactions, and counts them: more rounds
-- than events are enough. The driver that polls the behaviour again counts its polls: one more
-- than there are peers to dial and events of the consensus is enough.
--
-- Not modelled: the framing of the wire protocols and their names, signatures, the user
-- interface, the reading of files, and the set-up of the node, which are input and output around
-- libp2p and tokio; the creation of connection handlers and the wake-ups of the executor; the
-- cancellation of a loop by the shutdown token, but for the poll that ends with it;
-- src/behaviour/old.rs, which is not compiled.
pub mod Common
pub mod Types
pub mod Encoding
pub mod Processor
pub mod InstructionStorage
pub mod DataMemory
pub mod Consensus
pub mod Module
pub mod Protocol
pub mod Behaviour
