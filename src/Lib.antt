-- ===== src/Lib.antt =====
-- A model of the SynLedger node: its ledger, its Proof-of-Synergy engine, consensus, governance,
-- subnets, network and cryptography, and the start of the program.
--
-- The parts and how they interact. `main` (src/main.cpp) makes a PoSygEngine, a P2PProtocol, a
-- NodeDiscovery, a Ledger, a Governance over the engine and a SubnetManager, connects the discovered
-- nodes as peers, and loops over an engine cycle, a block, a vote and a rebalancing. Consensus refers to
-- a network, an engine and a ledger. Blocks and transactions call Crypto.
--
-- Files:
--   Block       Transaction and Block (include/ledger/block.hpp, src/ledger/block.cpp);
--               Block/Serialization is serialize and deserialize of both, over Streams, a model of
--               std::istringstream;
--   Ledger      Ledger (include/ledger/ledger.hpp, src/ledger/ledger.cpp); Ledger/Merkle is
--               calculate_merkle_root, Ledger/Confirmation the marks of confirmed blocks;
--               Ledger/Refinement has a stack of blocks as its specification, and
--               Ledger/Behaviour one of every public method; Ledger/Export is the chain as text;
--   Participant, Engine   Participant and PoSygEngine (include/consensus/posyg_engine.hpp,
--               src/consensus/posyg_engine.cpp); Engine/Statistics is get_statistics;
--   Economic    SynergyModel (src/economic/synergy_model.cpp);
--   Consensus   Consensus (src/consensus/consensus.cpp); Consensus/Multisig is handle_multisig,
--               with the mutex that its rounds lock and unlock;
--               Consensus/Orders and Engine/Rounds take parallel loops in any order of their rounds,
--               each on the whole engine, over Schedules; Consensus/History is any number of rounds of consensus;
--   Governance  Governance (src/governance/governance.cpp); Governance/Tally has a specification
--               that follows each proposal by itself;
--   Subnet      SubnetManager (src/subnet/subnet_manager.cpp); Subnet/Concurrent has its
--               calls from several threads, Subnet/Start and Subnet/Constructed what the constructor
--               allows;
--   Network     NodeDiscovery and P2PProtocol (src/network/node_discovery.cpp, p2p_protocol.cpp);
--               Network/Listening is the accepting thread beside the handlers, shutdown
--               and the destructor, Network/Messages what a handler reads, Network/Peers/Concurrent
--               add_peer from several threads;
--   Crypto      Crypto, ECDSA and ZKProofs (src/cryptography); Crypto/Service is Crypto as the Platform
--               that blocks and transactions use;
--   Main        main (src/main.cpp), up to the destructor of its P2PProtocol.
-- Locks has calls under a mutex as programs of single looks and writes, and what threads that interleave
-- them come to (Locks/Serial). Prelude has the shared types and lemmas (Prelude/Bag: lists without
-- their order, a quotient; Prelude/Totals: sums that do not depend on the order), Double what the program
-- needs of a `double`, Platform what the ledger needs of Crypto and of printing, Examples the values at which the
-- theorems are applied.
-- A class is a record of its fields, a method a function of the same name on that record, which returns
-- the new record, its value, or both; a throw is an `err`. What a method holds a mutex for from end to
-- end is one step; for `subnet_mutex` and for `peer_mutex` the programs of Locks are the
-- reason. A record of the operating system's or OpenSSL's answers stands for their calls.
--
-- Bounds. `size_t` arithmetic is taken modulo 2^64 where the source can overflow (Prelude/Tests).
-- The Merkle loop has fuel for one round for each transaction; each round halves the list, rounded up.
-- The loop that reads a block's transactions has fuel for one round for each character and one more; a
-- line that is read takes a character at least. The program's loop is modelled for any number of rounds.
-- The numbers of proposals and the counts of `get_statistics` are `int`s that wrap around (wrap_int in
-- Prelude/Int); the counts of `adjust_network_parameters` and of a participant are taken as unbounded, and
-- Engine/Limits is about the latter.
--
-- Not modelled: how a double is printed and read, a parameter; most messages on the console, and
-- waiting. OpenMP reductions on doubles are taken in the order of the indices. Beside the accepting
-- thread, the threads of a parallel loop, and the callers of SubnetManager and of the peers, the thread
-- that runs `main` is the only one that touches its objects. Methods that the headers
-- declare and no source file defines have no model.
pub mod Prelude
pub mod Schedules
pub mod Locks
pub mod Streams
pub mod Double
pub mod Platform
pub mod Block
pub mod Ledger
pub mod Participant
pub mod Economic
pub mod Engine
pub mod Governance
pub mod Subnet
pub mod Network
pub mod Consensus
pub mod Crypto
pub mod Main
pub mod Examples
