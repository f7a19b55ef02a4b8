-- ===== src/Lib.antt =====
-- Verification of MVis-tokenminer, a miner of ERC-918 tokens for CPUs and OpenCL cards.
--
-- The program's parts. The main loop (ethminer/MinerAux.h) gets work from a node or a pool
-- (ethminer/FarmClient.h, libstratum/EthStratumClient.cpp), gives it to the farm
-- (libethcore/Farm.h), which gives it to its miners (libethcore/Miner.h and its subclasses), and
-- polls the farm for a solution, which it sends off as a share or as a signed transaction. The
-- transaction is written in RLP (libdevcore/RLP.cpp), over big-endian numbers and hex text
-- (libdevcore/CommonData.h).
--
-- What is modelled, file by file:
--   Hex           libdevcore/CommonData.h, CommonData.cpp: toHex, fromHex, asNibbles
--   BigEndian     libdevcore/CommonData.h: toBigEndian, fromBigEndian, bytesRequired
--   VectorRef     libdevcore/vector_ref.h: cropped
--   RangeMask     libdevcore/RangeMask.h: contains, unionWith, inverted, operator-=
--   Rlp/Stream    libdevcore/RLP.h, RLP.cpp: RLPStream
--   Rlp/Reader    libdevcore/RLP.h, RLP.cpp: RLP
--   Rlp/Item      the specification of both: values and their encoding
--   Trie          libdevcore/TrieCommon.h, TrieCommon.cpp: slices of nibbles and hex-prefixed keys
--   MemoryDb      libdevcore/MemoryDB.h, MemoryDB.cpp: trie nodes with reference counts
--   Miner, Farm   libethcore/Miner.h, Farm.h: the miners' work, the solution slot, the statistics
--   Mining        libethcore/EthashCPUMiner.cpp, EthashGPUMiner.cpp: nonces, the hook of a search
--   Gpu           libethash-cl/ethash_cl_miner.cpp: search, checkThrottleChange
--   Transaction   ethminer/SignTx.h: serialisation and signing of transactions
--   Client        ethminer/FarmClient.h: pending transactions, nonces, the shared file
--   MainLoop      ethminer/MinerAux.h: polling, difficulties, the developer's fee
--   Startup       ethminer/MinerAux.h: execute, the loop over the nodes; Misc.cpp, Common.cpp: split
--   Thermal       libethcore/Miner.h: PIDController
--   Session       ethminer/MinerAux.h: solutions, errors and the failover of doGetWork
--   PoolLoop      ethminer/MinerAux.h: doStratum, the farm and the client together
--   Stratum       libstratum/EthStratumClient.h, EthStratumClient.cpp: the connection to a pool
--   Worker        libdevcore/Worker.h, Worker.cpp: starting and stopping a thread
--   Numeral       the numbers of the command line: stol, atoi
--   Options       ethminer/MinerAux.h, main.cpp, ProgOpt.cpp: settings and the command line
--   Tests         concrete runs, and theorems at concrete inputs
-- A C++ name is found under the same words: toCompactBigEndian is to_compact_big_endian.
--
-- Conventions. A byte is a number below 256, a text the list of its character codes, a vector or a
-- view a list. Numbers are natural numbers; where the code's type can overflow the wrap-around is
-- written out (`% 2 ^ w`), and a buffer is taken to be shorter than the address space. An exception
-- is an error value, and a method that changes an object returns the new one. The farm's methods
-- hold their locks, so a run of its threads is a sequence of calls.
--
-- Loops. Loops over a number's bytes recur on the accessibility of the number. The loop over the
-- items of a payload takes fuel, the length of the payload, and the one over the arguments of the
-- program their number; both are shown never to run out of it, and so is the loop of unionWith, which
-- has as much fuel as the range has numbers.
--
-- Outside. What the node, the settings, the clock, SHA-3, the kernel of a card and the curve's library
-- answer are arguments; a theorem that relies on such an answer says what it asks of it.
--
-- Not modelled: device, socket and file access, the screen, floating-point hash rates, the
-- trie itself (TrieDB.h, TrieHash.cpp), block headers, the fixed hashes' operators, and the copies
-- of other projects' code (ethash, secp256k1, SHA-3, OpenCL headers).
pub mod Prelude
pub mod Hex
pub mod BigEndian
pub mod VectorRef
pub mod Rlp
pub mod Miner
pub mod Farm
pub mod Transaction
pub mod Client
pub mod MainLoop
pub mod Stratum
pub mod Worker
pub mod Numeral
pub mod Options
pub mod Startup
pub mod Session
pub mod PoolLoop
pub mod Trie
pub mod Gpu
pub mod Mining
pub mod Thermal
pub mod RangeMask
pub mod MemoryDb
mod Tests
