-- ===== src/Lib.antt =====
-- Verification library of the trading system: its state machines, its kill switch, its replicated
-- halt log, its supervising agents, its data feed, its message rings, its watchdog, its order
-- pipeline and its credit, venue routing and clearing, each translated from the Python sources and
-- proved about. Paths below are from the repository's root.
--
-- The parts, their files, and the code they model:
--
--   Base          names, lists, dicts, sets, integers and bit masks that the other parts share.
--   Session       infrastructure/session_state_machine.py and the session states of core/enums.py.
--                 States has the transition table and the states that need a human; Machine has
--                 SessionStateMachine method by method, with the pending resume tasks of
--                 pause_cooldown as a list; Runs has any series of its calls. Allowed, Halts and
--                 History hold the theorems.
--   KillSwitch    infrastructure/kill_switch.py. State and Mfa have the fields and the token test
--                 (the digest of hmac is a parameter; compare_digest raises for a text that is not
--                 ASCII), Handlers the four REST handlers, where the bus and the audit log may raise,
--                 Flatten the background flatten cut at its calls of the broker, Steps the requests
--                 and the segments of the flatten in any order. Access, Order and Outcome hold the
--                 theorems.
--   Raft          infrastructure/raft.py. Node has RaftNode, Cluster the three nodes and the
--                 proposals cut at their calls of the peers, Runs every interleaving of timers,
--                 elections, heartbeats and parts of proposals, Psa the class RaftPSA. Leaders,
--                 Agreement and Stale hold the theorems.
--   Trading       pipeline/state_machine.py and SystemState of core/enums.py. Machine has
--                 TradingStateMachine, Clock the table that a tick follows, Runs series of ticks.
--   Ring          class SharedRingBuffer of infrastructure/shared_memory_bus.py. Buffer has the
--                 slots and `write`, cut at its three stores; Window and Reader hold the theorems.
--   Disruptor     infrastructure/disruptor.py. Buffer has RingBuffer, the publication and one pass
--                 of EventProcessor.run; Window and Consumer have the lemmas, Order the theorems.
--   Watchdog      infrastructure/watchdog.py. Monitor has BusWatchdog, with the heartbeats that
--                 arrive while a callback is awaited; Edges, Silence and Reports hold the theorems.
--   Broker        CreditLine, PrimeBrokerRouter and route_order of infrastructure/prime_broker.py.
--                 Limits, Accounts, Selection, Routing and Costs hold the theorems.
--   Clearing      DTCCClearingEngine of infrastructure/dma_exchange.py. Engine has the trades and
--                 the netting, Netting and Totals the theorems.
--   Sbe           SBECodec.encode and decode of infrastructure/sbe_codec.py. JSON and the test for
--                 UTF-8 are parameters, and so are the id and the time that a decoded message gets
--                 anew; a text is its UTF-8 bytes. RoundTrip holds the theorem.
--   Supervisor    agents/agent_13_portfolio_supervisor.py. State has the fields and the messages,
--                 Control the halts, pauses and resumes, which drive the machine of Session, Trades
--                 the closed trades and the limits, Runs what reaches the agent. Halted, Limits,
--                 Stopouts, Pauses and Holds hold the theorems.
--   Governance    agents/agent_16_human_governance.py, ChangeProposal of core/models.py and the table
--                 of proposals of infrastructure/state_store.py. Proposals and Agent have the
--                 definitions, Runs any series of messages and calls; Tables has the lemmas on
--                 lookups, Decisions and Restart the theorems.
--   DarkPool      agents/agent_25_dark_pool.py. Ats has DarkPoolATS, Crossing when an order can be
--                 crossed inside, Routes what a route does, Runs
--                 series of orders and inventory updates.
--   Fpga          infrastructure/fpga_sim.py. Frame and Units have the pipeline stage by stage, Signals
--                 and Limits what the stages do, Safety and Runs the theorems.
--   Dma           the order path and the rebates of infrastructure/dma_exchange.py. Path has the
--                 classes, with submit_order cut at its sleep, Runs any series of its calls, Books and
--                 Ids the theorems. The rates and the sums are floats.
--   Toxicity      infrastructure/venue_toxicity.py. Tracker has the classes, Choice and Books the
--                 theorems.
--   KernelBypass  infrastructure/kernel_bypass.py. Feed has the ring of frames, Adapter the loop that
--                 reads it, over any source; Window and Frames say what the frames hold, Queue has the
--                 queue that the ring stands for, Runs the theorem.
--   DataFeed      data/feed.py, and _check_sequence_gaps of agents/agent_03_data_integrity.py. Ticks and
--                 Sequence have the definitions, Caches, Runs and Gaps the theorems.
--
-- How they meet: the coordinator runs the trading state machine and the session state machine; the
-- kill switch and the watchdog call the supervisor, whose halts go through the Raft log and which
-- drives a session state machine of its own; the governance agent's restart reaches the supervisor
-- as a message, which Governance.Restart delivers; the messages of the agents travel over one of
-- the rings, with the payload encoded by infrastructure/sbe_codec.py; the data integrity agent
-- reads the tick cache of the data feed, and DataFeed.Gaps runs the two together. Elsewhere each
-- part is a module of its own, and what it calls is an argument: broker answers, bus errors, clock
-- readings, arrivals of heartbeats.
--
-- What the models assume. Asyncio code is cut where it can suspend, and only there: between two
-- such points it runs at once. A handler of the kill switch is one step, its calls of the bus and
-- of the audit log included; a message of the supervisor is handled at one reading of the clock.
-- Times are natural numbers of the smallest unit that the code compares. Texts that are only
-- compared as keys are natural numbers. Amounts of money of Broker and Clearing are non-negative
-- whole numbers of a smallest unit, and costs of venues whole hundredths of a basis point, so that
-- the rounding of floats is left out. In Supervisor, Dma, DarkPool, Fpga, Toxicity, KernelBypass
-- and DataFeed floats are the interface Floats of Base, whose operations are parameters: what is
-- proved holds for every rounding, NaN and infinity included; Division says where a division does
-- not raise. A handler of the supervisor and of the governance agent runs to its end before the
-- next one starts, and its calls of the store and the bus return. The `_` in front of a method is
-- dropped.
--
-- Bounds and fuel. No function runs on fuel: the loops of the sources that need not end (`run` of
-- the watchdog and of the event processor, `read` of the ring) are functions of the list of their
-- rounds, and the theorems hold for lists of every length. The ring's sequence field has 64 bits:
-- the theorems on it hold below 2 ** 64 - 1 messages, the value that marks an unwritten slot; that
-- on the ring of KernelBypass, whose field has 64 bits too, holds for up to 2 ** 64 events. Rings
-- have 2 ** width slots for every width, as the constructors of the sources ask for a power of two.
--
-- Not modelled: the other agents, the numeric models and statistics of core, the stores, the
-- network simulations and the user interface, which are float numerics, calls of client libraries
-- or rendering; and the other parts of infrastructure, data and pipeline. Of the files above:
-- logging, the texts of log lines, the start and stop of tasks, CrossMarginBook and
-- AllocationReport of prime_broker.py, SharedMemoryBus, the dispatch to handlers of DisruptorBus,
-- DeterministicClock, and the dictionaries that the classes make for display.
pub mod Base
pub mod Broker
pub mod Clearing
pub mod DarkPool
pub mod DataFeed
pub mod Disruptor
pub mod Dma
pub mod Fpga
pub mod Governance
pub mod KernelBypass
pub mod KillSwitch
pub mod Raft
pub mod Ring
pub mod Sbe
pub mod Session
pub mod Supervisor
pub mod Toxicity
pub mod Trading
pub mod Watchdog
