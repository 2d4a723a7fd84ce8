-- ===== src/Lib.antt =====
-- sophon-miner: the mining service of Filecoin for many miners. A loop chooses a base to mine upon,
-- lets each miner try to win the round, makes a block for each winner and broadcasts the blocks
-- through a slash filter, which keeps a miner from faults that the chain punishes.
--
-- The parts, and the files that model them (paths from the root of the repository):
--   Types         types/miner.go: addresses and CIDs are numbers, an epoch is an int64, written as an
--                 integer with its wrap-around (`int64`); the chain library's codecs are ChainCodec.
--   Datastore     the key-value store of go-datastore, a record of operations and of what it
--                 documents; Memory is one such store.
--   SlashFilter   node/modules/slashfilter: the interface (api.go) with the contract Guards that the
--                 miner relies on, Local (local.go) over a Datastore, Mysql (slashfilter.go) over a
--                 Table. An operation takes the state of the store and returns its result with the
--                 new state.
--   MinerManager  node/modules/miner-manager/auth_manager.go: the map of miners. sophon-auth is the
--                 record AuthClient of the answers it gives.
--   Recorder      node/modules/mine-recorder: the records of each miner at each epoch (mod.go) and
--                 the switch of inner_recorder.go. Encoding has the eight bytes of an epoch, Store
--                 the store with its queries.
--   Miner         miner: Candidate (GetBestMiningCandidate, getLatestBase), Round (the turn of
--                 `mine`), Attempts (mineOneForAll), MineOne (mineOne), Winner (ComputeVRF,
--                 IsRoundWinner, computeTicket), Create (createBlock), Broadcast (broadCastBlock; call
--                 by call in Broadcast/Interleaved, as a pool that broadcasts join at any time),
--                 Rounds (`mine`, all of it, round after round), Manage and Winners (miningmgr.go:
--                 the set of miners, and CountWinners), Reorg (ReorgOps), Randomness
--                 (DrawRandomness), Warmup (warmup.go), Prover (minerwpp.go with its gateway client),
--                 Sync (SyncStatus) and Lifecycle (Start, Stop).
--   F3            f3participant: Multi (multiparticipation.go, and its maker in node/modules/miner.go),
--                 the participants of the open miners,
--                 and Participant (participation.go), the loops of one of them.
--   Config        node/config: the configuration with its defaults and its check (def.go) and the
--                 conversion of the old one (migrate/def_nv170.go).
--   Repo          node/repo: the repository on disk (fsrepo.go) and its migration (migrate.go). The
--                 operating system's files are the record Disk, TOML is the record ConfigCodec.
--   Journal       lib/journal: the types of events and their registry, Alerting (alerting/alerts.go),
--                 Rolling (the files of fsjournal/fs.go) and Queue (its channel, step by step).
--   Api           node/impl/miner.go: the API with its filter by permission, over the interface of
--                 miner/api.go; Mining is the miner behind it, made of the modules above.
--   Node          node: Options (options.go) and Builder (builder.go), the settings that the options
--                 of run.go make. A constructor for fx is a value; fx is a parameter.
--   Cmd           cmd: Init (init.go), Run (run.go up to the node, and SyncWait of init.go), Addresses
--                 (the commands of address.go that name miners) and Queries (those that only ask).
--   Prelude       tests, integers, maps as lists of pairs, results, and the libraries' names.
--   Tests         the theorems at concrete inputs, and runs of the model.
-- The miner calls the slash filter through SlashFilterApi and the manager through its functions;
-- Broadcast.Safety takes any filter with Guards, and Local.Guard and Mysql.Guard provide it.
--
-- Loops over a list or a number of rounds are structural. `latest_base` reads a list of answers of
-- the node, one for each turn, and reports that it is still waiting when they are over.
-- `reorg_ops` runs on fuel: each turn goes to a parent, which is lower, so that fuel above the sum
-- of the two heights is enough. The loops of an F3 participant need not end: they run on fuel, say
-- when it is used up, and a theorem gives the number of turns after which a failing participation
-- ends. `mine_rounds` reads a list of events: turns of the loop with the answers of the world, and
-- calls of broadcasts. Goroutines that end in some order are that order, a list. A nil pointer
-- that is dereferenced is an outcome of its own.
--
-- Not modelled: clocks, logging and metrics; signing, hashing, proofs, TOML and RPC, which are
-- parameters; opening the datastores; the generated API proxies, fx and reflection, serving RPC, and
-- what the commands print.
pub mod Prelude
pub mod Types
pub mod Api
pub mod Config
pub mod Repo
pub mod Journal
pub mod Datastore
pub mod SlashFilter
pub mod MinerManager
pub mod Recorder
pub mod Miner
pub mod F3
pub mod Node
pub mod Cmd
pub mod Tests
