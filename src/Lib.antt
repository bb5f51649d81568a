-- ===== src/Lib.antt =====
-- Monte Carlo tree search with batched inference (the crates mcts-core and mcts-tilers).
--
-- A search (mcts-core/src/mcts.rs, `MCTS`) keeps an arena of nodes and a table from state hashes to
-- the arena. A playout walks down from the root by PUCT and marks each edge of its path with a
-- virtual loss (`select_leaf`); leaves are collected in batches, sent to an inference client,
-- expanded and backed up. `advance_root` moves the root to a child and prunes what it does not
-- reach. Inference runs in other processes over an arena of slots in shared memory
-- (mcts-core/src/ipc_core.rs), with two ring queues of slot indices.
--
--   Prelude            the monad of panics and fuel, lists, 64-bit words, association lists
--   Float              f32 as an abstract type with the operations that the source calls
--   Environment        mcts-core/src/environment.rs and inference.rs: the two traits
--   Node               mcts-core/src/node.rs: `Node` and all of its methods
--   Mcts               mcts.rs: `MCTS`, `get_node_immut`, `insert_node`, `add_child`, `create_node`
--   Priors             mcts.rs: `normalize_prior`
--   Puct               mcts.rs: `puct_scores`, `select_action_puct`
--   Leaf               mcts.rs: `select_leaf`, `check_state_repeat`
--   Expand             mcts.rs: `expand`
--   Backup             mcts.rs: `recompute_value`, `backpropagate`
--   Advance            mcts.rs: `advance_root`
--   Run                mcts.rs: `run`, `blocking_infer`
--   Target             mcts.rs: `policy_target`
--   Tree               the invariant that these operations keep
--   Ipc                ipc_core.rs: `SpinLock`, `RingQueue` and `Arena`
--   Slot               mcts-tilers/src/slot.rs: `TilersSlot`, packing and unpacking
--   Client             mcts-tilers/src/client.rs: `TilersIpcClient`
--   Tilers             mcts-tilers/src/environment.rs, client.rs: `build_obs`, the uniform client
--   Gatherer           mcts-tilers/src/gatherer.rs: `Gatherer`, its settings and cusp rewards
--   Gatherer.Game      what it calls of the game, and `solve_with_heuristic`, `heuristic_typed_plan`
--   Gatherer.Sampling  `_dirichlet_noise`, `_action_probabilities`, `select_action`
--   Gatherer.Episode   `run_episode_from`: the loop, one search and one move a round
--   Gatherer.Outcome   `run_episode_from`: the budget, the score and the outcome
--   Gatherer.Corpus    `write_episode`, over the lines of Gatherer.Lines
--   Gatherer.Demos     `write_demo_episode`, `gather`, and the climb with its episodes and lines
--   Gatherer.Curriculum, Gatherer.Frontier
--                      `gather_reverse_curriculum`, over any function that plays an episode
--   Evaluator          mcts-tilers/src/evaluator.rs: `evaluate_single`, `evaluate_agent_with_client`
--   Tests              a small game, and the theorems at concrete inputs
--
-- Each operation is a function by clauses on the state, with the names of the source; helpers stand
-- for the bodies of its loops and branches. An index out of bounds, an `unwrap` of none and a failed
-- inference are the result `panic`; a loop that is not structural has fuel, and `out_of_fuel` is a
-- result of its own. A `usize` addition wraps at 2^64. The table is a function from ids; a `HashMap`
-- that is iterated is a list of its entries. An action is its index: every `Act` of the source is an
-- unsigned integer.
--
-- Fuel: a playout has two rounds more than there are nodes, which is enough because a walk that sees
-- a state again ends. The search for reachable nodes has one round more than there are child slots
-- in the arena, since every queued id but the first is one of them.
--
-- An episode has at most as many rounds as its budget of actions, as in the source.
--
-- Parameters: the game, the inference client, the evaluator of terminal states, and the arithmetic
-- of f32, which stands for f64 in the gatherer too. A lawful game (`Tree.IsLawful`) offers only
-- actions that have a slot, and its hash decides the hashes of the successors, as the transposition
-- table presumes. A client that answers (`Run.Total.Answers`) gives a prior and a value for each
-- observation. The game's library and the random numbers are the records `Library` and `Random` of
-- Gatherer.Game; the generator's state is passed from draw to draw in the order of the source.
--
-- Threads: Ipc.Ring.Threads interleaves the loads and stores of the calls on a queue, one at a time
-- and in any order; what it shows lets the other modules take an operation of a queue as one step. A
-- call that blocks is one attempt there, and out_of_fuel in Client.
--
-- Not modelled: the clock and the mapping of shared memory; the backoff of waiting loops; printing;
-- errors of the file system, which takes every line; of mcts-tilers the inside of the game's library,
-- `run_gatherer` and its threads, the query of the holdout set, the command-line programs and the
-- Python bindings. The climb takes an episode as a parameter, which `gather` fills in.
pub mod Prelude
pub mod Float
pub mod Environment
pub mod Node
pub mod Mcts
pub mod Priors
pub mod Puct
pub mod Leaf
pub mod Backup
pub mod Expand
pub mod Advance
pub mod Run
pub mod Slot
pub mod Client
pub mod Tree
pub mod Ipc
pub mod Tests
pub mod Target
pub mod Evaluator
pub mod Gatherer
pub mod Tilers
