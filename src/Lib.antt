-- ===== src/Lib.antt =====
-- barycenter, a control plane for nginx load balancers: the part that decides what a data-plane node
-- serves.
--
-- A leader changes a node in operations. An operation's envelope names the leader's token, the
-- operation, the transition, and for each of the two planes (http and stream) the position that it
-- expects and the one that it moves to. The node's agent keeps the durable state that decides which
-- step of which operation is let through, and answers a step that it has seen again with the answer
-- it gave.
--
-- Files:
--   Prelude: names of the libraries, Boolean tests on numbers, dictionaries, lists, sorting and
--     texts.
--   Dp/Operation: src/dp/operation.ts. Names of functions and fields are the source's, in snake
--     case: provesActivation is proves_activation.
--   Dp/Agent: src/dp/agent.ts. State has the types; Identity the comparisons of who did what;
--     Rules and Settle the functions that the operations share (admit, acquire, finish;
--     finalizeCandidate, supersede); Verbs the operations on one plane; Opening is reserveAll;
--     Journal the operations on the journal, the right to apply and the publish intent; Prune is
--     prune; Checks is assertInvariants; Serial the compare-and-set loop; Requests the agent as a
--     whole. The proofs: Ensures (results in general); Slots, Advance, Admission, VerbsAdvance,
--     FenceAdvance, JournalAdvance, OpeningAdvance and History (what moves forward, and the shape
--     of slots); Fencing; Answers and Replay; Commits; Standing and Ends (what an end leaves after
--     pruning); Intents (what pruning leaves alone); Linear (the loop of Serial); Exclusive (one
--     holder, one writer); Baseline, Promotion and Candidates (the last activation). Tests,
--     SerialTests and ExclusiveTests run the definitions on concrete data.
--   Dp/Apply: src/dp/apply.ts, the runner. Monad has what its methods are made of: the agent's
--     state, a world that the effects act on, the phases written, a log of the calls that change
--     what is served, and what is thrown; the effects are a record of parameters. Envelope has the
--     functions on values, Steps the methods that the phases share, Phases and Reload one function
--     for each case of the switch, Drive the loop, run and recover. The loop has the source's own
--     limit of 64 rounds, so no other fuel is needed. Stable, Whole, WholePhases and WholeDrive
--     show that what the primitive steps keep, the whole runner keeps; WriteAhead and Timely use
--     that. Tests runs it.
--   Dp/Retention: src/dp/retention.ts, sweepGenerations. The file system's answers are parameters.
--     Newest is about the order of the candidates, Placed about where one stands and since when it
--     has been inactive, Removed about what goes.
--   Control/Leader: src/control/leader.ts, with one event for each stretch of a method between its
--     awaits; Office has what follows, Tests examples.
--   Validate: src/validate. Ip is ip.ts up to cidrVersion, Cidr its ipBits and cidrCovers, Sockets
--     is sockets.ts. A text is the list of its character codes. Prefixes and Cover are about
--     blocks, Written about the dotted notation, Contention and Loopback about sockets; Tests has
--     examples.
--   Validate/Strings: src/validate/strings.ts. The file itself has the hosts, Header the names and
--     values of headers and the prefixes of paths, HashKey the keys of hashes. References and
--     Values are about the values of headers, Safe about hosts; Tests has examples.
--   Validate/Transition: src/validate/bind-transition.ts and src/model/redirect.ts. Groups and
--     Together are about the sockets that are bound, Reload about what a reload does.
--   Route: src/route/compile.ts. The file itself has patterns and patternsConflict, Compile
--     compileHostRoutes and analyze, Strict planStrictPriority with its search by depth first.
--     Conflicts is about the hosts that patterns match; Compile/Tried, Order and Warnings about
--     what is compiled; Strict/Edges and Graph about the arrays of neighbours, Links, Visit and
--     Search about the search, Lowered, Keys and Order about the plan; Tests has examples.
--   Acme: src/acme/der.ts. Der is the encoder, a buffer being the list of its bytes; Read, Arcs
--     and Names read back what it writes with a decoder of the standard, Open and Request go down
--     to the parts of a request; Tests has examples. An arc is written in five rounds at most,
--     since its shift works on 32 bits.
--   Dp/SecretGc: src/dp/secret-gc.ts, partitionForSweep. Groups is about the versions of one name,
--     Newest about their order, Kept about what stays; Tests has an example.
--   Control/Health: src/control/health.ts, the part of sweep that turns probe results into
--     verdicts. A transaction's row is a dictionary entry; Streaks is about one backend, Sweeps
--     about many.
--
-- How the code corresponds. A method's callback under `serial` is a function from the state that it
-- has loaded to the new state and the answer, or to a rejection; a rejection is a thrown DpRejection,
-- and leaves the stored state alone, because the callback works on a copy. Identifiers, digests and
-- generation names are compared for equality only, and are numbers here. A decimal string that
-- `normalizeNumeric` accepts is the number that it writes; it is unbounded, as BigInt is. A joined key
-- is the tuple of its parts, since identifiers hold no separator. `terminalAt` that is not there is
-- the empty one. Messages of errors are left out.
--
-- Bounds: the compare-and-set loop tries again cas_retry_limit times, as the source; it recurs on
-- the stores that its saves meet. The runner's loop recurs on the rounds left of its limit, its
-- polling on the attempts left, the groups of seven bits on the five rounds. The loop over a
-- header's value has its length as fuel, since each round leaves a shorter text; a search in
-- planStrictPriority has the number of hosts, since each round pops an index that was pushed when
-- it was seen first. All other loops recur on the lists that they go over.
--
-- Not modelled: the agent's reads that change nothing and its HTTP transport, the queue that lets
-- one runner at a time drive (exclusiveApply), the leases that the effects check, the probes
-- themselves, the file system, the other validators, the rest of the ACME client, the renderer of
-- the engine's configuration, the programs and the console. The state is the one that stands in
-- the store; that saves are atomic is the store's promise.
pub mod Prelude
pub mod Dp
pub mod Route
pub mod Validate
pub mod Acme
pub mod Control
