-- ===== src/Lib.antt =====
-- A verification development for agent-permission-guard, a gateway that stands between an MCP client and
-- the servers of its tools, and a guard for package installs.
--
-- The parts and the files that model them, with paths from the repository's root:
--   Json.antt, Base.antt      JSON values, and the shared library (Text is a list of UTF-16 code units)
--   Risk/                     src/risk: the detectors, the map of signals and the score (scoreRisk)
--   Policy/                   src/policy: the schema, the patterns and the ranking of rules
--                             (matchPolicy), the escalation by risk (evaluatePolicy), and the live
--                             controller with its file (live-controller.ts, loader.ts)
--   Audit/                    src/audit/recorder.ts: Records has the rows and receipts, Call and Finish
--                             one function for each method of an audit call, Lifecycle any sequence of
--                             them, Chain the hash chain; Redaction is src/audit/redaction.ts
--   Approval.antt             src/approval/service.ts: pending requests and how they are settled
--   Gateway.antt              src/gateway/gateway.ts: the handler of tools/call, which evaluates the
--                             policy, begins an audit call, waits for the approval and calls upstream
--   Install/                  src/install: the parser of requests (parser.ts), the risk, the built-in
--                             policy and the run of an install (service.ts); Machine, Plan and Planner
--                             make a plan (execution-plan.ts), Verifier checks its preconditions and
--                             the result (verifier.ts); Audit/Canonical is src/audit/canonical-json.ts
--   Stage/                    src/stage: the stage's state machine (state-machine.ts), the live phases
--                             (graph-genesis-live-state.ts), the artifacts (integrity.ts), the policy
--                             of archives (Archive: archive-policy.ts), and the reader of archives
--                             (Tar, Gzip, Transcript: tar-archive-parser.ts); Peers and what is below
--                             it are peer-dependency-semantics.ts: versions and ranges, Paths, Nodes
--                             (the reading of the input), Graph (closure, assertOrdinaryDag,
--                             includeRequired), Resolution (resolveNearest), Analysis
--   Tests/                    runs on concrete inputs, and a concrete order of texts
--
-- The gateway uses the policy for its decision and the audit call for its record; the policy uses the
-- scorer. State is passed explicitly. A method of the audit gives the state behind it and whether it
-- threw; its environment says what the clock reads, whether the receipt schema accepts, and whether
-- the transaction commits (if not, the rows are as before). Events stand the newest first. What the
-- gateway and the install run get from outside (approvals, upstream results, planner and runner,
-- failures of the database) is a record with one field for each time they look. Loops that are not
-- structural run on fuel: the one over the blocks of an archive (Tar.antt, inspectExactUstar) on the
-- number of bytes, since a round takes at least one block of 512; those of the peers on the number of
-- edges and starting paths (closure), of paths and one more (assertOrdinaryDag, which visits no path
-- below itself), of nodes (includeRequired, and the loop over the required nodes, where each round or
-- call takes one path that was not taken before), and of characters and one more (resolveNearest,
-- where a parent's path is shorter). Times are natural numbers of milliseconds.
--
-- A reader of an archive compares its own loop with the events of the package tar, asks the policy of
-- archives, and returns a transcript; a failure of the stage is a thrown PackageStageError, here the
-- result `throws` of Base/Outcome.antt. A controller of the live policy changes its memory and its
-- file together.
--
-- Parameters: localeCompare on rule ids, a total order where a theorem says so; SHA-256 and SHA-512;
-- base64; the YAML reader with the shape of a document; the files, directories and links that a plan
-- is made on, join, SHA-256, JSON.parse, JSON.stringify, Date.parse, URL and toLowerCase, in the
-- records Machine and Platform of Install/Machine, where realpath gives a path that it gave before
-- back as it is where a theorem says so; inflateRawSync, the UTF-8 decoder, NFC, lower case,
-- isAbsolute, and the events that the parser of the package tar reports. The printed digest has no
-- line feed where a theorem says so.
--
-- Not modelled: YAML and zod beyond the checks of Policy/Schema, the content of receipts beyond status,
-- approval and times, the printed texts of results, processes, files beyond those of plans and policies, the network, the
-- database's set-up, the dashboard and the command line.
pub mod Base
pub mod Json
pub mod Risk
pub mod Policy
pub mod Audit
pub mod Approval
pub mod Gateway
pub mod Install
pub mod Stage
pub mod Tests
