-- ===== src/Lib.antt =====
-- BookScout OS (ap-hub), a local accounts payable hub: mail and statements come in, bills are
-- extracted and mapped, proposals pass gates, and what is approved is posted to the books of
-- QuickBooks or Xero. This library models the parts that decide what is written to somebody's
-- books, and what is deleted.
--
-- ProviderJobs (src/qbdesktop/durable-jobs.ts) is the durable queue of QuickBooks Desktop work. Its
-- state (Row.Store) is the table provider_jobs with the rows of connections that leaseNext reads;
-- each method of DurableProviderJobs is a function on it, composed to histories in Step. Key is
-- stableProviderJobKey, Table the SQL that the methods share, Lease enqueue and leaseNext, Outcome
-- the reports, retry and adoption; Rows, Lifecycle, Recovery, Trace, Replay, Identity, Order,
-- Probes and Once prove. A method is one step: leaseNext runs under the connection's advisory lock,
-- the acknowledgements lock their row, and the others are one UPDATE or INSERT (retry reads the row
-- once more where its UPDATE found nothing).
--
-- Posting (src/pipeline/posting.ts) is postOnce. Books has its tables and the log of calls that
-- were made to the provider, Connector what it is given, Gate the conditions before a create,
-- Record the upserts of postings_ap, Post the run itself, one function for the rest of the run from
-- each point on. An answer of the connector may depend on all calls before it. Runs are one at a
-- time: what two concurrent runs do is not modelled. Grows, Keeps, Once, Gated, Stored and Recorded
-- prove.
--
-- Mapping (src/mapping/tax.ts, src/mapping/dimensions.ts) has the tax gate and the carrying of
-- dimensions from hints to the stored row and its gate, which Posting uses; Taxed proves. Numbers
-- are any type with the operations that the code applies to its doubles (Amount), so rounding and
-- NaN are not assumed away; the tolerance is a parameter. The normalisation of names is a parameter
-- here; Vendor.Resolve.normalize is the code's.
--
-- Gatekeeper (src/gatekeeper/gatekeep.ts, repo.ts, forwarder.ts, src/swarmsync/severity.ts) screens
-- an incoming message and forwards or holds it. State has the tables and the messages that were
-- handed to the mail client, Gatekeep the handler; the digest, the scan and the mail client are
-- parameters.
--
-- Session (src/qbdesktop/session.ts) has the Web Connector's sessions (Work) and the process's
-- registry of them with the work that waits for the next connection (Registry). The loop of `next`
-- has one unit of fuel more than there are items, since each turn moves the cursor.
--
-- Rotation (src/backup/rotation.ts) selects and deletes old backups. Dates are milliseconds. Prune
-- takes what other sessions do between two queries, the clock and unlink as parameters.
--
-- Statements (src/statements/ingest.ts, review.ts) are bank and card statements. Money is
-- parseMoneyToCents and centsToDecimal in whole cents, Tables the rows and the platform's
-- functions, Normalize the checks of an extracted statement, Import the transaction that stores it,
-- Review the matching and the validation of the stored rows, Filing corrections and filing. An
-- action that throws returns its fault and no store: the transaction is rolled back. Steps makes a
-- relation of the actions; Balance, Filed, Imported, Written, Reread, Again, Keeps, ImportKeeps and
-- ReviewKeeps prove. The decimal digits of a number recur on fuel, one unit more than the number.
--
-- Access is src/auth/ and src/services/index.ts: Guard the roles that Statements asks for, Sessions
-- the session table and requireSession, Cookie the signed cookie, States the login and connect
-- states, SignIn the local sign-in; Live and Once prove. Each query is one step.
--
-- WriteGate (src/accounting/write-gates.ts) is the owner's gate before writes, Confirmed its proof.
-- Vendor (src/mapping/resolve.ts) has the edit distance (Distance) and the resolution of vendors,
-- accounts and kinds of transaction (Resolve); Unambiguous proves. The table of the distance is
-- made row by row, each from the one above, as the code's loops fill it.
--
-- Ipc (desktop/) is the bridge between the window and the main process. Errors has the closed set
-- of codes, Envelope the request that a wrapper is given and the envelope of its response, Context
-- the held session and the screen of payloads, Registry the rules of a channel, Dispatch the
-- dispatcher and the registration; Reached, Authored and Registered prove. A wrapper changes a
-- state of the world that is a parameter; zod's parsing, JSON and URLs are parameters too.
--
-- Text has strings as lists of code units for Gatekeeper, Statements, Access, WriteGate, Vendor and
-- Ipc.
--
-- Prelude has the Boolean tests on numbers and the lemmas on lists that the parts share.
--
-- Times, ids and attempts are natural numbers. Loops recur on a list; those of `next` and of the
-- printing of a number in decimal (one unit more than the number has) recur on fuel. SHA-256,
-- random lease tokens, the provider, the file system and what other sessions write are parameters.
-- The database answers every query; texts that only explain (details, evidence, hashes) are left
-- out. Not modelled: OAuth exchanges and routes, the ladder of a proposal, the rest of the desktop
-- shell, the connectors' translation of documents, and the database's own runtime.
pub mod Prelude
pub mod Text
pub mod ProviderJobs
pub mod Posting
pub mod Mapping
pub mod Gatekeeper
pub mod Session
pub mod Rotation
pub mod Access
pub mod Statements
pub mod WriteGate
pub mod Vendor
pub mod Ipc
