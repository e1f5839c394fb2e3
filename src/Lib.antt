-- ===== src/Lib.antt =====
-- Verification library of rabbit-maximizer, which queues the pull requests whose CodeRabbit review
-- was rate limited and asks for the review again when the account may.
--
-- A detected comment is taken in by EnqueueService and enqueued (QueueRepository.enqueue): one row
-- of `review_queue` for a pull request is pending or retriggered at a time, and a comment that was
-- seen before changes its row or nothing. A tick of the Scheduler prunes closed pull requests,
-- resolves stale rows, and, unless it is paused or the account cools down, scans the pending rows
-- in the effective order, asks ReviewTrigger to post the retrigger of the first that is due, and
-- records what came of it. The ReviewDetector resolves the retriggered rows whose review it finds.
--
--   Prelude      shared names; tests on numbers, lists, counting (Prelude/Tests, Lists, Counting)
--   Domain       the enumerations of src/domain.ts
--   Schema       the tables of prisma/schema.prisma with the unique indexes of review_queue
--   Store        what the repositories send through Prisma, and the errors of
--                src/external-deps/couimet/prisma-repo/BasePrismaRepository.ts
--   Queue        src/db/queueRepository.ts: Marks (the operations on one row), Requests and Enqueue
--                (enqueue and its guards); Rules reasons on statements, WellFormed is the
--                invariant, of which Keeps, Reopen, Enqueue/Conflicting, Adopts, Inserts and Keeps
--                treat; Enqueue/Decision is the deduplication table of docs/business-rules.md, to
--                which Enqueue/Outcomes and Enqueue/Decides relate enqueue; Traces has the
--                transactions in any order, Reads the reads, with their pages in Reads/Pages
--   Order        src/db/queueOrderRepository.ts and src/utils/uuidLookup.ts
--   SystemState  src/db/systemStateRepository.ts
--   PullRequests src/db/pullRequestRepository.ts; Upsert has the rows of the scan with their keys and
--                the CHECK on their dates
--   Scanner      src/prScanner.ts: Runs has what a service leaves, Scanned and Steps treat of one
--                pull request, Reported of the whole scan
--   Comments     src/db/coderabbitCommentRepository.ts; Latest treats of its upsert, Deactivated of its
--                soft deletion
--   Service      what the services share: transactions one after another, the client of GitHub,
--                src/github/classifyCoderabbitComment.ts
--   Detection    src/EnqueueService.ts
--   Reviews      src/EditDetector.ts and src/ReviewDetector.ts (Detector); Kept and Tick carry what
--                the statements keep over to a tick, Retriggered and Tables apply them,
--                and Detection/Tables and Reviews/Tables are about the tables of the queue
--   Discovery    src/utils/mergeByPullRequestId.ts
--   Checker      src/DirectCommentChecker.ts; Candidates and Seen treat of what it yields, State of
--                the system state that it leaves
--   Poller       src/detectorPoll.ts and src/StalePrRecoverer.ts, a tick that runs Scanner, Detection
--                and Checker; Latched treats of the date of the next review
--   Interval     src/IntervalService.ts as a step relation
--   Activity     src/utils/deriveActivityStatus.ts
--   Scheduler    src/scheduler.ts (Tick, Selection, Recording), src/ReviewTrigger.ts (Trigger,
--                Recording), src/Pruner.ts and src/PruneEvaluator.ts (Tick)
--   Github       src/github/coderabbitGitHubClient.ts where it reads a listing page by page, with
--                src/github/isReviewForRun.ts and src/github/isMatchingCompletedReview.ts; Text has
--                src/github/splitRepo.ts and getPrStateFromGitHubValue of src/PrState.ts, Urls the
--                URLs of src/github, Markers the markers of src/github/coderabbitConstants.ts and
--                what is read off a body by them, Body src/github/buildCommentBody.ts, CommentUrl
--                src/github/parseCommentUrl.ts, Queries the queries of its searches,
--                Requests what it asks Octokit for, and Search the client where it searches, with
--                its other requests
--   Samples      data that the examples share; each Examples module runs the model on it
--
-- A transaction is a function from the tables to an error or a result with the tables after it; an
-- error carries no tables, as the transaction is rolled back. A `findFirst` without an order is a
-- parameter that yields some row that passes. A service runs transactions one after another and
-- keeps what has committed when a later one fails; the comments that it posts are part of its
-- state. Function names are those of the source in snake_case; a helper stands for a branch of the
-- function that the map names with its lines.
--
-- Dates are milliseconds on ℕ, where a difference stops at 0: no date is before the epoch. A tick
-- reads the clock once. Loops are over lists that are in hand, so they use no fuel, except those
-- of Github, which read pages until one is not full; they take the number of turns, and as many as
-- the listing has pages and one are enough. An event is kept by its type and pull request. The
-- services take the client of GitHub and the reading of comment text as parameters without
-- hypotheses. Github has most of that client over Octokit, which is a parameter there, and
-- `IsPaged` is the documented behaviour of its listings. Github/Markers has the reading of comment
-- text, where the wait that a comment states and the preview of a body stay parameters, as a
-- package strips the Markdown of the one and the other is cut at a length in UTF-16 units. Texts
-- are lists of characters, and JSON.stringify is a parameter of Github/Body.
--
-- Not modelled: the reads of the events, routes, configuration, logging, and vendored and
-- generated code.
pub mod Prelude
pub mod Domain
pub mod Schema
pub mod Store
pub mod Queue
pub mod Order
pub mod SystemState
pub mod PullRequests
pub mod Comments
pub mod Service
pub mod Detection
pub mod Scheduler
pub mod Reviews
pub mod Discovery
pub mod Scanner
pub mod Checker
pub mod Poller
pub mod Interval
pub mod Activity
pub mod Github
pub mod Samples
