-- ===== src/Lib.antt =====
-- Models of the Go services of the telemetry search engine, and proofs about them.
--
-- The search service keeps an inverted index in memory. Documents come from parquet files; each
-- is cut into tokens and entered into the posting lists of its tokens. Finalize sorts the lists
-- and cuts them into blocks with bounds on their scores. Search answers from a cache, or ranks by
-- Block-Max WAND with BM25 scores or by a scan with filters, cuts out a page and caches it.
--   Tokenizer          search-service/internal/indexer/tokenizer.go: Tokenize, as tokenize;
--                      Tokenizer/Scan, Terms, Pieces and Parts hold what is proved
--                      of it
--   Index              the data of search-service/internal/indexer/index.go and of
--                      search-service/internal/model/document.go
--   Index/Add          AddDocument, as add_document
--   Index/Finalize     Finalize, finalizeLocked and sortAndBlock; idfFunc and normFunc
--   Index/Cursor       the cursor of a posting list: advance, next, blockMaxScore
--   Index/Heap         minHeap, with Push and Pop of container/heap
--   Index/Filters      fieldFiltersMatch, hasFieldFilters
--   Index/Wand         wandBM25, as wand_bm25: scan is its loop, round one turn of it
--   Index/CacheKey     buildCacheKey, itoa
--   Index/Search       Search, as search_documents, filterScan, and the management operations
--   Index/Inversion, Loaded, Final, Finalized, Clean
--                      the abstract view of the index, a list of documents, and the refinement
--   Index/Blocks, Bounds, Cache, Paging, Heaped, Sound
--                      blocks, stored bounds, result cache, pages, heap, ranking
--   Index/Seek, Below, Landing, Remaining, Active, Ends, Total
--                      the search in a block, the entries ahead of a cursor, the loop's cursors and
--                      its end
--   Index/Tally, Conjunctive, Turns, Kept, Complete, Distinct, Once, EveryToken
--                      which documents the loop of wandBM25 keeps, and how often it ranks one
--   Index/Content, Answer, Runs
--                      what Search leaves alone, that it returns, every sequence of operations
--   Index/Overlap      Search from one lock to the next, so that searches and the index's other
--                      operations overlap: Overlap is what they come to
--   Index/Cached, Fresh, Serial
--                      what is proved of the results that overlapping searches cache
--   Parquet            search-service/internal/parquet/reader.go: ReadParquet, as read_parquet
--   Parquet/Counted    ingest-service/internal/worker/parquet.go: readParquetFile
--   Parquet/Rows       what is proved of the rows
--   Service            search-service/internal/api/handler.go: the handlers, loadDir and the routes;
--                      serve is one request, from the router to its answer
--   Service/Start      search-service/cmd/server/main.go: the index before the first request
--   Service/Served, Answers
--                      what requests make the index hold, and what they are answered
-- The auth service hands out pairs of JWTs and keeps the refresh tokens that it has issued.
--   Auth               auth-service/internal/store/store.go
--   Auth/Token         auth-service/pkg/jwtutil/jwt.go
--   Auth/Handlers      auth-service/internal/api/handler.go
--   Auth/Service       the same handlers, from one critical section of the store to the next, so that
--                      requests overlap: Turn is one step of the service
--   Auth/Rotation, Sessions, Validated, Users, Grants, Granted
--                      what is proved of the handlers, the store and overlapping requests
-- The search and the ingest service check the access tokens themselves, with the same code.
--   Access             search-service/internal/middleware/auth.go, which stands for
--                      ingest-service/internal/middleware/auth.go too: RequireAuth, RequireRole
--   Access/Guard       what is proved of a route behind them
-- The ingest service saves uploads, counts their rows in a pool of workers, and notifies the search
-- service.
--   Ingest             ingest-service/internal/api/handler.go: the handlers and the routes
--   Ingest/Notify      notifySearchService, and what it does to the search service
--   Ingest/Jobs        process with the OnDone of an upload
--   Ingest/System      ingest-service/cmd/server/main.go, and the service with its workers and the
--                      search service step by step: Advance is one step
--   Ingest/Done, Rerun, Settled, Settles
--                      what is proved of all sequences of these steps
--   Ingest/Files, Writers
--                      what is proved of uploads, deletions and callers
--   Queue              ingest-service/internal/worker/queue.go: Step is one step of the goroutines
--                      that submit and process jobs, in any order
--   Queue/Steps, Progress, Drained
--                      what is proved of the jobs
-- The coordinator asks every shard's search service and merges the answers.
--   Coordinator        coordinator/internal/api/coordinator.go: the query that a shard gets
--   Coordinator/Shards the shards, notifications, reindexes and stats
--   Coordinator/Merge  handleSearch
--   Coordinator/Params, Routing, Merged
--                      what is proved of them
-- Common holds what the parts share, Float the interface of Go's floating-point arithmetic, and
-- Fixed a value of it for runs; Auth/Toy is a value of Jwt, and Service/Toy of the search service's
-- host. The modules Tests, Index/RunTests, Index/OverlapTests, Index/RankTests, Auth/ServiceTests and
-- Ingest/SystemTests run the models.
--
-- State is passed explicitly: an operation takes the Index or the Store and returns the next one.
-- A method that locks is one step. Search is one step as search_documents, and in Index/Overlap the
-- steps between its locks; a ranking is one step there too, though two may run at once. A request to
-- the search or the ingest service is one step, though a reindex or a notification is many calls on
-- the index: interleavings within them are not modelled.
-- Text is a list of bytes. A 64-bit int that can wrap is its bit pattern, and the arithmetic on it
-- is written out modulo 2 ^ 64; counters of what is in memory are natural numbers. Maps are
-- association lists whose order stands for the order of Go's range, which the source leaves open.
-- In the index slices.SortFunc is a stable sort; it promises no order among equal keys, and no property
-- below says which of two equal documents comes first.
-- Loops are structural recursion. chunks runs on the number of entries, which is enough since each
-- turn takes one at least. scan runs on one more than the number of the entries of its cursors,
-- which is enough on a finalized index, since every turn drops one of them at least;
-- search_documents answers `stuck` where that does not suffice. sort_search and the heap's loops
-- run on the distance or the size that they start from. A notification has three attempts.
-- The goroutines of the coordinator meet only where their results are collected: there the order in
-- which the shards answer is an input.
-- Parameters: Float, for float64 and float32; a Unicode mapping, for strings.ToLower on text that
-- is not ASCII; fmt's %d, in the names of jobs; Bcrypt and Jwt, for golang.org/x/crypto/bcrypt and
-- github.com/golang-jwt/jwt, each with the laws that the code relies on: of a token only that it is
-- read back if its times are whole seconds, as NewNumericDate makes them, and its texts are ASCII,
-- which JSON leaves as they are; Reader, for a file as
-- github.com/xitongsys/parquet-go opens it; Host and Os, for the environment, the paths and the files
-- of the two services; Web and Codec, for the coordinator's HTTP client and JSON; SortFunc, for a sort
-- that promises no order among equal scores. Clock readings, random identifiers, what gin binds of a
-- request, and the entry that a range over the cache meets first are inputs.
-- Not modelled: the health answer and the request identifiers of the coordinator, the start of the
-- auth service and of the coordinator, which is wiring of routers and listening, logging, and the
-- frontend.
mod Common
pub mod Float
pub mod Fixed
pub mod Tokenizer
pub mod Index
pub mod Auth
pub mod Access
pub mod Parquet
pub mod Service
pub mod Queue
pub mod Ingest
pub mod Coordinator
