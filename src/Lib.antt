-- ===== src/Lib.antt =====
-- Verification of the core of the Rentify backend: how a posting's dates are asked for, granted,
-- and rented out.
--
-- The program. A renter asks for the dates of a posting (`create`), may change the request while
-- it waits (`updateOwnPending`), and can ask for a price first (`quote`). The owner approves or
-- declines it; an approved request waits for its payment, and a paid one is converted into a
-- renting. A worker expires requests whose hold has run out. A payment has attempts, refunds and a
-- payout; the provider reports its end by a webhook, or is asked by workers and by the users. An
-- owner publishes, pauses and archives a posting and blocks dates of it; each change leaves rows
-- in an outbox, which a worker relays to the search index. Each method of the services runs among
-- other requests: it takes Redis locks (`withFlowLocks`), checks, and leaves the last word to a
-- guarded `updateMany` or a `$transaction` of a repository.
--
-- The files.
--   Common, Common/*       Boolean tests, lists over the native numbers, texts of the language.
--   Store                  the tables of backend/prisma/schema.prisma that this code uses, the locks
--                          in Redis, and the messages left for analytics and the public cache.
--   Runtime                async methods as state passing; Runtime/Logic: what a method keeps while
--                          others interrupt it; Runtime/Keeps: the same for the statements of a
--                          transaction; Runtime/Outcomes: how it ends whatever others do;
--                          Runtime/Rely: pre- and postconditions that others respect.
--   Cache, Cache/*         backend/src/app/features/cache/cache-locks.ts and the lock methods of
--                          cache.service.ts.
--   Bookings/Model         backend/src/app/features/bookings/bookings.model.ts: limits and inputs.
--   Bookings/Overlap, Repository, Expiry, Reservation
--                          the methods of bookings.repository.ts, in the same folder.
--   Bookings/Normalize, Validation, Create, Quote, Change, Decide
--                          the methods of bookings.service.ts; `approve` and `decline` of the service
--                          are `approve_request` and `decline_request`.
--   Bookings/Listing, Listing/*
--                          the pages of both, and the theorems on them.
--   Bookings/Expiry        also backend/src/app/workers/bookings/booking-expiry.worker.ts.
--   Bookings/Machine       an independent description of the life of a request, as a state machine,
--                          and the invariant of its steps.
--   Bookings/Refinement, Refinement/*, Results, Completeness, Passing, Agreement, Safety, Access,
--   InvalidDates
--                          the theorems on the methods.
--   Rentings/*             backend/src/app/features/rentings: rentings.repository.ts and
--                          rentings.service.ts.
--   Base, Base/*           backend/src/app/features/base/base.repository.ts: retries.
--   Payments/Model, Utils  payments.model.ts and payments.utils.ts of backend/src/app/features/payments.
--   Payments/Rows, Attempts, Retry, Outcome, Refunds, Payouts, Webhooks, Queues, Queries
--                          the methods of payments.repository.ts, as transactions of single statements
--                          (Runtime/Transaction).
--   Payments/Service, Settlement
--                          the methods of payments.service.ts.
--   Payments/Effects, Success, Repeats, Replay, Ledger, Bounds
--                          the theorems on them.
--   Otp, Otp/*             backend/src/app/features/auth/otp/otp.service.ts: one-time codes.
--   Postings/Repository, Service
--                          publish, pause, unpause and archive of postings.repository.ts and
--                          postings.service.ts in backend/src/app/features/postings (`publish_posting`
--                          and so on in the service).
--   Postings/Dates, Blocks, Availability
--                          the blocks that an owner puts on dates, in the same two files.
--   Postings/Frame, Counts, Lifecycle, Window, Dates/Apart
--                          the theorems on them.
--   Search/Enqueue, Outbox, Relayed
--                          the search outbox in postings.repository.ts.
--   Search/Relay           processOutboxRelayBatch of backend/src/app/features/search/search.service.ts.
--   Search/Claims, Relay/* the theorems on them.
--   System                 the methods that write requests, rentings, payments, statuses of postings
--                          and blocks, as steps in any order; System/Invariant: what every sequence
--                          of them keeps, with Bookings/Machine/History; System/Aside: an owner's
--                          writes, which leave requests and rentings alone.
--   Samples, Samples/Valid, Tests in each folder, Bookings/Examples, Bookings/Examples/Success
--                          a small store, runs of the methods on it, and the theorems at these runs.
--
-- The model. A method is a function of the world: the store, and for each visit to it the clock,
-- the values of `randomUUID()` and what other requests did to the store since the visit before.
-- One query, one `$transaction` or one Redis command is one visit, which nobody interrupts. A
-- visit has two readings of the clock, `now` for its tests and `later` for the values that it
-- writes. An error is a value; a transaction that throws is rolled back
-- (in Base what it does is a parameter: after a lost connection it may have committed). The three queries of
-- `Promise.all` in `validateBookingRequest` are visits one after the other. UUIDs are numbers,
-- times are milliseconds from the earliest date that a `Date` holds, money is in cents.
-- `mapBookingRequest` and `mapRenting`, which only respell the columns, are the identity. Of the
-- texts of an error its template and its parameters are kept. The payment provider is a parameter:
-- what it answers to each call, whatever that is; so are the broker of the search jobs and what
-- the content check says of a note. A webhook comes with the details that are read from its
-- payload. What Redis reports as the time left of a code is a parameter. Every loop is a
-- structural recursion. The one use of fuel is the scale of a floating-point number in Payments/Utils:
-- 80 and 40 steps are enough for amounts and shares of 18 digits. Of rows that an `orderBy` leaves
-- equal, those of the pages of requests have a rank that each turn gives anew; elsewhere the first
-- of the table comes first.
--
-- The invariant (`Inv` of Bookings/Machine/Invariant): ids of booking requests are unique; the
-- terms of every request are sound (a range of dates of at least a day, with its days and its
-- price, 1 to 20 guests, a short note); no renter has more than two active requests for one
-- posting; rentings of a posting do not overlap; a booking request has at most one renting. The
-- theorems on whole methods take the invariant of the store and that others keep it. The payment
-- methods are not such others: they set the status of a request without reading it, which can make
-- a closed one active. `Core` is the invariant without the limit of active requests.
--
-- Not modelled: the errors of the database and of Redis inside the methods (the retries of
-- `executeAsync` stand in Base by themselves); isolation levels below one transaction at a time;
-- the pages of rentings and of payouts; the adapters of the payment provider; of the postings the
-- creation and the duplication of a draft (with the blocks that they insert), its input, its photos and attributes, and the pages; of the search the index, its jobs
-- and reindexing; reviews, analytics, recommendations, accounts, profiles, email, the HTTP layer
-- and the configuration, the web client and the MCP server. `toLowerCase` is that of ASCII
-- letters.
pub mod Common
pub mod Store
pub mod Runtime
pub mod Cache
pub mod Bookings
pub mod Rentings
pub mod Base
pub mod Payments
pub mod System
pub mod Otp
pub mod Postings
pub mod Search
pub mod Samples
