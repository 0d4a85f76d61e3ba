-- ===== src/Lib.antt =====
-- RFed (rfed/src), a store-and-forward node for Reticulum: the parts that decide what becomes of a
-- blob on its way to a subscriber.
--
-- A channel publish or a message is pushed on the links that its recipient has bound. A push
-- nobody proves is handed to the next route, at last the deferred queue, where it waits for the
-- recipient's pull or for the flush that an announce of the recipient sets off. Who is a recipient
-- of a channel stands in the subscription table. The modules follow these parts:
--
-- * Deferred (rfed/src/deferred_queue.rs): `DeferredQueue`. State has its types, with the fields
--   of the Rust structs; Enqueue, Drain, Page, Flush, Expiry and Load have its methods under their
--   own names; Op has the methods as one type, and runs of them in any order, as the node's threads
--   make them under the queue's lock. The other modules are proofs: Weight and Conserve say what each
--   method stores and removes, by a weight on entries that any question can choose; Buckets, Pages
--   and Tickets have the invariant; Limits the bound; View, Fifo, Matching, Paging, Settle, Fullest
--   and Admission what the methods do to the subscribers' lists; Flight the announce flush; Tally
--   the counts of `enqueue_all`.
-- * Push (rfed/src/stream_registry.rs): `PushOutcome` and `tie_receipt`. Outcome has the atomics and
--   each access to them, Threads the step relation in which the dispatch and the receipts'
--   callbacks interleave at every access, Verdict its invariant and what follows.
-- * Session (rfed/src/link_session.rs): `LinkSessionRegistry` and `evict_others` in Registry, the answers
--   to a push in Answers, and in Streams the
--   two registries of rfed/src/stream_registry.rs; Evict, OneLink, OneStream and Dispatch are proofs.
-- * Subscription (rfed/src/subscription.rs): `SubscriptionTable`. Table has its methods with the SQL
--   statements they send, Start its load, Keys and Holding what the methods keep and change, Rows
--   what the statements do, Renewals, Deletions and Disk that the rows follow the entries.
-- * Blob (rfed/src/blob_store.rs): `BlobStore`. Index has its methods on the index and the files,
--   Open the rebuild at a start; Sizes, Room, Storing and Started are proofs.
-- * Notify (rfed/src/notify/mod.rs): `NotifyRegistry`. Registry has its methods with the SQL
--   statements they send, Keys what they keep, Rows and Disk that the rows follow.
-- * Sync (rfed/src/sync.rs): `FedPeer` and `FedSync`. Peers has the peers and their backoff, Manifest what
--   nodes offer and ask for, Wire the records of a MESSAGE_GET response, Serve the side that sends
--   it, Ingest the side that stores it; Valid, Attempts, State, Wanted, RoundTrip, Caps, Budget,
--   Taking and Pull are proofs.
-- * HandOff (rfed/src/handoff.rs): the hand-offs of both kinds in Route, on the deferred queue and the
--   notify registry; Counts and Silent are proofs.
-- * Distro (rfed/src/distro.rs): Table has `DistroTable` and Announces `DistroAnnounceStore`, with the
--   SQL statements they send, Verify the checks on a pre-signed announce, Fanout `distro_fanout`
--   over the registries of Session and a hand-off, Fates what each device is to meet; Members, Disk,
--   Accepted, Tally and Counted are proofs.
-- * Fanout (rfed/src/fanout.rs): Channel has `fanout_blob`, Plan `FanoutPlan`, which hands off by
--   HandOff's `queue_then_wake`, Flush `flush_queued`; Ways and Copies say which way each blob and each
--   copy is to go, apart from what is done then; Routes, Went, Whole, Expired, Sending and Flushes are
--   proofs.
-- * Propagation (rfed/src/lxmf_propagation.rs): PeerSet has `PeerSet`, Entries and Peering have
--   `PropagationEntries`. Peer has `PropPeer`; Node the part of `LxmfPropagationNode` that its sync
--   sessions use, with the outbound budget, Sharing how the peers share that, Joining the announces of
--   peers and their slots; Offer `prepare_sync` and `send_offer`, Plan `plan_offer`, Answer
--   `apply_offer_response`, Transfer `send_sync_resource` and `apply_resource_outcome`, Links the
--   reports on links; Sessions the sync worker, which takes one event after another, as steps between
--   which other threads change the node. Words, Slots, Iter, Counts, Holders and Exact are proofs on
--   the entries; Lightest, Chosen, Free, Apart, Window, Accounts, Upkeep, Opening, Offering,
--   Answering, Sending, Concluding, Running and Balance on the sessions, Runs runs one. The sort of
--   the entries by time at a start, and the rest of the node, are not modelled.
-- * Store (rfed/src/store_db.rs): the transactions that a store hands to its database.
-- * Base and Dict: lists, byte strings and Boolean tests on native numbers, and `HashMap`.
--
-- Conventions. A method takes the state and returns it with its result. A `HashMap` is a list of
-- pairs with distinct keys, whose order stands for the iteration order; the theorems hold for every
-- such list, so for every order. The clock is read by the caller and passed on as a natural number:
-- only its order and its differences are used, so the f64's precision is not seen, and a difference
-- below 0 stops at 0, where no time lies below. Counters of u64 and usize wrap at 2 ^ 64, and
-- theorems that need a counter not to wrap say so: each operation moves it by one at most. The KB
-- limits that a peer announces are whole numbers here. A rowid
-- that SQLite returns is a parameter of the insert. Recursion is structural on a list, but for the
-- loop over the records of a response, whose fuel is one more than its bytes: each round takes 36
-- bytes at least, and a theorem says that the loop ends. The search for a new peer's slot counts down
-- the slots that peers may hold: with one more than that, one is free.
--
-- Not modelled: sockets, links, proofs and cryptography, which are the reticulum_rust library and
-- appear as answers (is a link alive, did a receipt conclude); SQLite, which appears as a function on
-- rows with the documented meaning of the statements that a table sends; the hash by which
-- notify_key derives a key, decode_hex, keys and signatures; the msgpack codec, which is assumed to
-- read back what it wrote where a theorem says so; log lines; and the parts of the node that only decode
-- requests or do I/O.
pub mod Base
pub mod Blob
pub mod Deferred
pub mod Dict
pub mod Distro
pub mod Fanout
pub mod HandOff
pub mod Notify
pub mod Propagation
pub mod Push
pub mod Session
pub mod Store
pub mod Subscription
pub mod Sync
