-- ===== src/Propagation.antt =====
-- rfed/src/lxmf_propagation.rs: the peers that a stored message is handled and unhandled for, the peers'
-- sync sessions and the outbound budget.
pub mod PeerSet
pub mod Words
pub mod Slots
pub mod Iter
pub mod Entries
pub mod Peering
pub mod Counts
pub mod Holders
pub mod Exact
mod Tests
pub mod Peer
pub mod Node
pub mod Sharing
pub mod Plan
pub mod Offer
pub mod Answer
pub mod Transfer
pub mod Links
pub mod Joining
pub mod Sessions
pub mod Lightest
pub mod Chosen
pub mod Free
pub mod Apart
pub mod Window
pub mod Accounts
pub mod Upkeep
pub mod Opening
pub mod Offering
pub mod Answering
pub mod Sending
pub mod Concluding
pub mod Running
pub mod Balance
mod Runs
