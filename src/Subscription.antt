-- ===== src/Subscription.antt =====
-- src/cu/core_2022_server/subscription: the life of subscriptions, the reports that wait for a Publish,
-- and the message that waits for its acknowledgement.
pub mod Lifecycle
pub mod Queue
pub mod Retransmit
