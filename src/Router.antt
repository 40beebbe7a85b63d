-- ===== src/Router.antt =====
-- The async router of o9_runtime.c: O9Mailbox, o9_router_get_mailbox_locked, o9_router_submit,
-- o9_router_unregister_actor, and the worker's loop. Between qlock and qunlock of o9_router.lk a
-- function is one atomic step. `Submit` has the two entry points on the whole state of the router;
-- `Workers` has the interleavings of any number of worker processes over one mailbox.
pub mod Mailbox
pub mod Submit
pub mod Deliver
pub mod Served
pub mod Once
pub mod Workers
pub mod Strand
pub mod Tests
