-- ===== src/IoUring.antt =====
-- src/IOUring.hpp and src/IOUring.cpp: the ring behind the interface IOUringInterface. The children
-- are its parts, and the proofs about them.
pub mod State
pub mod Buffers
pub mod Submission
pub mod Requests
pub mod Handlers
pub mod Poll
pub mod Entries
pub mod Invariant
pub mod Readied
pub mod Readying
pub mod Contract
pub mod Adding
pub mod Sending
pub mod Calling
pub mod Receiving
pub mod Submitting
pub mod Dispatching
pub mod Completing
pub mod Ownership
pub mod Starting
pub mod Recycling
pub mod HandingBack
pub mod Conserving
pub mod Runs
pub mod Lending
pub mod Placing
pub mod Errors
pub mod Reach
pub mod Keeping
pub mod Granting
pub mod Returning
pub mod OneShot
pub mod Answering
pub mod Hearing
pub mod Rearming
pub mod Resubmitting
pub mod Accepting
pub mod Serving
pub mod Reusing
pub mod Addresses
