-- ===== src/Lib.antt =====
-- iuring: a library of network input and output over io_uring. A client submits requests to
-- `IOUring`; each takes a `WorkItem` from the `WorkPool`, whose identifier goes to the kernel with the
-- submission entry and comes back with the completion; `poll_completion_queues` then finds the item,
-- calls its handler, and frees the item or submits it again.
--
-- The parts and their files:
--   Prelude          Boolean tests on the native numbers, lists over them, and their lemmas.
--   Outcome          how a call ends: it returns, it aborts (a failed `assert`, or `abort()`), or it is
--                    undefined (an index past the end of a vector). Asserts are on.
--   Endian           `htons` and the like, and the bytes of a word in memory, on hosts of either order.
--   SendPacket       include/iuring/SendPacket.hpp: the packet that a send fills. Contents, Fields and
--                    Clearing have the proofs.
--   IpAddress        include/iuring/IPAddress.hpp and src/IPAddress.cpp; Layout has the structures of
--                    <netinet/in.h> and their bytes, Text the text forms, Port and Order the proofs.
--   Socket           include/iuring/ISocket.hpp, as far as the ring reads it.
--   NetworkProtocols include/iuring/NetworkProtocols.hpp: dscp_t and timetolive_t. A value of these
--                    types that is none of their enumerators is not modelled.
--   Completion       include/iuring/CompletionCallbacks.hpp: what a handler is called with. A handler
--                    is a number, and the client is a function from the calls so far to its reaction:
--                    the requests it makes from inside the handler, and what a receive handler returns.
--   WorkItem         src/WorkItem.hpp and src/WorkItem.cpp.
--   WorkPool         src/WorkPool.hpp and src/WorkPool.cpp. Slots has the invariant, Refinement the
--                    pool as a finite map from identifiers to items, Growth the length of its vector.
--   Probe            src/ProbeUringFeatures.hpp and `probe_features`; Reported has the proofs.
--   Syscalls         the system calls of a socket: a kernel that answers each of them is a parameter.
--   SocketImpl       src/SocketImpl.hpp and src/SocketImpl.cpp, but for `send`, which is a request.
--                    Setup (the constructor) and Multicast have the proofs.
--   MacAddress       include/iuring/MacAddress.hpp and its part of src/IPAddress.cpp, with RoundTrip.
--   NetworkAdapter   include/iuring/NetworkAdapter.hpp and src/IOUringInterface.cpp. Retrieve has the
--                    proofs on `init` and its loop, Mac those on `get_my_mac_address`.
--   Liburing         what src/IOUring.cpp calls of liburing: a record of functions, a parameter of the
--                    model, over a type of states of its own.
--   IoUring          src/IOUring.hpp and src/IOUring.cpp. Its operations are in State, Buffers,
--                    Submission (`submit`), Requests (`submit_connect` and the others), Handlers
--                    (the `call_..._callback` functions) and Poll (`poll_completion_queues`), with
--                    the names of the code. Contract is an abstract specification of the
--                    interface. The proofs: Entries and Invariant (what a submission keeps),
--                    Submitting, Readied, Readying, Adding, Sending and Granting (requests),
--                    Calling and Receiving (handlers), Dispatching and Completing (what a
--                    completion leaves), Returning, OneShot, Hearing, Rearming, Resubmitting and
--                    Accepting (completions that return), Answering and Serving (a request from
--                    its submission to its completions), Reusing (a completion that comes too
--                    late), Errors, Reach and Keeping (all states that requests and polls lead
--                    to), Ownership and Starting (the receive buffers and `init`), Recycling,
--                    HandingBack, Conserving, Runs, Lending and Placing (the buffers handed back,
--                    who has them and where they lie, over a run), Addresses.
--   Resolver         the members of `IOUring` for `resolve_hostname`. Handlers has the proofs on one
--                    call, Runs, Names and Waiting those on whole runs.
--   Tests            examples of the theorems, and runs on a small ring library.
--
-- A work item that the code shares by pointer is a value here: it lies in its slot of the pool, and
-- whatever changes it writes it back with `put`. Each operation is a function that takes the state and
-- returns the next one. Memory that the code reads without having written it is an argument (`Memory`
-- for a new item, `stack` for a local). Fuel stands in two places only: five digits for a port, and
-- the rounds of `retrieve_interface_ip`, a loop that waits for an address: each round takes one
-- unit, and the test that ends the loop another.
--
-- Not modelled: the mutex of the pool, since each operation runs as a whole; logging, and the second of
-- sleep between two rounds of the loop; the factories, which only pass their arguments on; the parts
-- under SUPPORT_LISTEN_IN_LIBURING, which is defined nowhere; the tests and example programs.
pub mod Prelude
pub mod Outcome
pub mod Endian
pub mod SendPacket
pub mod IpAddress
pub mod Socket
pub mod NetworkProtocols
pub mod Completion
pub mod WorkItem
pub mod WorkPool
pub mod Liburing
pub mod IoUring
pub mod Resolver
mod Tests
pub mod Probe
pub mod Syscalls
pub mod SocketImpl
pub mod MacAddress
pub mod NetworkAdapter
