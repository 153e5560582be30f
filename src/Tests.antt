-- ===== src/Tests.antt =====
-- Examples: each theorem that has hypotheses, applied where they hold.
mod Rings
mod Completions
mod Returns
mod Runs
mod Reusing
mod Serving
mod Lending
mod Pools
mod Packets
mod Addresses
mod Buffers
mod Lookups
mod Sockets
mod Adapters
