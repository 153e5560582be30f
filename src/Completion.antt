-- ===== src/Completion.antt =====
-- include/iuring/CompletionCallbacks.hpp and ReceivedMessage.hpp: what a handler is called with,
-- and how the client's handlers react. A handler is known by a number.
pub mod Int
use iuring.Prelude.{ℕ, List, Bool, ◌==◌, length}
use iuring.Socket.{Socket}
use iuring.NetworkProtocols.{Dscp, TimeToLive}
use iuring.IpAddress.{IpAddress}
use Int.{ℤ}

pub data ReceivePostAction : Type 0 where
  keep_none re_submit : ReceivePostAction

pub record AcceptResult : Type 0 where
  pub new_fd : ℕ
  pub address : IpAddress

pub record ConnectResult : Type 0 where
  pub status : ℕ
  pub address : IpAddress

-- `begin()` up to `end()`, whose distance is `get_size()`, and `get_source_address()`.
pub record ReceivedMessage : Type 0 where
  pub payload : List ℕ
  pub source_address : IpAddress

abbrev pub is_empty : ReceivedMessage → Bool
is_empty m = length m.payload == 0

-- One call of a handler.
pub data Call : Type 0 where
  connected : ℕ → ConnectResult → Call
  accepted : ℕ → AcceptResult → Call
  received : ℕ → ReceivedMessage → Call
  sent : ℕ → ℤ → Call
  closed : ℕ → ℤ → Call

-- `struct DatagramSendParameters`.
pub record DatagramSendParameters : Type 0 where
  pub destination_address : IpAddress
  pub dscp : Dscp
  pub ttl : TimeToLive

-- What a client asks of the interface. A send is `ISocket::send`, or the three steps that
-- IOUringInterface.hpp describes for a datagram.
pub data Request : Type 0 where
  connect : Socket → IpAddress → ℕ → Request
  accept : Socket → ℕ → Request
  recv : Socket → ℕ → Request
  close : Socket → ℕ → Request
  send : Socket → List ℕ → ℕ → Request
  send_datagram : Socket → List ℕ → DatagramSendParameters → ℕ → Request

-- What a handler does: the requests that it makes, and, if it is a receive handler, what it
-- returns.
pub record Reaction : Type 0 where
  pub action : ReceivePostAction
  pub requests : List Request

-- The client: its reaction to the newest call, which may depend on all the calls before. The list
-- has the newest first.
abbrev pub Client : Type 0
Client = List Call → Reaction
