-- ===== src/Tests/Rings.antt =====
-- A small ring library and client, and states of the interface, that the examples of IoUring run
-- on.
use iuring.Prelude.{
  ℕ, ◌+◌, refl, true, List, [], ◌∷◌, ◌++◌, ◌==◌, if◌then◌else◌, none, some, Option, ◌≡◌,
}
use iuring.Outcome.{Outcome, done, aborted, undefined, ok}
use iuring.Endian.{little}
use iuring.NetworkProtocols.{Dscp, TimeToLive}
use iuring.Socket.{Socket, SocketType, SocketKind}
use iuring.IpAddress.{unset, of_sockaddr_in}
use iuring.IpAddress.Layout.{SockaddrIn, af_inet, SockaddrIn6, af_inet6}
use iuring.Completion.{Client, Call, Request, connected, keep_none}
use iuring.Completion.Int.{pos, negsuc}
use iuring.WorkItem.{Memory, zeroed_msg, WorkItem, make}
use iuring.WorkPool.{WorkPool, empty}
use iuring.Liburing.{Liburing, Cqe, Peek, found, again}
use iuring.IoUring.State.{IoUring, new}
use iuring.IoUring.Ownership.{BufferRing, pick}
use iuring.IoUring.Requests.{perform}
use iuring.IoUring.Poll.{poll_completion_queues, call_callback_and_free_work_item_id}

-- What was handed to the kernel, what lies behind the tail, and the completions that wait.
pub record Kernel : Type 0 where
  pub published : List ℕ
  pub slots : ℕ → ℕ
  pub waiting : List Cqe

abbrev peek : List Cqe → Peek
peek [] = again
peek (c ∷ cs) = found c

abbrev rest : List Cqe → List Cqe
rest [] = []
rest (c ∷ cs) = cs

abbrev pub lib : Liburing Kernel
lib = record {
  get_sqe = λ k. some k;
  prep = λ k sqe. k;
  submit = λ k. k;
  peek_cqe = λ k. (k, peek k.waiting);
  cq_advance = λ k. record k { waiting = rest k.waiting };
  buf_ring_add =
      λ k addr len bid offset. record k { slots = λ j. if j == offset then bid else k.slots j };
  buf_ring_advance =
      λ k n. record k { published = k.published ++ pick k.slots 0 n; slots = λ j. k.slots (j + n) };
  read_memory = λ k addr len. [];
  recvmsg_validate = λ k addr len msg. none;
  accepted_address = λ k len bytes. (bytes, len);
}

pub same_ring : (k k' : Kernel) → some k ≡ some k' → k'.published ≡ k.published
same_ring k k' got = cc

abbrev pub view : BufferRing lib
view = record {
  published = λ k. k.published;
  slots = λ k. k.slots;
  add_slots = λ k addr len bid offset j. refl;
  add_published = λ k addr len bid offset. refl;
  advance_published = λ k n. refl;
  get_sqe_published = same_ring;
  prep_published = λ k sqe. refl;
  submit_published = λ k. refl;
  peek_published = λ k. refl;
  cq_advance_published = λ k. refl;
}

abbrev pub memory : WorkPool → Memory
memory p = record {
  packet_bytes = [];
  old_params = record { destination_address = unset; dscp = Dscp.cs0; ttl = TimeToLive.normal_ttl };
  old_msg = zeroed_msg 0;
  old_buffer = [];
}

abbrev pub socket : Socket
socket = record {
  type = SocketType.ipv4_tcp;
  port = 8080;
  kind = SocketKind.unicast_client_socket;
  fd = 3;
}

abbrev reaction_to : List Call → List Request
reaction_to (connected h r ∷ cs) = Request.recv socket 8 ∷ []
reaction_to _ = []

-- A client that receives once it is connected.
abbrev pub client : Client
client calls = record { action = keep_none; requests = reaction_to calls }

abbrev pub peer : SockaddrIn
peer = record {
  sin_family = af_inet;
  sin_port = 0x901f;
  sin_addr = 0x0100007f;
  sin_zero0 = 0;
  sin_zero1 = 0;
}

-- The completion of the connect, which waits from the start.
abbrev pub peer6 : SockaddrIn6
peer6 = record {
  sin6_family = af_inet6;
  sin6_port = 0x901f;
  sin6_flowinfo = 0;
  sin6_addr = record { word0 = 0; word1 = 0; word2 = 0; word3 = 0x01000000 };
  sin6_scope_id = 0;
}

abbrev pub completion : Cqe
completion = record { user_data = 0; res = pos 0; flags = 0 }

abbrev pub start : IoUring Kernel
start = record (new (record { published = []; slots = λ j. 0; waiting = completion ∷ [] })) {
  initialized = true;
}

abbrev pub after : {A : Type 0} → A → Outcome A → A
after a (done b) = b
after a aborted = a
after a undefined = a

abbrev pub item : Option WorkItem → WorkItem
item (some w) = w
item none = make (memory empty) 0 [] socket

abbrev pub connect : Request
connect = Request.connect socket (of_sockaddr_in peer) 7

-- The connect is submitted.
abbrev pub connecting : IoUring Kernel
connecting = after start (perform little lib memory start connect)

-- A second connect is submitted, too.
abbrev pub connecting_twice : IoUring Kernel
connecting_twice = after connecting (perform little lib memory connecting connect)

-- A poll takes the completion of the first.
abbrev pub polled_state : IoUring Kernel
polled_state = (after (start, ok) (poll_completion_queues little lib memory client connecting)).0

abbrev pub completed : IoUring Kernel
completed =
    after start
      (call_callback_and_free_work_item_id little lib memory client connecting_twice completion)

-- The connect fails with ECONNREFUSED.
abbrev pub refused : Cqe
refused = record { user_data = 0; res = negsuc 110; flags = 0 }

abbrev pub refused_state : IoUring Kernel
refused_state =
    after start (call_callback_and_free_work_item_id little lib memory client connecting refused)
