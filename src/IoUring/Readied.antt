-- ===== src/IoUring/Readied.antt =====
-- src/IOUring.cpp: the work item that each request hands to `submit`.
use iuring.Prelude.{ℕ, ◌≡◌, refl, ◌∙◌, List, write, ap, false}
use iuring.Outcome.{done, ◌>>=◌}
use iuring.IpAddress.{size_sockaddr, data_sockaddr}
use iuring.SendPacket.{append, reset, fresh as packet_in}
use iuring.Endian.{Endian}
use iuring.Socket.{Socket}
use iuring.Completion.{Request}
use iuring.WorkItem.{WorkItem, Memory, make}
use iuring.WorkPool.{WorkPool, internal_alloc_work_item, put}
use iuring.Liburing.{Liburing}
use iuring.IoUring.Submission.{submit}
use iuring.IoUring.State.{IoUring}
use iuring.IoUring.Invariant.{alloc_made}
use iuring.IoUring.Submitting.{type_of, handler_of, socket_of}

-- What the item has of the request itself.
abbrev pub Carries : Endian → Memory → Request → WorkItem → Type 0
Carries e m (Request.connect s target cb) w =
    (bytes : List ℕ) × (size_sockaddr target ≡ done w.connect_sock_len)
    × (data_sockaddr e target ≡ done bytes)
    × (w.buffer_for_uring ≡ write m.old_buffer 0 bytes)
Carries e m (Request.accept s cb) w = Unit {0}
Carries e m (Request.recv s cb) w = Unit {0}
Carries e m (Request.close s cb) w = Unit {0}
Carries e m (Request.send s msg cb) w =
    append (reset (packet_in m.packet_bytes)) msg ≡ done w.send_packet
Carries e m (Request.send_datagram s msg params cb) w =
    (append (reset (packet_in m.packet_bytes)) msg ≡ done w.send_packet) × (w.params ≡ params)

-- The new item with its handler, its type and what the request carries.
pub record Readied (e : Endian) (m : Memory) (p : WorkPool) (r : Request) (descr : List ℕ)
    (w : WorkItem) : Type 0 where
  pub new_id : w.id ≡ (internal_alloc_work_item m p (socket_of r) descr).0.id
  pub new_state : w.state ≡ (internal_alloc_work_item m p (socket_of r) descr).0.state
  pub new_socket : w.socket ≡ socket_of r
  pub has_type : w.work_type ≡ type_of r
  pub has_handler : w.callback ≡ handler_of r
  pub unlinked : w.link_to_next_request ≡ false
  pub carries : Carries e m r w

module _ {K : Type 0} (e : Endian) (lib : Liburing K) (memory : WorkPool → Memory) where
  -- How a request ends: the item is submitted and stored.
  abbrev pub Submits : IoUring K → Request → List ℕ → WorkItem → IoUring K → Type 0
  Submits s r descr w s' =
      let (_, q) = internal_alloc_work_item (memory s.pool) s.pool (socket_of r) descr in
      (submit e lib w s.ring >>= λ (wk : WorkItem × K).
      done (record s { pool = put q wk.0; ring = wk.1 }))
      ≡ done s'

  abbrev pub Readies : Request → IoUring K → IoUring K → Type 0
  Readies r s s' =
      (descr : List ℕ) × (w : WorkItem) × Readied e (memory s.pool) s.pool r descr w
      × Submits s r descr w s'

  -- A new item with fields of its own.
  pub readied :
      (s : IoUring K) (r : Request) (descr : List ℕ) (w : WorkItem)
      → let new = (internal_alloc_work_item (memory s.pool) s.pool (socket_of r) descr).0 in
        w.id ≡ new.id
        → w.state ≡ new.state
        → w.socket ≡ new.socket
        → w.link_to_next_request ≡ new.link_to_next_request
        → w.work_type ≡ type_of r
        → w.callback ≡ handler_of r
        → Carries e (memory s.pool) r w
        → Readied e (memory s.pool) s.pool r descr w
  readied s r descr w i j n l t c a =
      let made = alloc_made (memory s.pool) s.pool (socket_of r) descr in
      record {
        new_id = i;
        new_state = j;
        new_socket = n ∙ ap (λ (x : WorkItem). x.socket) made ∙ unfold make in refl;
        has_type = t;
        has_handler = c;
        unlinked = l ∙ ap (λ (x : WorkItem). x.link_to_next_request) made ∙ unfold make in refl;
        carries = a;
      }

  pub new_packet :
      (s : IoUring K) (socket : Socket) (descr : List ℕ)
      → (internal_alloc_work_item (memory s.pool) s.pool socket descr).0.send_packet
        ≡ packet_in (memory s.pool).packet_bytes
  new_packet s socket descr =
      ap (λ (x : WorkItem). x.send_packet) (alloc_made (memory s.pool) s.pool socket descr)
      ∙ unfold make in refl

  pub new_buffer :
      (s : IoUring K) (socket : Socket) (descr : List ℕ)
      → (internal_alloc_work_item (memory s.pool) s.pool socket descr).0.buffer_for_uring
        ≡ (memory s.pool).old_buffer
  new_buffer s socket descr =
      ap (λ (x : WorkItem). x.buffer_for_uring) (alloc_made (memory s.pool) s.pool socket descr)
      ∙ unfold make in refl
