-- ===== src/IoUring/Submitting.antt =====
-- src/IOUring.cpp: what every request does, an allocation and then a submission.
use iuring.Prelude.{ℕ, ◌≡◌, refl, ◌∙◌, true, List, Option, none, some, subst, inl, ◌⊎◌, inr}
use iuring.Outcome.{Outcome, done, >>=-eq-done, done-injective, ◌>>=◌, aborted, undefined}
use iuring.IpAddress.{IpAddress, size_sockaddr, data_sockaddr}
use iuring.IpAddress.Layout.{SockaddrIn, SockaddrIn6, bytes_of_sockaddr_in, bytes_of_sockaddr_in6}
use iuring.SendPacket.{SendPacket}
use iuring.Endian.{Endian}
use iuring.Socket.{Socket}
use iuring.Completion.{Request}
use iuring.WorkItem.{
  WorkItem, WorkType, Memory, Callback, connect_callback, accept_callback, recv_callback,
  send_callback, close_callback,
}
use iuring.WorkPool.{WorkPool, internal_alloc_work_item, put}
use iuring.Liburing.{Liburing}
use iuring.IoUring.State.{IoUring}
use iuring.IoUring.Submission.{submit}
use iuring.IoUring.Entries.{SameItem, submit-SameItem}
use iuring.IoUring.Invariant.{Adds, matches, alloc_put}

abbrev pub type_of : Request → WorkType
type_of (Request.connect s target cb) = WorkType.connect
type_of (Request.accept s cb) = WorkType.accept
type_of (Request.recv s cb) = WorkType.recv
type_of (Request.close s cb) = WorkType.close
type_of (Request.send s msg cb) = WorkType.send_stream_data
type_of (Request.send_datagram s msg params cb) = WorkType.send_workpacket

abbrev pub handler_of : Request → Callback
handler_of (Request.connect s target cb) = connect_callback cb
handler_of (Request.accept s cb) = accept_callback cb
handler_of (Request.recv s cb) = recv_callback cb
handler_of (Request.close s cb) = close_callback cb
handler_of (Request.send s msg cb) = send_callback cb
handler_of (Request.send_datagram s msg params cb) = send_callback cb

pub matches-type_of : (r : Request) → matches (type_of r) (handler_of r) ≡ true
matches-type_of (Request.connect s target cb) = refl
matches-type_of (Request.accept s cb) = refl
matches-type_of (Request.recv s cb) = refl
matches-type_of (Request.close s cb) = refl
matches-type_of (Request.send s msg cb) = refl
matches-type_of (Request.send_datagram s msg params cb) = refl

abbrev pub socket_of : Request → Socket
socket_of (Request.connect s target cb) = s
socket_of (Request.accept s cb) = s
socket_of (Request.recv s cb) = s
socket_of (Request.close s cb) = s
socket_of (Request.send s msg cb) = s
socket_of (Request.send_datagram s msg params cb) = s

-- An item of the request's type, with its handler and socket, is added; no handler is called.
pub record Performed {K : Type 0} (r : Request) (s s' : IoUring K) : Type 0 where
  pub item : WorkItem
  pub adds : Adds s.pool s'.pool item
  pub has_type : item.work_type ≡ type_of r
  pub has_handler : item.callback ≡ handler_of r
  pub has_socket : item.socket ≡ socket_of r
  pub same_calls : s'.calls ≡ s.calls
  pub same_base : s'.buffer_base ≡ s.buffer_base

-- Size and bytes of an address are both there or both missing.
pub sockaddr_cases :
    (e : Endian) (a : IpAddress)
    → ((len : ℕ) × (bytes : List ℕ) × (size_sockaddr a ≡ done len)
        × (data_sockaddr e a ≡ done bytes))
      ⊎ (size_sockaddr a ≡ aborted)
sockaddr_cases e a = go a.in4 a.in6
  where
    go :
        (in4 : Option SockaddrIn) (in6 : Option SockaddrIn6)
        → let a : IpAddress = record { in4 = in4; in6 = in6 } in
          ((len : ℕ) × (bytes : List ℕ) × (size_sockaddr a ≡ done len)
            × (data_sockaddr e a ≡ done bytes))
          ⊎ (size_sockaddr a ≡ aborted)
    go (some v) in6 =
        inl
          (16, bytes_of_sockaddr_in e v, unfold size_sockaddr in refl, unfold data_sockaddr in refl)
    go none (some v) =
        inl (
          28,
          bytes_of_sockaddr_in6 e v,
          unfold size_sockaddr in refl,
          unfold data_sockaddr in refl,
        )
    go none none = inr (unfold size_sockaddr in refl)

pub packet_cases :
    (o : Outcome SendPacket) → ((p : SendPacket) × (o ≡ done p)) ⊎ ((o ≡ aborted) ⊎ (o ≡ undefined))
packet_cases (done p) = inl (p, refl)
packet_cases aborted = inr (inl refl)
packet_cases undefined = inr (inr refl)

module _ {K : Type 0} (e : Endian) (lib : Liburing K) where
  -- An allocation, then a submission of the item with its new handler.
  pub submitted :
      (m : Memory) (p : WorkPool) (s : Socket) (descr : List ℕ) (w0 w1 : WorkItem) (k k' : K)
      → submit e lib w0 k ≡ done (w1, k')
      → let (w, q) = internal_alloc_work_item m p s descr in
        w0.id ≡ w.id
        → w0.state ≡ w.state
        → matches w0.work_type w0.callback ≡ true
        → Adds p (put q w1) w1 × SameItem w0 w1
  submitted m p s descr w0 w1 k k' h i j n =
      let same = submit-SameItem e lib w0 w1 k k' h in
      (
        alloc_put m p s descr w1 (same.same_id ∙ i) (same.same_state ∙ j)
            (cc (same.same_type, same.same_callback, n)),
        same,
      )

  module _ (memory : WorkPool → Memory) where
    -- The last steps that all requests share, from the submission on.
    pub finished :
        (r : Request) (s s' : IoUring K) (descr : List ℕ) (w0 : WorkItem)
        → let (w, q) = internal_alloc_work_item (memory s.pool) s.pool (socket_of r) descr in
          w0.id ≡ w.id
          → w0.state ≡ w.state
          → w0.socket ≡ socket_of r
          → w0.work_type ≡ type_of r
          → w0.callback ≡ handler_of r
          → (submit e lib w0 s.ring >>= λ (wk : WorkItem × K).
              done (record s { pool = put q wk.0; ring = wk.1 }))
            ≡ done s'
          → Performed r s s'
    finished r s s' descr w0 i j n t c h =
        let (wk, h1, h2) = >>=-eq-done (submit e lib w0 s.ring) _ h in
        let (adds, same) =
          submitted (memory s.pool) s.pool (socket_of r) descr w0 wk.0 s.ring wk.1 h1 i j
            (cc (t, c, matches-type_of r)) in
        subst (Performed r s) (done-injective _ s' h2) (record {
          item = wk.0;
          adds = adds;
          has_type = same.same_type ∙ t;
          has_handler = same.same_callback ∙ c;
          has_socket = same.same_socket ∙ n;
          same_calls = refl;
          same_base = refl;
        })
