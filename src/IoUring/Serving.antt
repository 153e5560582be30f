-- ===== src/IoUring/Serving.antt =====
-- src/IOUring.cpp: receives and accepts, which several completions serve, from their submission on.
use iuring.Prelude.{
  ℕ, ◌≡◌, refl, sym, ap, ◌∙◌, ◌∷◌, Option, none, some, arith, subst, ◌⊎◌, inl, inr, Bool-cases,
  ◌==◌,
}
use iuring.Outcome.{done, >>=-eq-done, done-injective, Error}
use iuring.Endian.{Endian}
use iuring.IpAddress.{IpAddress, of_storage}
use iuring.Completion.{
  Client, Request, Call, received, accepted, ReceivedMessage, ReceivePostAction, keep_none,
  re_submit,
}
use iuring.Completion.Int.{pos}
use iuring.WorkItem.{WorkItem, Memory, WorkType, recv_callback}
use iuring.WorkPool.{WorkPool}
use iuring.WorkPool.Slots.{find}
use iuring.Liburing.{Liburing, Cqe, Peek, found, again, failed, buffer_index}
use iuring.IoUring.State.{IoUring}
use iuring.IoUring.Buffers.{recycle_buffer}
use iuring.IoUring.Requests.{perform, perform_all}
use iuring.IoUring.Poll.{polled, poll_completion_queues, call_callback_and_free_work_item_id}
use iuring.IoUring.Invariant.{IsTyped}
use iuring.IoUring.Submitting.{type_of, handler_of, socket_of}
use iuring.IoUring.Adding.{perform-Performed}
use iuring.IoUring.Completing.{complete-settles, complete-keeps_others}
use iuring.IoUring.Reach.{Step, asks, polls, Step-CallsOwner}
use iuring.WorkPool.Refinement.{find-named, update}
use iuring.IoUring.Dispatching.{Settled}
use iuring.IoUring.Hearing.{message_of}
use iuring.IoUring.Resubmitting.{receive_completes, Remains}
use iuring.Socket.{Socket}
use iuring.IoUring.Accepting.{with_peer, accept_completes}

-- Items of one request.
pub record SameRequest (w w' : WorkItem) : Type 0 where
  pub same_type : w'.work_type ≡ w.work_type
  pub same_callback : w'.callback ≡ w.callback
  pub same_socket : w'.socket ≡ w.socket

itself : (w : WorkItem) → SameRequest w w
itself w = record { same_type = refl; same_callback = refl; same_socket = refl }

-- The identifier is free, or its item is still for the same request.
abbrev Stays : ℕ → WorkItem → WorkPool → Type 0
Stays id w p = (find p id ≡ none) ⊎ ((w' : WorkItem) × (find p id ≡ some w') × SameRequest w w')

Settled-Stays :
    {K : Type 0} (id : ℕ) (w : WorkItem) (s : IoUring K)
    → w.id ≡ id
    → Settled w s
    → Stays id w s.pool
Settled-Stays id w s named (inl (gone, last)) = inl (ap (find s.pool) (sym named) ∙ gone)
Settled-Stays id w s named (inr (x, kept, t, cb, so)) = inr (
  x,
  ap (find s.pool) (sym named) ∙ kept,
  record { same_type = t; same_callback = cb; same_socket = so },
)

module _ {K : Type 0} (e : Endian) (lib : Liburing K) (memory : WorkPool → Memory)
    (client : Client) where
  -- A run of requests and polls in which the identifier is never free.
  pub data Serves (id : ℕ) (s : IoUring K) : IoUring K → Type 0 where
    begins : Serves id s s
    goes :
        {t u : IoUring K}
        → Serves id s t
        → Step e lib memory client t u
        → (x : WorkItem) → find u.pool id ≡ some x
        → Serves id s u

  complete-Stays :
      (s s' : IoUring K) (c : Cqe) (id : ℕ) (w : WorkItem)
      → IsTyped s.pool
      → find s.pool id ≡ some w
      → call_callback_and_free_work_item_id e lib memory client s c ≡ done s'
      → Stays id w s'.pool
  complete-Stays s s' c id w t held h = elim (Bool-cases (id == c.user_data)) [
    | inr other ↦
        inr (
          w,
          complete-keeps_others e lib memory client s s' c id w t h (ground arith) held,
          itself w,
        )
    | inl own ↦
        let is : id ≡ c.user_data = ground arith in
        elim (complete-settles e lib memory client s s' c t h) [
          | inl (missing, same) ↦ absurd (cc)
          | inr (x, found_x, typed, calls, settled, others) ↦
              let same : x ≡ w = ground (arith, is, held, found_x) in
              Settled-Stays id w s' ((find-named s.pool id w t.valid held).0)
                (subst (λ (y : WorkItem). Settled y s') same settled)
        ]
  ]

  polled-Stays :
      (peek : Peek) (s s' : IoUring K) (err : Error) (id : ℕ) (w : WorkItem)
      → IsTyped s.pool
      → find s.pool id ≡ some w
      → polled e lib memory client s peek ≡ done (s', err)
      → Stays id w s'.pool
  unfolding polled
  polled-Stays (found c) s s' err id w t held h =
      let (s1, h1, h2) =
        >>=-eq-done (call_callback_and_free_work_item_id e lib memory client s c) _ h in
      subst (λ (r : IoUring K × Error). Stays id w r.0.pool) (done-injective _ (s', err) h2)
        (complete-Stays s s1 c id w t held h1)
  polled-Stays again s s' err id w t held h =
      subst (λ (r : IoUring K × Error). Stays id w r.0.pool) (done-injective _ (s', err) h)
        (inr (w, held, itself w))
  polled-Stays failed s s' err id w t held h = absurd (cc)

  Step-Stays :
      (s s' : IoUring K) (id : ℕ) (w : WorkItem)
      → IsTyped s.pool
      → find s.pool id ≡ some w
      → Step e lib memory client s s'
      → Stays id w s'.pool
  unfolding poll_completion_queues
  Step-Stays s s' id w t held (asks r h) =
      inr (w, (perform-Performed e lib memory s s' r h).adds.extends t id w held, itself w)
  Step-Stays s s' id w t held (polls err h) =
      polled-Stays (lib.peek_cqe s.ring).1 (record s { ring = (lib.peek_cqe s.ring).0 }) s' err id w
        t held h

  Serves-keeps :
      (id : ℕ) (w : WorkItem) (s s' : IoUring K)
      → IsTyped s.pool
      → find s.pool id ≡ some w
      → Serves id s s'
      → IsTyped s'.pool × ((w' : WorkItem) × (find s'.pool id ≡ some w') × SameRequest w w')
  Serves-keeps id w s s' t held begins = (t, (w, held, itself w))
  Serves-keeps id w s s' t held (goes {t = u} run st x there) =
      let (t1, (w1, held1, same)) = Serves-keeps id w s u t held run in
      (
        (Step-CallsOwner e lib memory client u s' t1 st).0,
        elim (Step-Stays u s' id w1 t1 held1 st) [
          | inl gone ↦ absurd (cc)
          | inr (w', kept, same') ↦ (
            w',
            kept,
            record {
              same_type = same'.same_type ∙ same.same_type;
              same_callback = same'.same_callback ∙ same.same_callback;
              same_socket = same'.same_socket ∙ same.same_socket;
            },
          )
        ],
      )

  -- The call that a completion with the result n makes for an accept or a receive whose item is
  -- `w` by then: with the descriptor and the address that the kernel wrote, or with the message.
  abbrev pub Brings : Request → IoUring K → WorkItem → Cqe → ℕ → Call → Type 0
  Brings (Request.recv socket cb) s w c n call =
      (m : ReceivedMessage) × (message_of e lib memory client s w c n ≡ some m)
      × (call ≡ received cb m)
  Brings (Request.accept socket cb) s w c n call =
      let w1 = with_peer e lib memory client s w in
      (addr : IpAddress) × (of_storage e w1.buffer_for_uring w1.accept_sock_len ≡ done addr)
      × (call ≡ accepted cb (record { new_fd = n; address = addr }))
  Brings _ s w c n call = ⊥

  -- The ring that the item is submitted to again, after the handler's requests.
  abbrev pub ring_after : Request → IoUring K → Cqe → K
  ring_after (Request.recv socket cb) s c = (recycle_buffer lib s (buffer_index c)).ring
  ring_after _ s c = s.ring

  -- A receive whose handler is done is over; else the request goes on.
  abbrev pub GoesOn : Request → ReceivePostAction → Option WorkItem → Type 0
  GoesOn (Request.recv socket cb) keep_none o = o ≡ none
  GoesOn r a o =
      (w : WorkItem) × (o ≡ some w)
      × (w.work_type ≡ type_of r)
      × (w.callback ≡ handler_of r)
      × (w.socket ≡ socket_of r)

  recv-GoesOn :
      (a : ReceivePostAction) (socket : Socket) (cb : ℕ) (w : WorkItem) (k k' : K)
      (o : Option WorkItem)
      → w.work_type ≡ WorkType.recv
      → w.callback ≡ recv_callback cb
      → w.socket ≡ socket
      → Remains e lib memory client a w k o k'
      → GoesOn (Request.recv socket cb) a o
  recv-GoesOn keep_none socket cb w k k' o is own so (gone, rest) = gone
  recv-GoesOn re_submit socket cb w k k' o is own so
        (w', sqe, k1, there, same, prepared, got, sent) =
      (w', there, same.same_type ∙ is, same.same_callback ∙ own, same.same_socket ∙ so)

  served :
      (s s1 : IoUring K) (r : Request) (w : WorkItem) (c : Cqe) (n : ℕ) (call : Call) (k : K)
      → IsTyped s.pool
      → find s.pool c.user_data ≡ some w
      → w.work_type ≡ type_of r
      → w.callback ≡ handler_of r
      → w.socket ≡ socket_of r
      → c.res ≡ pos n
      → Brings r s w c n call
      → perform_all e lib memory
          (record s { calls = call ∷ s.calls })
          (client (call ∷ s.calls)).requests
        ≡ done s1
      → lib.get_sqe (ring_after r s1 c) ≡ some k
      → (s' : IoUring K) × (call_callback_and_free_work_item_id e lib memory client s c ≡ done s')
        × (s'.calls ≡ call ∷ s.calls)
        × ((o : Option WorkItem) × GoesOn r (client (call ∷ s.calls)).action o
            × ((j : ℕ) → find s'.pool j ≡ update (find s1.pool) c.user_data o j))
  served s s1 (Request.recv socket cb) w c n call k t held is own so good (m, heard, same) h room =
      let (s', ends, calls, (o, left, entries)) =
        receive_completes e lib memory client s s1 w c cb n m k t held is own good heard
          (rw same at h) room in
      rw same (s', ends, calls, (o, recv-GoesOn _ socket cb w _ s'.ring o is own so left, entries))
  served s s1 (Request.accept socket cb) w c n call k t held is own so good (addr, peer, same) h
        room =
      let (s', ends, calls, (o, (w', sqe, k1, there, kept, prepared, got, sent), entries)) =
        accept_completes e lib memory client s s1 w c cb n addr k t held is own good peer
          (rw same at h) room in
      rw same (
        s',
        ends,
        calls,
        (
          o,
          (w', there, kept.same_type ∙ is, kept.same_callback ∙ own, kept.same_socket ∙ so),
          entries,
        ),
      )
  served s s1 _ w c n call k t held is own so good none_brought h room = absurd none_brought

  -- An accept or a receive that was submitted on a typed pool and took the identifier `id`: after
  -- any run of requests and polls in which `id` is never free, with room in the queue, a completion
  -- for it with the result n calls the request's own handler once, with what the completion brings,
  -- if the requests of the handler succeed. Afterwards a receive whose handler wants no more is
  -- over and `id` is free; else `id` still holds an item of the request, and every other entry of
  -- the pool is as the handler's requests left it.
  pub request_served :
      (s s1 s2 s3 : IoUring K) (r : Request) (id : ℕ) (w1 w2 : WorkItem) (c : Cqe) (n : ℕ)
      (call : Call) (k : K)
      → IsTyped s.pool
      → perform e lib memory s r ≡ done s1
      → find s.pool id ≡ none
      → find s1.pool id ≡ some w1
      → Serves id s1 s2
      → find s2.pool id ≡ some w2
      → c.user_data ≡ id
      → c.res ≡ pos n
      → Brings r s2 w2 c n call
      → perform_all e lib memory
          (record s2 { calls = call ∷ s2.calls })
          (client (call ∷ s2.calls)).requests
        ≡ done s3
      → lib.get_sqe (ring_after r s3 c) ≡ some k
      → (s' : IoUring K) × (call_callback_and_free_work_item_id e lib memory client s2 c ≡ done s')
        × (s'.calls ≡ call ∷ s2.calls)
        × ((o : Option WorkItem) × GoesOn r (client (call ∷ s2.calls)).action o
            × ((j : ℕ) → find s'.pool j ≡ update (find s3.pool) id o j))
  request_served s s1 s2 s3 r id w1 w2 c n call k t h fresh held run held2 names good brings asked
        room =
      let p = perform-Performed e lib memory s s1 r h in
      let first : w1 ≡ p.item = ground (arith, p.adds.only t id) in
      let (t2, (w, held', same)) = Serves-keeps id w1 s1 s2 (p.adds.keeps t) held run in
      let now : w ≡ w2 = cc in
      rw (← names) (
        served s2 s3 r w2 c n call k t2 (ap (find s2.pool) names ∙ held2)
          (ap (λ (x : WorkItem). x.work_type) (sym now)
            ∙ same.same_type
            ∙ ap (λ (x : WorkItem). x.work_type) first
            ∙ p.has_type)
          (ap (λ (x : WorkItem). x.callback) (sym now)
            ∙ same.same_callback
            ∙ ap (λ (x : WorkItem). x.callback) first
            ∙ p.has_handler)
          (ap (λ (x : WorkItem). x.socket) (sym now)
            ∙ same.same_socket
            ∙ ap (λ (x : WorkItem). x.socket) first
            ∙ p.has_socket)
          good brings asked room)
