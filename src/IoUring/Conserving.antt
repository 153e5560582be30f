-- ===== src/IoUring/Conserving.antt =====
-- src/IOUring.cpp: which buffer a completion hands back to the kernel.
use iuring.Prelude.{
  ℕ, ◌≡◌, refl, sym, ap, ◌∙◌, true, not, ◌&&◌, Option, none, some, List, [], ◌∷◌, ◌++◌, arith, inl,
  inr, Bool-cases, Option-cases, if◌then◌else◌, append-nil,
}
use iuring.Outcome.{Outcome, done, ◌>>=◌, >>=-eq-done, done-injective}
use iuring.Endian.{Endian}
use iuring.Completion.{Client, ReceivePostAction, re_submit, keep_none}
use iuring.Completion.Int.{ℤ, pos, negsuc, is_negative, is_errno}
use iuring.Socket.{is_stream}
use iuring.WorkItem.{WorkItem, WorkType, Memory}
use iuring.WorkPool.{WorkPool, get_work_item, free_work_item}
use iuring.WorkPool.Slots.{find}
use iuring.WorkPool.Refinement.{get_work_item-eq-done}
use iuring.Liburing.{Liburing, Cqe, buffer_index}
use iuring.IoUring.State.{IoUring}
use iuring.IoUring.Submission.{submit}
use iuring.IoUring.Buffers.{recycle_buffer}
use iuring.IoUring.Handlers.{
  call_send_callback, call_close_callback, call_connect_callback, call_accept_callback,
  call_recv_callback, call_recv_handler_stream, enobufs, eai_intr,
}
use iuring.IoUring.Poll.{
  submit_again, free_item, after_recv, dispatch_as, call_callback_and_free_work_item_id,
}
use iuring.IoUring.Sending.{is_recv}
use iuring.IoUring.Ownership.{BufferRing, recycle_published}
use iuring.IoUring.Recycling.{handed, submit_published}
use iuring.IoUring.HandingBack.{
  close_published, send_published, connect_published, accept_published, deliver_published,
  datagram_published, skipped,
}

-- What a completion for an item hands back: the buffer it names, if it is that of a receive and no
-- error. Whether the completion has a buffer at all makes no difference.
abbrev pub handed_back : Option WorkItem → Cqe → List ℕ
handed_back none c = []
handed_back (some w) c =
    if is_recv w.work_type && not (is_negative c.res) then buffer_index c ∷ [] else []

errno_negative : (z : ℤ) (n : ℕ) → is_errno z n ≡ true → is_negative z ≡ true
errno_negative (pos k) n h = absurd (cc)
errno_negative (negsuc k) n h = refl

module _ {K : Type 0} (e : Endian) (lib : Liburing K) (memory : WorkPool → Memory)
    (view : BufferRing lib) (client : Client) where
  abbrev pub handed_to : IoUring K → List ℕ
  handed_to = handed e lib memory view

  -- The buffer of a receive that ended without an error, and nothing else.
  abbrev of_receive : Cqe → List ℕ
  of_receive c = if not (is_negative c.res) then buffer_index c ∷ [] else []

  pub nothing : (s s' : IoUring K) → handed_to s' ≡ handed_to s → handed_to s' ≡ handed_to s ++ []
  nothing s s' same = same ∙ sym (append-nil (handed_to s))

  recycled :
      (s : IoUring K) (c : Cqe) (m : Outcome (ReceivePostAction × IoUring K))
      (r : ReceivePostAction × IoUring K)
      → ((q : ReceivePostAction × IoUring K) → m ≡ done q → handed_to q.1 ≡ handed_to s)
      → (m >>= λ (q : ReceivePostAction × IoUring K).
          done (q.0, recycle_buffer lib q.1 (buffer_index c)))
        ≡ done r
      → handed_to r.1 ≡ handed_to s ++ buffer_index c ∷ []
  recycled s c m r same h =
      let (q, h1, h2) = >>=-eq-done m _ h in
      ap (λ (q : ReceivePostAction × IoUring K). handed_to q.1) (sym (done-injective _ r h2))
      ∙ recycle_published lib view q.1 (buffer_index c)
      ∙ ap (λ (ids : List ℕ). ids ++ buffer_index c ∷ []) (same q h1)

  recv_published :
      (w : WorkItem) (s : IoUring K) (c : Cqe) (r : ReceivePostAction × IoUring K)
      → call_recv_callback e lib memory client s w c ≡ done r
      → handed_to r.1 ≡ handed_to s ++ of_receive c
  unfolding call_recv_callback call_recv_handler_stream
  recv_published w s c r h = elim (Bool-cases (is_negative c.res)) [
    | inl neg ↦ elim (Bool-cases (is_errno c.res eai_intr)) [
      | inl interrupted ↦
          rw neg (nothing s r.1 (skipped e lib memory view client s r (ground arith)))
      | inr bad ↦ absurd (ground arith)
    ]
    | inr good ↦ elim (Bool-cases (is_stream w.socket)) [
      | inl stream ↦ rw good (
          recycled s c _ r (deliver_published e lib memory view client w s _)
            (rw (good, stream, call_recv_callback) at h))
      | inr datagram ↦ rw good (
          recycled s c _ r (datagram_published e lib memory view client w s _ c)
            (rw (good, datagram, call_recv_callback) at h))
    ]
  ]

  free_published :
      (s s' : IoUring K) (id : ℕ)
      → free_item e lib memory client s id ≡ done s'
      → handed_to s' ≡ handed_to s
  unfolding free_item
  free_published s s' id h =
      let (p, h1, h2) = >>=-eq-done (free_work_item s.pool id) _ h in
      ap handed_to (sym (done-injective _ s' h2))

  again_published :
      (w : WorkItem) (s s' : IoUring K)
      → submit_again e lib memory client s w ≡ done s'
      → handed_to s' ≡ handed_to s
  unfolding submit_again
  again_published w s s' h =
      let (r, h1, h2) = >>=-eq-done (submit e lib w s.ring) _ h in
      ap handed_to (sym (done-injective _ s' h2)) ∙ submit_published e lib memory view w s.ring r h1

  after_recv_published :
      (a : ReceivePostAction) (w : WorkItem) (s s' : IoUring K) (id : ℕ)
      → after_recv e lib memory client a s w id ≡ done s'
      → handed_to s' ≡ handed_to s
  unfolding after_recv
  after_recv_published keep_none w s s' id h = free_published s s' id h
  after_recv_published re_submit w s s' id h = again_published w s s' h

  dispatch_published :
      (t : WorkType) (w : WorkItem) (s s' : IoUring K) (c : Cqe)
      → dispatch_as e lib memory client t s w c ≡ done s'
      → handed_to s'
        ≡ handed_to s ++ (if is_recv t && not (is_negative c.res) then buffer_index c ∷ [] else [])
  unfolding dispatch_as
  dispatch_published WorkType.unknown w s s' c h = absurd (cc)
  dispatch_published WorkType.accept w s s' c h =
      let r = lib.accepted_address s.ring w.accept_sock_len w.buffer_for_uring in
      let w1 : WorkItem = record w { buffer_for_uring = r.0; accept_sock_len = r.1 } in
      let (s1, h1, h2) = >>=-eq-done (call_accept_callback e lib memory client s w1 c) _ h in
      nothing s s'
        (again_published w1 s1 s' h2 ∙ accept_published e lib memory view client w1 s s1 c h1)
  dispatch_published WorkType.close w s s' c h =
      let (s1, h1, h2) = >>=-eq-done (call_close_callback e lib memory client s w c) _ h in
      nothing s s'
        (free_published s1 s' _ h2 ∙ close_published e lib memory view client w s s1 c h1)
  dispatch_published WorkType.connect w s s' c h =
      let (s1, h1, h2) = >>=-eq-done (call_connect_callback e lib memory client s w c) _ h in
      nothing s s'
        (free_published s1 s' _ h2 ∙ connect_published e lib memory view client w s s1 c h1)
  dispatch_published WorkType.send_stream_data w s s' c h =
      let (s1, h1, h2) = >>=-eq-done (call_send_callback e lib memory client s w c) _ h in
      nothing s s' (free_published s1 s' _ h2 ∙ send_published e lib memory view client w s s1 c h1)
  dispatch_published WorkType.send_workpacket w s s' c h =
      let (s1, h1, h2) = >>=-eq-done (call_send_callback e lib memory client s w c) _ h in
      nothing s s' (free_published s1 s' _ h2 ∙ send_published e lib memory view client w s s1 c h1)
  dispatch_published WorkType.recv w s s' c h =
      let (r, h1, h2) = >>=-eq-done (call_recv_callback e lib memory client s w c) _ h in
      after_recv_published r.0 w r.1 s' _ h2 ∙ recv_published w s c r h1

  pub complete_published :
      (s s' : IoUring K) (c : Cqe)
      → call_callback_and_free_work_item_id e lib memory client s c ≡ done s'
      → handed_to s' ≡ handed_to s ++ handed_back (find s.pool c.user_data) c
  unfolding call_callback_and_free_work_item_id
  complete_published s s' c h =
      let (o, h1, h2) = >>=-eq-done (get_work_item s.pool c.user_data) _ h in
      let o_eq : o ≡ find s.pool c.user_data = get_work_item-eq-done s.pool c.user_data o h1 in
      elim (Option-cases o) [
        | inl n ↦
            let same : s' ≡ s = ground arith in rw (← o_eq, n) (nothing s s' (ap handed_to same))
        | inr (w, n) ↦
            rw (← o_eq, n)
              (elim (Bool-cases (is_errno c.res enobufs)) [
                | inl none_left ↦
                    let same : s' ≡ s = ground arith in
                    rw (errno_negative c.res enobufs none_left)
                      (ground (arith, nothing s s' (ap handed_to same)))
                | inr good ↦ dispatch_published w.work_type w s s' c (ground arith)
              ])
      ]
