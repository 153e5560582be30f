-- ===== src/IoUring/HandingBack.antt =====
-- src/IOUring.cpp: the handlers of completions, and the buffers that the kernel was handed.
use iuring.Prelude.{
  ℕ, ◌≡◌, refl, sym, ap, ◌∙◌, List, arith, inl, inr, Bool-cases, Option-cases, ltb,
}
use iuring.Outcome.{done, ◌>>=◌, >>=-eq-done, done-injective, assert}
use iuring.Endian.{Endian}
use iuring.Completion.{Client, Call, ReceivePostAction, ReceivedMessage, re_submit}
use iuring.Completion.Int.{is_negative, magnitude}
use iuring.IpAddress.{of_storage}
use iuring.WorkItem.{WorkItem, Memory}
use iuring.WorkPool.{WorkPool}
use iuring.Liburing.{Liburing, Cqe, has_buffer}
use iuring.IoUring.State.{IoUring}
use iuring.IoUring.Handlers.{
  invoke, deliver, call_send_callback, call_close_callback, call_connect_callback,
  call_accept_callback, call_recv_handler_datagram, source_address, is_truncated, send_handler,
  close_handler, connect_handler, accept_handler, recv_handler,
}
use iuring.IoUring.Ownership.{BufferRing}
use iuring.IoUring.Recycling.{handed, invoke_published}

module _ {K : Type 0} (e : Endian) (lib : Liburing K) (memory : WorkPool → Memory)
    (view : BufferRing lib) (client : Client) where
  abbrev handed_now : IoUring K → List ℕ
  handed_now = handed e lib memory view

  -- A handler that runs, with what is done to the pool afterwards.
  after_invoke :
      (s : IoUring K) (c : Call) (finish : IoUring K → IoUring K) (s' : IoUring K)
      → ((s1 : IoUring K) → handed_now (finish s1) ≡ handed_now s1)
      → (invoke e lib memory client s c >>= λ (r : ReceivePostAction × IoUring K).
          done (finish r.1))
        ≡ done s'
      → handed_now s' ≡ handed_now s
  after_invoke s c finish s' same h =
      let (r, h1, h2) = >>=-eq-done (invoke e lib memory client s c) _ h in
      ap handed_now (sym (done-injective _ s' h2))
      ∙ same r.1
      ∙ invoke_published e lib memory view client s c r h1

  same_state : (s s' : IoUring K) → done s ≡ done s' → handed_now s' ≡ handed_now s
  same_state s s' h = ap handed_now (sym (done-injective s s' h))

  pub close_published :
      (w : WorkItem) (s s' : IoUring K) (c : Cqe)
      → call_close_callback e lib memory client s w c ≡ done s'
      → handed_now s' ≡ handed_now s
  unfolding call_close_callback
  close_published w s s' c h =
      let (n, h1, h2) = >>=-eq-done (close_handler w.callback) _ h in
      after_invoke s _ (λ x. x) s' (λ x. refl) h2

  pub send_published :
      (w : WorkItem) (s s' : IoUring K) (c : Cqe)
      → call_send_callback e lib memory client s w c ≡ done s'
      → handed_now s' ≡ handed_now s
  unfolding call_send_callback
  send_published w s s' c h = elim (Bool-cases (is_negative c.res)) [
    | inl neg ↦ same_state s s' (rw (neg, call_send_callback) at h)
    | inr good ↦
        let run = rw (good, call_send_callback) at h in
        let (n, h1, h2) = >>=-eq-done (send_handler w.callback) _ run in
        after_invoke s _ _ s' (λ x. refl) h2
  ]

  pub connect_published :
      (w : WorkItem) (s s' : IoUring K) (c : Cqe)
      → call_connect_callback e lib memory client s w c ≡ done s'
      → handed_now s' ≡ handed_now s
  unfolding call_connect_callback
  connect_published w s s' c h = elim (Bool-cases (is_negative c.res)) [
    | inl neg ↦ same_state s s' (rw (neg, call_connect_callback) at h)
    | inr good ↦
        let run = rw (good, call_connect_callback) at h in
        let (n, h1, h2) = >>=-eq-done (connect_handler w.callback) _ run in
        after_invoke s _ (λ x. x) s' (λ x. refl) h2
  ]

  pub accept_published :
      (w : WorkItem) (s s' : IoUring K) (c : Cqe)
      → call_accept_callback e lib memory client s w c ≡ done s'
      → handed_now s' ≡ handed_now s
  unfolding call_accept_callback
  accept_published w s s' c h = elim (Bool-cases (is_negative c.res)) [
    | inl neg ↦ same_state s s' (rw (neg, call_accept_callback) at h)
    | inr good ↦
        let run = rw (good, call_accept_callback) at h in
        let (addr, h0, run1) =
          >>=-eq-done (of_storage e w.buffer_for_uring w.accept_sock_len) _ run in
        let (n, h1, h2) = >>=-eq-done (accept_handler w.callback) _ run1 in
        after_invoke s _ (λ x. x) s' (λ x. refl) h2
  ]

  pub deliver_published :
      (w : WorkItem) (s : IoUring K) (m : ReceivedMessage) (r : ReceivePostAction × IoUring K)
      → deliver e lib memory client s w m ≡ done r
      → handed_now r.1 ≡ handed_now s
  unfolding deliver
  deliver_published w s m r h =
      let (n, h1, h2) = >>=-eq-done (recv_handler w.callback) _ h in
      invoke_published e lib memory view client s _ r h2

  pub skipped :
      (s : IoUring K) (r : ReceivePostAction × IoUring K)
      → done (re_submit, s) ≡ done r
      → handed_now r.1 ≡ handed_now s
  skipped s r h =
      ap (λ (q : ReceivePostAction × IoUring K). handed_now q.1) (sym (done-injective _ r h))

  pub datagram_published :
      (w : WorkItem) (s : IoUring K) (buffer : ℕ) (c : Cqe) (r : ReceivePostAction × IoUring K)
      → call_recv_handler_datagram e lib memory client s buffer w c ≡ done r
      → handed_now r.1 ≡ handed_now s
  unfolding call_recv_handler_datagram
  datagram_published w s buffer c r h =
      let (_, h0, h1) = >>=-eq-done (assert (has_buffer c)) _ h in
      elim (Option-cases (lib.recvmsg_validate s.ring buffer (magnitude c.res) w.msg)) [
        | inl n ↦ skipped s r (ground arith)
        | inr (o, v) ↦ elim (Bool-cases (ltb 128 o.namelen)) [
          | inl long ↦ skipped s r (ground arith)
          | inr short ↦ elim (Bool-cases (is_truncated o)) [
            | inl cut ↦ skipped s r (ground arith)
            | inr whole ↦
                let run : (source_address e o >>= λ source.
                deliver e lib memory client s w
                  (record { payload = o.payload; source_address = source }))
                    ≡ done r =
                  ground arith in
                let (a, h2, h3) = >>=-eq-done (source_address e o) _ run in
                deliver_published w s _ r h3
          ]
        ]
      ]
