-- ===== src/IoUring/Receiving.antt =====
-- src/IOUring.cpp: the completions of receives, with what they call.
use iuring.Prelude.{
  ℕ, ◌≡◌, refl, false, ◌⊎◌, Option, none, some, subst, arith, inl, inr, Bool-cases, Option-cases,
  ltb,
}
use iuring.Outcome.{done, >>=-eq-done, done-injective, ◌>>=◌, assert}
use iuring.Endian.{Endian}
use iuring.Completion.{Client, ReceivePostAction, ReceivedMessage, re_submit}
use iuring.Completion.Int.{is_negative, magnitude, is_errno}
use iuring.WorkItem.{WorkItem, Memory}
use iuring.WorkPool.{WorkPool}
use iuring.Liburing.{Liburing, Cqe, has_buffer, buffer_index}
use iuring.IoUring.State.{IoUring}
use iuring.IoUring.Handlers.{
  call_recv_callback, recv_handler, deliver, call_recv_handler_stream, call_recv_handler_datagram,
  source_address, is_truncated, eai_intr,
}
use iuring.Socket.{is_stream}
use iuring.IoUring.Buffers.{get_buffer, recycle_buffer}
use iuring.IoUring.Calling.{Live, Handled, invoke-Handled, unchanged, recv_own}

module _ {K : Type 0} (e : Endian) (lib : Liburing K) (memory : WorkPool → Memory)
    (client : Client) where
  -- It was handled, and the action is that of the handler, or else to submit it again.
  abbrev pub Received : WorkItem → IoUring K → ReceivePostAction × IoUring K → Type 0
  Received w s r =
      ((r.0 ≡ re_submit) × Handled client none w s r.1) ⊎ Handled client (some r.0) w s r.1

  deliver-Handled :
      (w : WorkItem) (s : IoUring K) (m : ReceivedMessage) (r : ReceivePostAction × IoUring K)
      → Live w s
      → deliver e lib memory client s w m ≡ done r
      → Received w s r
  unfolding deliver
  deliver-Handled w s m r l h =
      let (n, h1, h2) = >>=-eq-done (recv_handler w.callback) _ h in
      inr (invoke-Handled e lib memory client w s _ r l (recv_own w.callback n h1) h2)

  skipped :
      (w : WorkItem) (s : IoUring K) (r : ReceivePostAction × IoUring K)
      → Live w s
      → done (re_submit, s) ≡ done r
      → Received w s r
  skipped w s r l h =
      subst (Received w s) (done-injective _ r h) (inl (refl, unchanged e lib memory client w s l))

  stream-Handled :
      (w : WorkItem) (s : IoUring K) (buffer : ℕ) (c : Cqe) (r : ReceivePostAction × IoUring K)
      → Live w s
      → call_recv_handler_stream e lib memory client s buffer w c ≡ done r
      → Received w s r
  unfolding call_recv_handler_stream
  stream-Handled w s buffer c r l h = deliver-Handled w s _ r l h

  datagram-Handled :
      (w : WorkItem) (s : IoUring K) (buffer : ℕ) (c : Cqe) (r : ReceivePostAction × IoUring K)
      → Live w s
      → call_recv_handler_datagram e lib memory client s buffer w c ≡ done r
      → Received w s r
  unfolding call_recv_handler_datagram
  datagram-Handled w s buffer c r l h =
      let (_, h0, h1) = >>=-eq-done (assert (has_buffer c)) _ h in
      elim (Option-cases (lib.recvmsg_validate s.ring buffer (magnitude c.res) w.msg)) [
        | inl n ↦ skipped w s r l (ground arith)
        | inr (o, v) ↦ elim (Bool-cases (ltb 128 o.namelen)) [
          | inl long ↦ skipped w s r l (ground arith)
          | inr short ↦ elim (Bool-cases (is_truncated o)) [
            | inl cut ↦ skipped w s r l (ground arith)
            | inr whole ↦
                let run : (source_address e o >>= λ source.
                deliver e lib memory client s w
                  (record { payload = o.payload; source_address = source }))
                    ≡ done r =
                  ground arith in
                let (a, h2, h3) = >>=-eq-done (source_address e o) _ run in
                deliver-Handled w s _ r l h3
          ]
        ]
      ]

  recycle-Handled :
      (told : Option ReceivePostAction) (w : WorkItem) (s s' : IoUring K) (idx : ℕ)
      → Handled client told w s s'
      → Handled client told w s (recycle_buffer lib s' idx)
  unfolding recycle_buffer
  recycle-Handled told w s s' idx d = record {
    typed = d.typed;
    held = d.held;
    others = d.others;
    calls_at_most = d.calls_at_most;
    same_base = d.same_base;
    same_request = d.same_request;
    meets = d.meets;
  }

  recycle-Received :
      (w : WorkItem) (s : IoUring K) (r : ReceivePostAction × IoUring K) (idx : ℕ)
      → Received w s r
      → Received w s (r.0, recycle_buffer lib r.1 idx)
  recycle-Received w s r idx (inl (same, d)) = inl (same, recycle-Handled none w s r.1 idx d)
  recycle-Received w s r idx (inr d) = inr (recycle-Handled (some r.0) w s r.1 idx d)

  -- The same, and the handler is told no negative result.
  abbrev pub Told : Cqe → WorkItem → IoUring K → ReceivePostAction × IoUring K → Type 0
  Told c w s r =
      ((r.0 ≡ re_submit) × Handled client none w s r.1)
      ⊎ ((is_negative c.res ≡ false) × Handled client (some r.0) w s r.1)

  Received-Told :
      (w : WorkItem) (s : IoUring K) (c : Cqe) (r : ReceivePostAction × IoUring K)
      → is_negative c.res ≡ false
      → Received w s r
      → Told c w s r
  Received-Told w s c r good (inl same) = inl same
  Received-Told w s c r good (inr d) = inr (good, d)

  pub recv-Handled :
      (w : WorkItem) (s : IoUring K) (c : Cqe) (r : ReceivePostAction × IoUring K)
      → Live w s
      → call_recv_callback e lib memory client s w c ≡ done r
      → Told c w s r
  unfolding call_recv_callback
  recv-Handled w s c r l h = elim (Bool-cases (is_negative c.res)) [
    | inl neg ↦ elim (Bool-cases (is_errno c.res eai_intr)) [
      | inl again ↦
          let same : (re_submit, s) ≡ r = ground arith in
          subst (Told c w s) same (inl (refl, unchanged e lib memory client w s l))
      | inr bad ↦ absurd (ground arith)
    ]
    | inr good ↦ elim (Bool-cases (is_stream w.socket)) [
      | inl stream ↦
          let run : (call_recv_handler_stream e lib memory client s (get_buffer s (buffer_index c))
                  w c
                >>= λ (q : ReceivePostAction × IoUring K).
                    done (q.0, recycle_buffer lib q.1 (buffer_index c)))
              ≡ done r =
            ground arith in
          let (q, h1, h2) =
            >>=-eq-done
              (call_recv_handler_stream e lib memory client s (get_buffer s (buffer_index c)) w c) _
              run in
          Received-Told w s c r good (
            subst (Received w s) (done-injective _ r h2)
              (recycle-Received w s q _ (stream-Handled w s _ c q l h1)))
      | inr datagram ↦
          let run : (call_recv_handler_datagram e lib memory client s
                  (get_buffer s (buffer_index c)) w c
                >>= λ (q : ReceivePostAction × IoUring K).
                    done (q.0, recycle_buffer lib q.1 (buffer_index c)))
              ≡ done r =
            ground arith in
          let (q, h1, h2) =
            >>=-eq-done
              (call_recv_handler_datagram e lib memory client s (get_buffer s (buffer_index c)) w c)
              _ run in
          Received-Told w s c r good (
            subst (Received w s) (done-injective _ r h2)
              (recycle-Received w s q _ (datagram-Handled w s _ c q l h1)))
    ]
  ]
