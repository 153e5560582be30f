-- ===== src/IoUring/Resubmitting.antt =====
-- src/IOUring.cpp: the completions of receives as a whole.
use iuring.Prelude.{ℕ, ◌≡◌, refl, ap, ◌∙◌, ◌∷◌, arith, some, none, Option}
use iuring.Outcome.{done}
use iuring.Endian.{Endian}
use iuring.Completion.{Client, received, ReceivedMessage, ReceivePostAction, keep_none, re_submit}
use iuring.Completion.Int.{pos}
use iuring.WorkItem.{WorkItem, WorkType, Memory, recv_callback}
use iuring.WorkPool.{WorkPool}
use iuring.WorkPool.Slots.{find, get_elem?-within}
use iuring.WorkPool.Refinement.{free_held, get_known, found_item, update}
use iuring.Liburing.{Liburing, Cqe, buffer_index}
use iuring.IoUring.State.{IoUring}
use iuring.IoUring.Submission.{prepare, prepare_as}
use iuring.IoUring.Buffers.{recycle_buffer}
use iuring.IoUring.Requests.{perform_all}
use iuring.IoUring.Handlers.{call_recv_callback}
use iuring.IoUring.Poll.{call_callback_and_free_work_item_id, dispatch_as, free_item, after_recv}
use iuring.IoUring.Invariant.{IsTyped}
use iuring.IoUring.Granting.{recv_grants}
use iuring.IoUring.Returning.{still_held}
use iuring.IoUring.Rearming.{Rearms, rearmed}
use iuring.IoUring.Hearing.{message_of, recv_delivered}

module _ {K : Type 0} (e : Endian) (lib : Liburing K) (memory : WorkPool → Memory)
    (client : Client) where
  -- What the handler's answer makes of the item and of the ring `k`, in which the buffer was handed
  -- back: it is freed, or submitted again.
  abbrev pub Remains : ReceivePostAction → WorkItem → K → Option WorkItem → K → Type 0
  Remains keep_none w k o k' = (o ≡ none) × (k' ≡ k)
  Remains re_submit w k o k' = Rearms e lib memory client w k o k'

  -- What follows the handler, on the pool that its requests left.
  settled :
      (a : ReceivePostAction) (s1 : IoUring K) (w : WorkItem) (id : ℕ) (k1 : K)
      → IsTyped s1.pool
      → find s1.pool id ≡ some w
      → w.work_type ≡ WorkType.recv
      → lib.get_sqe s1.ring ≡ some k1
      → (s' : IoUring K) × (after_recv e lib memory client a s1 w id ≡ done s')
        × (s'.calls ≡ s1.calls)
        × ((o : Option WorkItem) × Remains a w s1.ring o s'.ring
            × ((j : ℕ) → find s'.pool j ≡ update (find s1.pool) id o j))
  unfolding after_recv free_item
  settled keep_none s1 w id k1 t held is room =
      let (p, freed, valid, entries, twice) = free_held s1.pool id w t.valid held in
      (record s1 { pool = p }, rw freed refl, refl, (none, (refl, refl), entries))
  settled re_submit s1 w id k1 t held is room =
      let ((w', sqe), ready) = recv_grants e w in
      let prepared : prepare e w ≡ done (w', sqe) =
        unfold prepare in (ap (λ (t : WorkType). prepare_as e t w) is ∙ ready) in
      rearmed e lib memory client s1 w w w' sqe id k1 t.valid held refl refl prepared room

  dispatch_recv :
      (t : WorkType) (s s1 s' : IoUring K) (w : WorkItem) (c : Cqe) (a : ReceivePostAction)
      → t ≡ WorkType.recv
      → call_recv_callback e lib memory client s w c ≡ done (a, s1)
      → after_recv e lib memory client a s1 w c.user_data ≡ done s'
      → dispatch_as e lib memory client t s w c ≡ done s'
  unfolding dispatch_as
  dispatch_recv t s s1 s' w c a is h1 h2 = rw (is, h1, h2) refl

  -- The completion of a receive that holds a message, on a typed pool and with room in the queue:
  -- if the requests that the handler makes succeed, then so does the whole. The item's own handler
  -- was called once, with that message, and the buffer was handed back after it; then the item is
  -- freed or, if the handler wants more, submitted again, unchanged in what names its request; and
  -- every other entry of the pool is as the handler's requests left it.
  pub receive_completes :
      (s s1 : IoUring K) (w : WorkItem) (c : Cqe) (cb n : ℕ) (m : ReceivedMessage) (k1 : K)
      → IsTyped s.pool
      → find s.pool c.user_data ≡ some w
      → w.work_type ≡ WorkType.recv
      → w.callback ≡ recv_callback cb
      → c.res ≡ pos n
      → message_of e lib memory client s w c n ≡ some m
      → let call = received cb m in
        perform_all e lib memory
            (record s { calls = call ∷ s.calls })
            (client (call ∷ s.calls)).requests
          ≡ done s1
        → lib.get_sqe (recycle_buffer lib s1 (buffer_index c)).ring ≡ some k1
        → (s' : IoUring K) × (call_callback_and_free_work_item_id e lib memory client s c ≡ done s')
          × (s'.calls ≡ call ∷ s.calls)
          × ((o : Option WorkItem) × Remains
                (client (call ∷ s.calls)).action
                w
                (recycle_buffer lib s1 (buffer_index c)).ring
                o
                s'.ring
              × ((j : ℕ) → find s'.pool j ≡ update (find s1.pool) c.user_data o j))
  unfolding call_callback_and_free_work_item_id recycle_buffer
  receive_completes s s1 w c cb n m k1 t held is own good heard h room =
      let call = received cb m in
      let (held1, t1, calls) = still_held e lib memory client s s1 call c.user_data w t held h in
      let s2 = recycle_buffer lib s1 (buffer_index c) in
      let delivered = recv_delivered e lib memory client s s1 w c cb n m own good heard h in
      let (s', ends, same, rest) =
        settled (client (call ∷ s.calls)).action s2 w c.user_data k1 t1 held1 is room in
      let run = dispatch_recv w.work_type s s2 s' w c _ is delivered ends in
      let got =
        get_known s.pool c.user_data t.valid
          (get_elem?-within s.pool.items c.user_data (found_item s.pool c.user_data w held)) in
      (s', ground (arith, run), same ∙ calls, rest)
