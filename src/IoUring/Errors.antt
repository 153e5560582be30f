-- ===== src/IoUring/Errors.antt =====
-- src/IOUring.cpp: what a completion with a negative result, an errno, does.
use iuring.Prelude.{
  ℕ, suc, ◌≡◌, ◌≢◌, refl, ap, ◌∙◌, true, false, arith, Option, some, none, ◌⊎◌, inl, inr, ◌==◌,
  Bool-cases,
}
use iuring.Outcome.{Outcome, done, aborted}
use iuring.Endian.{Endian}
use iuring.Completion.{Client}
use iuring.Completion.Int.{is_errno, negsuc}
use iuring.WorkItem.{WorkItem, WorkType, Memory}
use iuring.WorkPool.{WorkPool}
use iuring.WorkPool.Slots.{find, get_elem?-within}
use iuring.WorkPool.Refinement.{get_known, free_held, found_item, update}
use iuring.Liburing.{Liburing, Cqe}
use iuring.IoUring.State.{IoUring}
use iuring.IoUring.Submission.{prepare, prepare_as}
use iuring.IoUring.Handlers.{
  enobufs, eai_intr, call_accept_callback, call_connect_callback, call_send_callback,
  call_recv_callback,
}
use iuring.IoUring.Poll.{free_item, after_recv, dispatch_as, call_callback_and_free_work_item_id}
use iuring.IoUring.Invariant.{IsTyped}
use iuring.IoUring.Granting.{recv_grants}
use iuring.IoUring.Rearming.{Rearms, rearmed}
use iuring.IoUring.Accepting.{with_peer, accept_prepares}

module _ {K : Type 0} (e : Endian) (lib : Liburing K) (memory : WorkPool → Memory)
    (client : Client) where
  -- No handler is called, and the item is freed.
  abbrev Frees : IoUring K → ℕ → Outcome (IoUring K) → Type 0
  Frees s id o =
      (s' : IoUring K) × (o ≡ done s')
      × (s'.calls ≡ s.calls)
      × (s'.ring ≡ s.ring)
      × ((j : ℕ) → find s'.pool j ≡ update (find s.pool) id none j)

  -- No handler is called, and `w` is submitted again in the item's slot.
  abbrev Again : WorkItem → IoUring K → ℕ → Outcome (IoUring K) → Type 0
  Again w s id o =
      (s' : IoUring K) × (o ≡ done s')
      × (s'.calls ≡ s.calls)
      × ((x : Option WorkItem) × Rearms e lib memory client w s.ring x s'.ring
          × ((j : ℕ) → find s'.pool j ≡ update (find s.pool) id x j))

  abbrev FailsAs : WorkType → WorkItem → IoUring K → ℕ → ℕ → Outcome (IoUring K) → Type 0
  FailsAs WorkType.connect w s id errno o = Frees s id o
  FailsAs WorkType.send_stream_data w s id errno o = Frees s id o
  FailsAs WorkType.send_workpacket w s id errno o = Frees s id o
  FailsAs WorkType.accept w s id errno o = Again (with_peer e lib memory client s w) s id o
  FailsAs WorkType.recv w s id errno o =
      ((errno ≡ eai_intr) × Again w s id o) ⊎ ((errno ≢ eai_intr) × (o ≡ aborted))
  FailsAs WorkType.close w s id errno o = ⊥
  FailsAs WorkType.unknown w s id errno o = o ≡ aborted

  -- What the completion for `w` with an errno comes to.
  abbrev pub Fails : WorkItem → IoUring K → ℕ → ℕ → Outcome (IoUring K) → Type 0
  Fails w s id errno o =
      ((errno ≡ enobufs) × (o ≡ done s)) ⊎ ((errno ≢ enobufs) × FailsAs w.work_type w s id errno o)

  freed_as :
      (w : WorkItem) (s : IoUring K) (id : ℕ)
      → IsTyped s.pool
      → find s.pool id ≡ some w
      → Frees s id (free_item e lib memory client s id)
  unfolding free_item
  freed_as w s id t held =
      let (p, freed, valid, entries, twice) = free_held s.pool id w t.valid held in
      (record s { pool = p }, rw freed refl, refl, refl, entries)

  dispatch_fails :
      (t : WorkType) (w : WorkItem) (s : IoUring K) (c : Cqe) (m : ℕ) (k1 : K)
      → IsTyped s.pool
      → find s.pool c.user_data ≡ some w
      → w.work_type ≡ t
      → t ≢ WorkType.close
      → c.res ≡ negsuc m
      → lib.get_sqe s.ring ≡ some k1
      → FailsAs t w s c.user_data (suc m) (dispatch_as e lib memory client t s w c)
  unfolding dispatch_as call_accept_callback call_connect_callback call_send_callback
      call_recv_callback after_recv
  dispatch_fails WorkType.unknown w s c m k1 t held is n bad room = refl
  dispatch_fails WorkType.close w s c m k1 t held is n bad room = absurd (n refl)
  dispatch_fails WorkType.connect w s c m k1 t held is n bad room =
      rw bad (freed_as w s c.user_data t held)
  dispatch_fails WorkType.send_stream_data w s c m k1 t held is n bad room =
      rw bad (freed_as w s c.user_data t held)
  dispatch_fails WorkType.send_workpacket w s c m k1 t held is n bad room =
      rw bad (freed_as w s c.user_data t held)
  dispatch_fails WorkType.accept w s c m k1 t held is n bad room =
      let w1 = with_peer e lib memory client s w in
      let ((w2, sqe), ready) = accept_prepares e lib memory client w1 is in
      rw bad
        (rearmed e lib memory client s w w1 w2 sqe c.user_data k1 t.valid held refl refl ready room)
  dispatch_fails WorkType.recv w s c m k1 t held is n bad room =
      let ((w2, sqe), ready) = recv_grants e w in
      let prepared : prepare e w ≡ done (w2, sqe) =
        unfold prepare in (ap (λ (t : WorkType). prepare_as e t w) is ∙ ready) in
      elim (Bool-cases (suc m == eai_intr)) [
        | inl interrupted ↦
            rw (bad, interrupted)
              (inl (
                ground arith,
                rearmed e lib memory client s w w w2 sqe c.user_data k1 t.valid held refl refl
                    prepared room,
              ))
        | inr other ↦ rw (bad, other) (inr (ground arith, refl))
      ]

  -- The completion of an accept, a connect, a send or a receive with an errno, on a typed pool and
  -- with room in the queue, calls no handler. With ENOBUFS it changes nothing. Else a connect or a
  -- send is freed; an accept is submitted again, with what the kernel wrote into its item; a
  -- receive is submitted again if the errno is 104, and aborts for any other; so does an item that
  -- was acquired and never submitted. Every other item stays.
  pub error_lem :
      (w : WorkItem) (s : IoUring K) (c : Cqe) (m : ℕ) (k1 : K)
      → IsTyped s.pool
      → find s.pool c.user_data ≡ some w
      → w.work_type ≢ WorkType.close
      → c.res ≡ negsuc m
      → lib.get_sqe s.ring ≡ some k1
      → Fails w s c.user_data (suc m) (call_callback_and_free_work_item_id e lib memory client s c)
  unfolding call_callback_and_free_work_item_id
  error_lem w s c m k1 t held n bad room =
      let got =
        get_known s.pool c.user_data t.valid
          (get_elem?-within s.pool.items c.user_data (found_item s.pool c.user_data w held)) in
      elim (Bool-cases (suc m == enobufs)) [
        | inl full ↦
            let is : is_errno c.res enobufs ≡ true = ap (λ z. is_errno z enobufs) bad ∙ full in
            inl (ground arith, ground arith)
        | inr other ↦
            let is : is_errno c.res enobufs ≡ false = ap (λ z. is_errno z enobufs) bad ∙ other in
            let run : call_callback_and_free_work_item_id e lib memory client s c
                ≡ dispatch_as e lib memory client w.work_type s w c =
              ground arith in
            inr
              (ground arith, rw run (dispatch_fails w.work_type w s c m k1 t held refl n bad room))
      ]
