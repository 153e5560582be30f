-- ===== src/IoUring/OneShot.antt =====
-- src/IOUring.cpp: the requests that a single completion ends, connects, sends and closes.
use iuring.Prelude.{ℕ, ◌≡◌, refl, ◌∷◌, arith, some, none, Option, ◌∙◌, ap, false}
use iuring.Outcome.{done}
use iuring.Completion.Int.{ℤ, pos, negsuc, is_errno}
use iuring.WorkItem.{
  WorkType, Memory, WorkItem, connect_callback, Callback, send_callback, close_callback,
}
use iuring.WorkPool.Slots.{find, get_elem?-within, IsValid}
use iuring.Endian.{Endian}
use iuring.Liburing.{Liburing, Cqe}
use iuring.WorkPool.{WorkPool, put}
use iuring.Completion.{Client, Call, connected, sent, closed}
use iuring.IoUring.Poll.{call_callback_and_free_work_item_id, dispatch_as, free_item}
use iuring.IoUring.State.{IoUring}
use iuring.IoUring.Handlers.{
  enobufs, call_connect_callback, invoke, connect_address, call_send_callback, call_close_callback,
}
use iuring.IoUring.Invariant.{IsTyped}
use iuring.IoUring.Requests.{perform_all}
use iuring.WorkPool.Refinement.{free_held, get_known, found_item, update, put-find, find-named}
use iuring.IoUring.Returning.{still_held}
use iuring.SendPacket.{reset}

-- The handler of such a request, by its number, and its call for a result. A connect or a send
-- that failed is not told to its handler, a close is.
abbrev pub answer_to : Endian → WorkType → WorkItem → ℕ → ℤ → Option (Callback × Call)
answer_to e WorkType.connect w cb (pos n) = some (
  connect_callback cb,
  connected cb (record { status = n; address = connect_address e w.buffer_for_uring }),
)
answer_to e WorkType.send_stream_data w cb (pos n) = some (send_callback cb, sent cb (pos n))
answer_to e WorkType.send_workpacket w cb (pos n) = some (send_callback cb, sent cb (pos n))
answer_to e WorkType.close w cb z = some (close_callback cb, closed cb z)
answer_to e _ w cb z = none

-- A send clears the packet of its item in the end.
abbrev cleared : {K : Type 0} → WorkType → WorkItem → IoUring K → IoUring K
cleared WorkType.send_stream_data w s = record s {
  pool = put s.pool (record w { send_packet = reset w.send_packet });
}
cleared WorkType.send_workpacket w s = record s {
  pool = put s.pool (record w { send_packet = reset w.send_packet });
}
cleared _ w s = s

module _ {K : Type 0} (e : Endian) (lib : Liburing K) (memory : WorkPool → Memory)
    (client : Client) where
  dispatch_one_shot :
      (t : WorkType) (s s1 : IoUring K) (w : WorkItem) (c : Cqe) (cb : ℕ) (z : ℤ) (call : Call)
      → answer_to e t w cb z ≡ some (w.callback, call)
      → c.res ≡ z
      → perform_all e lib memory
          (record s { calls = call ∷ s.calls })
          (client (call ∷ s.calls)).requests
        ≡ done s1
      → dispatch_as e lib memory client t s w c
        ≡ free_item e lib memory client (cleared t w s1) c.user_data
  unfolding dispatch_as call_connect_callback call_send_callback call_close_callback invoke
  dispatch_one_shot WorkType.connect s s1 w c cb (pos n) call answer good h =
      let own : w.callback ≡ connect_callback cb = cc in
      let same : call
          ≡ connected cb (record { status = n; address = connect_address e w.buffer_for_uring }) =
        cc in
      rw (good, own, rw same at h) refl
  dispatch_one_shot WorkType.send_stream_data s s1 w c cb (pos n) call answer good h =
      let own : w.callback ≡ send_callback cb = cc in
      let same : call ≡ sent cb (pos n) = cc in rw (good, own, rw same at h) refl
  dispatch_one_shot WorkType.send_workpacket s s1 w c cb (pos n) call answer good h =
      let own : w.callback ≡ send_callback cb = cc in
      let same : call ≡ sent cb (pos n) = cc in rw (good, own, rw same at h) refl
  dispatch_one_shot WorkType.close s s1 w c cb z call answer good h =
      let own : w.callback ≡ close_callback cb = cc in
      let same : call ≡ closed cb z = cc in rw (good, own, rw same at h) refl
  dispatch_one_shot WorkType.connect s s1 w c cb (negsuc m) call answer good h = absurd (cc)
  dispatch_one_shot WorkType.send_stream_data s s1 w c cb (negsuc m) call answer good h =
      absurd (cc)
  dispatch_one_shot WorkType.send_workpacket s s1 w c cb (negsuc m) call answer good h = absurd (cc)
  dispatch_one_shot WorkType.unknown s s1 w c cb z call answer good h = absurd (cc)
  dispatch_one_shot WorkType.accept s s1 w c cb z call answer good h = absurd (cc)
  dispatch_one_shot WorkType.recv s s1 w c cb z call answer good h = absurd (cc)

  cleared_calls : (t : WorkType) (w : WorkItem) (s : IoUring K) → (cleared t w s).calls ≡ s.calls
  cleared_calls WorkType.send_stream_data w s = refl
  cleared_calls WorkType.send_workpacket w s = refl
  cleared_calls _ w s = refl

  -- What storing the item with its packet cleared leaves of the pool, once the item is freed.
  Kept : ℕ → WorkPool → WorkPool → Type 0
  Kept id p q =
      IsValid q
      × ((x : WorkItem) × (find q id ≡ some x))
      × ((j : ℕ) → update (find q) id none j ≡ update (find p) id none j)

  put-Kept :
      (p : WorkPool) (w w' : WorkItem) (id : ℕ)
      → IsValid p
      → find p id ≡ some w
      → w'.id ≡ w.id
      → w'.state ≡ w.state
      → Kept id p (put p w')
  unfolding Kept
  put-Kept p w w' id v held i st =
      let (named, used) = find-named p id w v held in
      let held' : find p w'.id ≡ some w = ap (find p) (i ∙ named) ∙ held in
      let (valid, entries) = put-find p w' w v held' (st ∙ used) in
      (valid, (w', ground (arith, entries id, i, named)), λ j. ground (arith, entries j, i, named))

  cleared-Kept :
      (t : WorkType) (w : WorkItem) (s : IoUring K) (id : ℕ)
      → IsValid s.pool
      → find s.pool id ≡ some w
      → Kept id s.pool (cleared t w s).pool
  unfolding Kept
  cleared-Kept WorkType.send_stream_data w s id v held = put-Kept s.pool w _ id v held refl refl
  cleared-Kept WorkType.send_workpacket w s id v held = put-Kept s.pool w _ id v held refl refl
  cleared-Kept _ w s id v held = (v, (w, held), λ j. refl)

  -- The completion of a connect or send with a result that is not negative, or of a close with any
  -- result but ENOBUFS, on a typed pool: if the requests that its handler makes succeed, then so
  -- does the whole; the item's own handler was called once, with that result, and for a connect
  -- with the address of the request; and the pool is that after the handler's requests, less the
  -- item's own entry.
  pub one_shot_completes :
      (s s1 : IoUring K) (w : WorkItem) (c : Cqe) (cb : ℕ) (z : ℤ) (call : Call)
      → IsTyped s.pool
      → find s.pool c.user_data ≡ some w
      → answer_to e w.work_type w cb z ≡ some (w.callback, call)
      → c.res ≡ z
      → is_errno z enobufs ≡ false
      → perform_all e lib memory
          (record s { calls = call ∷ s.calls })
          (client (call ∷ s.calls)).requests
        ≡ done s1
      → (s' : IoUring K) × (call_callback_and_free_work_item_id e lib memory client s c ≡ done s')
        × (s'.calls ≡ call ∷ s.calls)
        × ((j : ℕ) → find s'.pool j ≡ update (find s1.pool) c.user_data none j)
  unfolding call_callback_and_free_work_item_id free_item Kept
  one_shot_completes s s1 w c cb z call t held answer good room h =
      let (held1, t1, calls) = still_held e lib memory client s s1 call c.user_data w t held h in
      let (valid, kept, rest) = cleared-Kept w.work_type w s1 c.user_data t1.valid held1 in
      let s2 = cleared w.work_type w s1 in
      let (p, freed, valid', entries, twice) = free_held s2.pool c.user_data kept.0 valid kept.1 in
      let got =
        get_known s.pool c.user_data t.valid
          (get_elem?-within s.pool.items c.user_data (found_item s.pool c.user_data w held)) in
      let heard : is_errno c.res enobufs ≡ false = rw good room in
      let run = dispatch_one_shot w.work_type s s1 w c cb z call answer good h in
      (
        record s2 { pool = p },
        ground (arith, run),
        cleared_calls w.work_type w s1 ∙ calls,
        λ j. entries j ∙ rest j,
      )
