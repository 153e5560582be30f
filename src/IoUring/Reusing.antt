-- ===== src/IoUring/Reusing.antt =====
-- src/IOUring.cpp: an identifier that is taken again while the kernel still has completions for it.
use iuring.Prelude.{refl, inl, inr, ℕ, ◌≡◌, sym, ap, ◌∙◌, none, some, List, ◌∷◌, arith}
use iuring.Outcome.{done, >>=-eq-done, done-injective}
use iuring.Endian.{Endian}
use iuring.Socket.{Socket}
use iuring.Completion.{Client, Request, Call}
use iuring.Completion.Int.{pos}
use iuring.WorkItem.{WorkItem, Memory, make}
use iuring.WorkPool.{WorkPool, internal_alloc_work_item}
use iuring.WorkPool.Slots.{find}
use iuring.Liburing.{Liburing, Cqe}
use iuring.IoUring.State.{IoUring}
use iuring.IoUring.Submission.{submit}
use iuring.IoUring.Requests.{perform, perform_all}
use iuring.IoUring.Poll.{call_callback_and_free_work_item_id}
use iuring.IoUring.Invariant.{IsTyped}
use iuring.IoUring.Submitting.{socket_of, matches-type_of, submitted}
use iuring.IoUring.Readying.{perform-Readies}
use iuring.IoUring.Answering.{Reply, request_answered, begins}
use iuring.IoUring.Completing.{complete-settles}
use iuring.WorkPool.Refinement.{find-named}

alloc_last :
    (m : Memory) (p : WorkPool) (s : Socket) (descr : List ℕ) (id : ℕ) (rest : List ℕ)
    → p.free_ids ≡ id ∷ rest
    → (internal_alloc_work_item m p s descr).0.id ≡ id
unfolding internal_alloc_work_item make
alloc_last m p s descr id rest top = ground arith

module _ {K : Type 0} (e : Endian) (lib : Liburing K) (memory : WorkPool → Memory)
    (client : Client) where
  -- What a completion that frees its item leaves.
  freed_last :
      (s s1 : IoUring K) (c : Cqe) (w : WorkItem)
      → IsTyped s.pool
      → find s.pool c.user_data ≡ some w
      → call_callback_and_free_work_item_id e lib memory client s c ≡ done s1
      → find s1.pool c.user_data ≡ none
      → IsTyped s1.pool × ((rest : List ℕ) × (s1.pool.free_ids ≡ c.user_data ∷ rest))
  freed_last s s1 c w t held h gone = elim (complete-settles e lib memory client s s1 c t h) [
    | inl (missing, same) ↦ absurd (cc)
    | inr (x, found_x, typed, calls, settled, others) ↦
        let named : x.id ≡ c.user_data = (find-named s.pool c.user_data x t.valid found_x).0 in
        elim settled [
          | inl (free, (rest, top)) ↦ (typed, (rest, rw (← named) top))
          | inr (y, there, t_y, cb_y, so_y) ↦
              let here : find s1.pool c.user_data ≡ some y =
                ap (find s1.pool) (sym named) ∙ there in
              absurd (cc)
        ]
  ]

  -- The item of a request that takes the identifier on top of the stack.
  takes_last :
      (s s' : IoUring K) (r : Request) (id : ℕ) (rest : List ℕ)
      → IsTyped s.pool
      → s.pool.free_ids ≡ id ∷ rest
      → perform e lib memory s r ≡ done s'
      → (w : WorkItem) × (w.id ≡ id) × (find s'.pool w.id ≡ some w)
  takes_last s s' r id rest t top h =
      let (descr, w0, ready, run) = perform-Readies e lib memory s s' r h in
      let (wk, h1, h2) = >>=-eq-done (submit e lib w0 s.ring) _ run in
      let (adds, same) =
        submitted e lib (memory s.pool) s.pool (socket_of r) descr w0 wk.0 s.ring wk.1 h1
          ready.new_id ready.new_state
          (cc (ready.has_type, ready.has_handler, matches-type_of r)) in
      let last = alloc_last (memory s.pool) s.pool (socket_of r) descr id rest top in
      (
        wk.0,
        same.same_id ∙ ready.new_id ∙ last,
        ap (λ (x : IoUring K). find x.pool wk.0.id) (sym (done-injective _ s' h2)) ∙ adds.stored t,
      )

  -- Let a completion free the item of its identifier, as that of a receive does whose handler wants
  -- no more, and let a connect to a well-formed IPv4 address, a send or a close be the next
  -- request. It takes the same identifier. So if one more completion arrives for it, as a multishot
  -- receive sends them, with a result of n, then the handler of the new request is called, with n
  -- as its own result, and its item is freed, if the requests of the handler succeed.
  pub stale_completion :
      (s s1 s2 s3 : IoUring K) (w : WorkItem) (c0 c : Cqe) (r : Request) (n : ℕ) (call : Call)
      → IsTyped s.pool
      → find s.pool c0.user_data ≡ some w
      → call_callback_and_free_work_item_id e lib memory client s c0 ≡ done s1
      → find s1.pool c0.user_data ≡ none
      → perform e lib memory s1 r ≡ done s2
      → c.user_data ≡ c0.user_data
      → c.res ≡ pos n
      → Reply r (pos n) call
      → perform_all e lib memory
          (record s2 { calls = call ∷ s2.calls })
          (client (call ∷ s2.calls)).requests
        ≡ done s3
      → (s' : IoUring K) × (call_callback_and_free_work_item_id e lib memory client s2 c ≡ done s')
        × (s'.calls ≡ call ∷ s2.calls)
        × (find s'.pool c0.user_data ≡ none)
  stale_completion s s1 s2 s3 w c0 c r n call t held h0 gone h names good reply asked =
      let (t1, (rest, top)) = freed_last s s1 c0 w t held h0 gone in
      let (w', is, there) = takes_last s1 s2 r c0.user_data rest t1 top h in
      let fresh : find s1.pool w'.id ≡ none = ap (find s1.pool) is ∙ gone in
      let (s', ends, calls, entries) =
        request_answered e lib memory client s1 s2 s2 s3 r w' c (pos n) call t1 h fresh there begins
          (names ∙ sym is) good refl reply asked in
      (s', ends, calls, ground (arith, entries c0.user_data, is))
