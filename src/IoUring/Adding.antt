-- ===== src/IoUring/Adding.antt =====
-- src/IOUring.cpp: what a request that succeeds does to the pool.
use iuring.Prelude.{ℕ, ◌≡◌, refl, sym, ◌∙◌, List, [], ◌∷◌, Option, none, some, subst, ap, arith}
use iuring.Outcome.{done, >>=-eq-done, done-injective}
use iuring.WorkPool.Slots.{find}
use iuring.WorkPool.Refinement.{update}
use iuring.Endian.{Endian}
use iuring.Completion.{Request}
use iuring.WorkItem.{WorkItem, Memory}
use iuring.WorkPool.{WorkPool}
use iuring.Liburing.{Liburing}
use iuring.IoUring.State.{IoUring}
use iuring.IoUring.Requests.{perform, perform_all}
use iuring.IoUring.Invariant.{Extends-trans, IsTyped, Extends}
use iuring.IoUring.Contract.{Pending, pending, changed, of_request, of_entry, Submits, Submits-from}
use iuring.IoUring.Readying.{perform-Readies}
use iuring.IoUring.Submitting.{Performed, type_of, handler_of, socket_of, finished}

module _ {K : Type 0} (e : Endian) (lib : Liburing K) (memory : WorkPool → Memory) where
  pub perform-Performed :
      (s s' : IoUring K) (r : Request) → perform e lib memory s r ≡ done s' → Performed r s s'
  perform-Performed s s' r h =
      let (descr, w, k, run) = perform-Readies e lib memory s s' r h in
      finished e lib memory r s s' descr w k.new_id k.new_state k.new_socket k.has_type
        k.has_handler run

  -- A request that succeeds on a typed pool adds one item, of its type and with its handler and
  -- socket, under an identifier that had none; every other entry of the pool stays as it was, the
  -- pool stays typed, and no handler is called.
  pub perform-adds_one :
      (s s' : IoUring K) (r : Request)
      → IsTyped s.pool
      → perform e lib memory s r ≡ done s'
      → (w : WorkItem) × (find s.pool w.id ≡ none)
        × ((j : ℕ) → find s'.pool j ≡ update (find s.pool) w.id (some w) j)
        × (w.work_type ≡ type_of r)
        × (w.callback ≡ handler_of r)
        × (w.socket ≡ socket_of r)
        × IsTyped s'.pool
        × (s'.calls ≡ s.calls)
  perform-adds_one s s' r t h =
      let p = perform-Performed s s' r h in
      (
        p.item,
        p.adds.fresh t,
        p.adds.only t,
        p.has_type,
        p.has_handler,
        p.has_socket,
        p.adds.keeps t,
        p.same_calls,
      )

  -- So it is for the requests of a handler, one after the other.
  pub perform_all-Extends :
      (s s' : IoUring K) (rs : List Request)
      → IsTyped s.pool
      → perform_all e lib memory s rs ≡ done s'
      → IsTyped s'.pool
        × Extends s.pool s'.pool
        × (s'.calls ≡ s.calls)
        × (s'.buffer_base ≡ s.buffer_base)
  unfolding perform_all
  perform_all-Extends s s' [] t h =
      subst
        (λ (r : IoUring K).
          IsTyped r.pool
          × Extends s.pool r.pool
          × (r.calls ≡ s.calls)
          × (r.buffer_base ≡ s.buffer_base))
        (done-injective s s' h) (t, (λ j w x. x), refl, refl)
  perform_all-Extends s s' (r ∷ rs) t h =
      let (s1, h1, h2) = >>=-eq-done (perform e lib memory s r) _ h in
      let first = perform-Performed s s1 r h1 in
      let (t', x, c, b) = perform_all-Extends s1 s' rs (first.adds.keeps t) h2 in
      (
        t',
        Extends-trans s.pool s1.pool s'.pool (first.adds.extends t) x,
        c ∙ first.same_calls,
        b ∙ first.same_base,
      )

  pub perform-Submits :
      (s s' : IoUring K) (r : Request) (rs : List Request) (qs : ℕ → Option Pending)
      → IsTyped s.pool
      → perform e lib memory s r ≡ done s'
      → Submits rs (pending s'.pool) qs
      → Submits (r ∷ rs) (pending s.pool) qs
  perform-Submits s s' r rs qs t h more =
      let (w, fresh, entries, type, handler, socket, t', calls) = perform-adds_one s s' r t h in
      (
        w.id,
        ap of_entry fresh,
        Submits-from rs (changed (pending s.pool) w.id (some (of_request r))) (pending s'.pool) qs
            more (λ j. ground (arith, entries j, type, handler, socket)),
      )

  pub perform_all-Submits :
      (s s' : IoUring K) (rs : List Request)
      → IsTyped s.pool
      → perform_all e lib memory s rs ≡ done s'
      → Submits rs (pending s.pool) (pending s'.pool)
  unfolding perform_all
  perform_all-Submits s s' [] t h =
      λ j. ap (λ (x : IoUring K). pending x.pool j) (sym (done-injective s s' h))
  perform_all-Submits s s' (r ∷ rs) t h =
      let (s1, h1, h2) = >>=-eq-done (perform e lib memory s r) _ h in
      let t1 = (perform-Performed s s1 r h1).adds.keeps t in
      perform-Submits s s1 r rs (pending s'.pool) t h1 (perform_all-Submits s1 s' rs t1 h2)
