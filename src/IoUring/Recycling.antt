-- ===== src/IoUring/Recycling.antt =====
-- src/IOUring.cpp: the buffers that requests and polls hand back to the kernel.
use iuring.Prelude.{ℕ, ◌≡◌, sym, ap, ◌∙◌, List, [], ◌∷◌, arith, inl, inr, Option-cases}
use iuring.Outcome.{done, >>=-eq-done, done-injective}
use iuring.Endian.{Endian}
use iuring.Completion.{Client, Request, Call, ReceivePostAction}
use iuring.WorkItem.{WorkItem, Memory}
use iuring.WorkPool.{WorkPool}
use iuring.Liburing.{Liburing}
use iuring.IoUring.State.{IoUring}
use iuring.IoUring.Submission.{submit, get_sqe, prepare}
use iuring.IoUring.Requests.{perform, perform_all}
use iuring.IoUring.Handlers.{invoke}
use iuring.IoUring.Readying.{perform-Readies}
use iuring.IoUring.Ownership.{BufferRing}

module _ {K : Type 0} (e : Endian) (lib : Liburing K) (memory : WorkPool → Memory)
    (view : BufferRing lib) where
  abbrev pub handed : IoUring K → List ℕ
  handed s = view.published s.ring

  get_sqe_published : (k k' : K) → get_sqe e lib k ≡ done k' → view.published k' ≡ view.published k
  unfolding get_sqe
  get_sqe_published k k' h = elim (Option-cases (lib.get_sqe k)) [
    | inr (k1, n) ↦
        let same : k1 ≡ k' = ground arith in
        ap view.published (sym same) ∙ view.get_sqe_published k k1 n
    | inl full ↦ elim (Option-cases (lib.get_sqe (lib.submit k))) [
      | inr (k1, n) ↦
          let same : k1 ≡ k' = ground arith in
          ap view.published (sym same)
          ∙ view.get_sqe_published (lib.submit k) k1 n
          ∙ view.submit_published k
      | inl full2 ↦ absurd (ground arith)
    ]
  ]

  pub submit_published :
      (w : WorkItem) (k : K) (r : WorkItem × K)
      → submit e lib w k ≡ done r
      → view.published r.1 ≡ view.published k
  unfolding submit
  submit_published w k r h =
      let (k1, got, rest) = >>=-eq-done (get_sqe e lib k) _ h in
      let (p, prepared, last) = >>=-eq-done (prepare e w) _ rest in
      ap (λ (r : WorkItem × K). view.published r.1) (sym (done-injective _ r last))
      ∙ view.submit_published (lib.prep k1 p.1)
      ∙ view.prep_published k1 p.1
      ∙ get_sqe_published k k1 got

  pub perform_published :
      (s s' : IoUring K) (r : Request) → perform e lib memory s r ≡ done s' → handed s' ≡ handed s
  perform_published s s' r h =
      let (descr, w, ready, run) = perform-Readies e lib memory s s' r h in
      let (wk, h1, h2) = >>=-eq-done (submit e lib w s.ring) _ run in
      ap handed (sym (done-injective _ s' h2)) ∙ submit_published w s.ring wk h1

  perform_all_published :
      (s s' : IoUring K) (rs : List Request)
      → perform_all e lib memory s rs ≡ done s'
      → handed s' ≡ handed s
  unfolding perform_all
  perform_all_published s s' [] h = ap handed (sym (done-injective s s' h))
  perform_all_published s s' (r ∷ rs) h =
      let (s1, h1, h2) = >>=-eq-done (perform e lib memory s r) _ h in
      perform_all_published s1 s' rs h2 ∙ perform_published s s1 r h1

  module _ (client : Client) where
    pub invoke_published :
        (s : IoUring K) (c : Call) (r : ReceivePostAction × IoUring K)
        → invoke e lib memory client s c ≡ done r
        → handed r.1 ≡ handed s
    unfolding invoke
    invoke_published s c r h =
        let (s1, h1, h2) =
          >>=-eq-done
            (perform_all e lib memory (record s { calls = c ∷ s.calls })
              (client (c ∷ s.calls)).requests)
            _ h in
        ap (λ (r : ReceivePostAction × IoUring K). handed r.1) (sym (done-injective _ r h2))
        ∙ perform_all_published _ s1 _ h1
