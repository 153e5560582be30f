-- ===== src/IoUring/Starting.antt =====
-- src/IOUring.cpp: `init`, the set-up as a whole.
use iuring.Prelude.{
  ℕ, zero, suc, ◌+◌, ◌*◌, ◌≡◌, ◌≢◌, refl, sym, ap, ◌∙◌, true, none, some, Option, List, [], ◌⊎◌,
  inl, inr, arith, Option-cases, if◌then◌else◌, ltb, subst, Bool-cases,
}
use iuring.Outcome.{done, >>=-eq-done, done-injective, Error, ok, mmap_failed}
use iuring.WorkPool.Slots.{count}
use iuring.Probe.{UringFeature, ProbeOp, probe_features}
use iuring.Probe.Reported.{needed, all_reported, probe_features_lem}
use iuring.Completion.Int.{ℤ, pos, negsuc}
use iuring.Liburing.{Liburing}
use iuring.IoUring.State.{IoUring, buffers}
use iuring.IoUring.Buffers.{init, init_ring, setup_buffer_pool, sizeof_buf}
use iuring.IoUring.Ownership.{
  BufferRing, range_from, setup_buffer_pool-owns, setup_buffer_pool-base,
}

all_needed :
    (number : UringFeature → ℕ) (distinct : (f g : UringFeature) → number f ≡ number g → f ≡ g)
    (probe : Option (List ProbeOp)) (u : Unit {0})
    → probe_features number probe ≡ done u
    → (ops : List ProbeOp) × (probe ≡ some ops) × (all_reported number ops needed ≡ true)
all_needed number distinct none u h = absurd (cc (probe_features_lem number distinct none))
all_needed number distinct (some ops) u h =
    let found = sym (probe_features_lem number distinct (some ops)) ∙ h in
    (
      ops,
      refl,
      elim (Bool-cases (all_reported number ops needed)) [
        | inl all ↦ all
        | inr missing ↦ absurd (ground arith)
      ],
    )

module _ {K : Type 0} (lib : Liburing K) (view : BufferRing lib) where
  -- Who has buffer `i` after a set-up with the given results: if it returned OK, then `mmap` and the
  -- registration succeeded, and it and the stack for sends have each buffer; else one of the two
  -- failed, with this error, and nobody has any.
  abbrev pub Shared : (ℤ → Error) → Option ℕ → ℤ → IoUring K → Error → ℕ → Type 0
  Shared errno_to_error mapped registered s err i =
      ((err ≡ ok)
        × ((a : ℕ) × (mapped ≡ some a))
        × (registered ≡ pos 0)
        × (view.published s.ring ≡ range_from 0 512)
        × (count i (view.published s.ring) + count i s.free_send_ids
            ≡ (if ltb i buffers then 1 else 0)))
      ⊎ ((err ≢ ok)
          × (((mapped ≡ none) × (err ≡ mmap_failed))
              ⊎ ((n : ℕ) × (registered ≡ negsuc n) × (err ≡ errno_to_error (pos (suc n)))))
          × (view.published s.ring ≡ [])
          × (s.free_send_ids ≡ []))

  ring_of :
      (queue_init : ℕ → Option K) (size : ℕ) (s s1 : IoUring K)
      → init_ring lib queue_init size s ≡ done s1
      → (k : K) × (queue_init size ≡ some k) × (s1 ≡ record s { ring = k })
  unfolding init_ring
  ring_of queue_init size s s1 h = elim (Option-cases (queue_init size)) [
    | inl fails ↦ absurd (ground arith)
    | inr (k, made) ↦ (k, made, ground arith)
  ]

  -- What `io_uring_register_buf_ring` is documented to return: 0, or a negated errno.
  abbrev pub IsReturned : ℤ → Type 0
  IsReturned z = (z ≡ pos 0) ⊎ ((n : ℕ) × (z ≡ negsuc n))

  shared :
      (errno_to_error : ℤ → Error) (mapped : Option ℕ) (registered : ℤ) (s : IoUring K) (i : ℕ)
      → ((n : ℕ) → errno_to_error (pos (suc n)) ≢ ok)
      → IsReturned registered
      → view.published s.ring ≡ []
      → s.free_send_ids ≡ []
      → let (s', err) = setup_buffer_pool lib errno_to_error mapped registered s in
        Shared errno_to_error mapped registered s' err i
  unfolding setup_buffer_pool
  shared errno_to_error none registered s i errs z none_yet no_ids =
      inr ((λ h. absurd (cc)), inl (refl, refl), none_yet, no_ids)
  shared errno_to_error (some a) (negsuc n) s i errs z none_yet no_ids =
      inr (errs n, inr (n, refl, refl), none_yet, no_ids)
  shared errno_to_error (some a) (pos zero) s i errs z none_yet no_ids =
      let (fine, first, each) =
        setup_buffer_pool-owns lib view errno_to_error s a i none_yet no_ids in
      inl (fine, (a, refl), refl, first, each)
  shared errno_to_error (some a) (pos (suc n)) s i errs (inl z) none_yet no_ids =
      absurd (ground arith)
  shared errno_to_error (some a) (pos (suc n)) s i errs (inr (m, z)) none_yet no_ids = absurd (cc)

  -- An `init` that returns, on a queue that starts with an empty buffer ring and an empty stack for
  -- sends, where the flag constants are distinct, the registration returns 0 or a negated errno, and
  -- `errno_to_error` makes no errno OK: the kernel supports every operation that the ring needs. If
  -- the result is OK, the mapping and the registration succeeded, the kernel has the buffers 0 to
  -- 511, and each of the 1024 buffers is either the kernel's or on the stack for sends, exactly
  -- once; else the result is the error of the mapping or of the registration, whichever failed, and
  -- neither has any. In both cases the ring is marked as initialized.
  pub init-Shared :
      (number : UringFeature → ℕ) (distinct : (f g : UringFeature) → number f ≡ number g → f ≡ g)
      (queue_init : ℕ → Option K) (size : ℕ) (probe : Option (List ProbeOp))
      (errno_to_error : ℤ → Error) (mapped : Option ℕ) (registered : ℤ) (s s' : IoUring K)
      (err : Error) (i : ℕ)
      → ((n : ℕ) → errno_to_error (pos (suc n)) ≢ ok)
      → IsReturned registered
      → ((k : K) → queue_init size ≡ some k → view.published k ≡ [])
      → s.free_send_ids ≡ []
      → init lib number queue_init size probe errno_to_error mapped registered s ≡ done (s', err)
      → ((ops : List ProbeOp) × (probe ≡ some ops) × (all_reported number ops needed ≡ true))
        × Shared errno_to_error mapped registered s' err i
        × (s'.initialized ≡ true)
  unfolding init
  init-Shared number distinct queue_init size probe errno_to_error mapped registered s s' err i errs
        z none_yet no_ids h =
      let (s1, h1, rest) = >>=-eq-done (init_ring lib queue_init size s) _ h in
      let (u, h2, last) = >>=-eq-done (probe_features number probe) _ rest in
      let (k, made, is) = ring_of queue_init size s s1 h1 in
      let end = done-injective _ (s', err) last in
      let owned =
        shared errno_to_error mapped registered s1 i errs z
          (ap (λ (x : IoUring K). view.published x.ring) is ∙ none_yet k made)
          (ap (λ (x : IoUring K). x.free_send_ids) is ∙ no_ids) in
      (
        all_needed number distinct probe u h2,
        subst (λ (r : IoUring K × Error). Shared errno_to_error mapped registered r.0 r.1 i) end
            owned,
        sym (ap (λ (r : IoUring K × Error). r.0.initialized) end),
      )

  pub init-base :
      (number : UringFeature → ℕ) (queue_init : ℕ → Option K) (size : ℕ)
      (probe : Option (List ProbeOp)) (errno_to_error : ℤ → Error) (mapped : ℕ) (s s' : IoUring K)
      (err : Error)
      → init lib number queue_init size probe errno_to_error (some mapped) (pos 0) s
        ≡ done (s', err)
      → s'.buffer_base ≡ mapped + sizeof_buf * buffers
  unfolding init
  init-base number queue_init size probe errno_to_error mapped s s' err h =
      let (s1, h1, rest) = >>=-eq-done (init_ring lib queue_init size s) _ h in
      let (u, h2, last) = >>=-eq-done (probe_features number probe) _ rest in
      sym (ap (λ (r : IoUring K × Error). r.0.buffer_base) (done-injective _ (s', err) last))
      ∙ setup_buffer_pool-base lib view errno_to_error s1 mapped
