-- ===== src/Probe/Reported.antt =====
-- src/ProbeUringFeatures.hpp: what the class finds against what the kernel's list says.
use iuring.Prelude.{
  ℕ, ◌≡◌, refl, sym, ap, ◌∙◌, Bool, true, false, ◌&&◌, ◌||◌, Option, none, some, List, [], ◌∷◌,
  arith, ◌==◌, if◌then◌else◌, get_or, ◌⊎◌, inl, inr, Bool-cases, ◌≢◌, ==_iff,
}
use iuring.Outcome.{done, aborted}
use iuring.Probe.{
  UringFeature, tag, cases, ProbeOp, is_supported, contains, first_case,
  convert_uring_op_to_feature, add_features, new, supports, probe_features,
}

of_tag : ℕ → UringFeature
of_tag n = get_or (UringFeature.unknown ∷ cases) n UringFeature.unknown

of_tag-tag : (f : UringFeature) → of_tag (tag f) ≡ f
unfolding of_tag tag
of_tag-tag UringFeature.unknown = refl
of_tag-tag UringFeature.nop = refl
of_tag-tag UringFeature.readv = refl
of_tag-tag UringFeature.writev = refl
of_tag-tag UringFeature.fsync = refl
of_tag-tag UringFeature.read_fixed = refl
of_tag-tag UringFeature.write_fixed = refl
of_tag-tag UringFeature.poll_add = refl
of_tag-tag UringFeature.poll_remove = refl
of_tag-tag UringFeature.sync_file_range = refl
of_tag-tag UringFeature.sendmsg = refl
of_tag-tag UringFeature.recvmsg = refl
of_tag-tag UringFeature.timeout = refl
of_tag-tag UringFeature.timeout_remove = refl
of_tag-tag UringFeature.accept = refl
of_tag-tag UringFeature.async_cancel = refl
of_tag-tag UringFeature.link_timeout = refl
of_tag-tag UringFeature.connect = refl
of_tag-tag UringFeature.fallocate = refl
of_tag-tag UringFeature.openat = refl
of_tag-tag UringFeature.close = refl
of_tag-tag UringFeature.files_update = refl
of_tag-tag UringFeature.statx = refl
of_tag-tag UringFeature.read = refl
of_tag-tag UringFeature.write = refl
of_tag-tag UringFeature.fadvise = refl
of_tag-tag UringFeature.madvise = refl
of_tag-tag UringFeature.send = refl
of_tag-tag UringFeature.recv = refl
of_tag-tag UringFeature.openat2 = refl
of_tag-tag UringFeature.epoll_ctl = refl
of_tag-tag UringFeature.splice = refl
of_tag-tag UringFeature.provide_buffers = refl
of_tag-tag UringFeature.remove_buffers = refl
of_tag-tag UringFeature.tee = refl
of_tag-tag UringFeature.shutdown = refl
of_tag-tag UringFeature.renameat = refl
of_tag-tag UringFeature.unlinkat = refl
of_tag-tag UringFeature.mkdirat = refl
of_tag-tag UringFeature.symlinkat = refl
of_tag-tag UringFeature.linkat = refl

pub tag-injective : (f g : UringFeature) → tag f ≡ tag g → f ≡ g
tag-injective f g e = sym (of_tag-tag f) ∙ ap of_tag e ∙ of_tag-tag g

-- The operations that the ring needs.
abbrev pub needed : List UringFeature
needed =
    UringFeature.accept ∷ UringFeature.recv ∷ UringFeature.recvmsg ∷ UringFeature.send
    ∷ UringFeature.sendmsg ∷ UringFeature.close ∷ UringFeature.connect ∷ []

module _ (number : UringFeature → ℕ) where
  -- The kernel's list has this operation, with the flag for support.
  abbrev pub reported : List ProbeOp → UringFeature → Bool
  reported [] f = false
  reported (o ∷ os) f = (is_supported o && number f == o.op) || reported os f

  abbrev pub all_reported : List ProbeOp → List UringFeature → Bool
  all_reported ops [] = true
  all_reported ops (f ∷ fs) = reported ops f && all_reported ops fs

  first_case_sound :
      (fs : List UringFeature) (op : ℕ) (f : UringFeature)
      → tag (first_case number fs op) ≡ tag f
      → (tag f ≡ tag UringFeature.unknown) ⊎ (number f ≡ op)
  unfolding first_case
  first_case_sound [] op f e = inl (sym e)
  first_case_sound (g ∷ gs) op f e = ground (arith, tag-injective g f, first_case_sound gs op f)

  first_case_complete :
      (distinct : (f g : UringFeature) → number f ≡ number g → f ≡ g) (fs : List UringFeature)
      (f : UringFeature)
      → contains f fs ≡ true
      → first_case number fs (number f) ≡ f
  unfolding first_case contains
  first_case_complete distinct (g ∷ gs) f m =
      ground (arith, distinct g f, tag-injective g f, first_case_complete distinct gs f)
  first_case_complete distinct [] f m = absurd (cc)

  module _ (distinct : (f g : UringFeature) → number f ≡ number g → f ≡ g) where
    first_case-eq :
        (fs : List UringFeature) (f : UringFeature) (op : ℕ)
        → contains f fs ≡ true
        → tag f ≢ tag UringFeature.unknown
        → (tag (first_case number fs op) == tag f) ≡ (number f == op)
    first_case-eq fs f op m known = elim (Bool-cases (number f == op)) [
      | inl here ↦
          let found : first_case number fs op ≡ f =
            ap (first_case number fs) (sym ((==_iff (number f) op).0 here))
            ∙ first_case_complete distinct fs f m in
          rw found (ground arith)
      | inr other ↦ ground (arith, first_case_sound fs op f)
    ]

    supports-reported :
        (ops : List ProbeOp) (f : UringFeature)
        → contains f cases ≡ true
        → tag f ≢ tag UringFeature.unknown
        → supports number (add_features number ops) f ≡ reported ops f
    unfolding supports add_features contains convert_uring_op_to_feature
    supports-reported [] f m known = refl
    supports-reported (o ∷ os) f m known =
        ground (arith, first_case-eq cases f o.op m known, supports-reported os f m known)

    -- If the constants are distinct, `probe_features` returns exactly when the kernel's list has
    -- each of the seven operations that the ring needs, with its flag for support; otherwise, and
    -- if there is no list, it aborts.
    pub probe_features_lem :
        (probe : Option (List ProbeOp))
        → probe_features number probe ≡ elim probe [
          | none ↦ aborted
          | some ops ↦ if all_reported ops needed then done tt else aborted
        ]
    unfolding probe_features new contains tag
    probe_features_lem none = refl
    probe_features_lem (some ops) =
        rw
          (
            supports-reported ops UringFeature.accept refl (omega arith),
            supports-reported ops UringFeature.recv refl (omega arith),
            supports-reported ops UringFeature.recvmsg refl (omega arith),
            supports-reported ops UringFeature.send refl (omega arith),
            supports-reported ops UringFeature.sendmsg refl (omega arith),
            supports-reported ops UringFeature.close refl (omega arith),
            supports-reported ops UringFeature.connect refl (omega arith),
          )
          (ground arith)
