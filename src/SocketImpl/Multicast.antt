-- ===== src/SocketImpl/Multicast.antt =====
-- src/SocketImpl.cpp: the multicast group that a socket joins, binds to and leaves.
use iuring.Prelude.{if◌then◌else◌, ℕ, ◌≡◌, refl, ◌∙◌, List, [], ◌∷◌, arith, inl, inr}
use iuring.Outcome.{done, aborted, Outcome-cases}
use iuring.Endian.{Endian}
use iuring.Completion.Int.{ℤ, is_negative}
use iuring.IpAddress.Text.{Inet, string_to_ipv4_address}
use iuring.Syscalls.{
  SockOption, Mreq, mreq, int, Syscall, Kernel, Sys, ◌>>=◌, pure, ask, >>=-eq-done,
}
use iuring.SocketImpl.{SocketImpl, join_multicast_group, leave_multicast_group, mcast_bind}

-- A method of the socket, or a system call for something else.
pub data Method : Type 0 where
  joins : List ℕ → List ℕ → Method
  binds : Method
  leaves : Method
  elsewhere : Syscall → Method

-- The group and interface of the last join, if there is one.
abbrev pub last_join : List ℕ × List ℕ → List Method → List ℕ × List ℕ
last_join p [] = p
last_join p (joins group iface ∷ ms) = last_join (group, iface) ms
last_join p (_ ∷ ms) = last_join p ms

module _ (e : Endian) (kernel : Kernel) (inet : Inet) where
  unfoldable pub call : Method → SocketImpl → Sys SocketImpl
  call (joins group iface) s = join_multicast_group e kernel inet s group iface
  call binds s = mcast_bind e kernel s >>= λ r. pure s
  call leaves s = leave_multicast_group e kernel s >>= λ u. pure s
  call (elsewhere c) s = ask kernel c >>= λ r. pure s

  unfoldable pub run : List Method → SocketImpl → Sys SocketImpl
  unfolding call
  run [] s = pure s
  run (m ∷ ms) s = call m s >>= λ s'. run ms s'

  abbrev pub option : SocketImpl → SockOption → Mreq → Syscall
  option s o m = Syscall.setsockopt s.base.fd o (mreq m)

  -- The request is for these two texts, read as IPv4 addresses.
  abbrev pub Reads : List ℕ × List ℕ → Mreq → Type 0
  Reads p m =
      (string_to_ipv4_address inet p.0 ≡ done m.multiaddr)
      × (string_to_ipv4_address inet p.1 ≡ done m.interface)

  -- What a join has asked for, and what a bind and a leave ask for after the methods `ms`.
  abbrev pub Joined :
      SocketImpl
      → SocketImpl
      → List ℕ
      → List ℕ
      → List Method
      → List Syscall
      → List Syscall
      → List Syscall
      → Type 0
  Joined s s2 group iface ms t t1 t2 =
      ((m : Mreq) × Reads (group, iface) m
        × (t1
            ≡ Syscall.setsockopt s.base.fd SockOption.multicast_loop (int 0)
              ∷ option s SockOption.add_membership m
              ∷ t))
      × (s2.base ≡ s.base)
      × ((m : Mreq) × Reads (last_join (group, iface) ms) m
          × ((r : ℤ) × (mcast_bind e kernel s2 t2
                ≡ done (r, option s SockOption.multicast_if m ∷ t2)))
          × (leave_multicast_group e kernel s2 t2 ≡ (
              if is_negative (kernel (option s SockOption.drop_membership m ∷ t2))
              then aborted
              else done (tt, option s SockOption.drop_membership m ∷ t2))))

  -- What a join that returns has done.
  Joins : SocketImpl → SocketImpl → List ℕ → List ℕ → List Syscall → List Syscall → Type 0
  Joins s s1 group iface t t1 =
      (s1.base ≡ s.base)
      × Reads (group, iface) s1.m_mreq
      × (t1
          ≡ Syscall.setsockopt s.base.fd SockOption.multicast_loop (int 0)
            ∷ option s SockOption.add_membership s1.m_mreq
            ∷ t)

  joined_state :
      (s s' : SocketImpl) (group iface : List ℕ) (t t' : List Syscall) (a b : ℕ)
      → string_to_ipv4_address inet group ≡ done a
      → string_to_ipv4_address inet iface ≡ done b
      → join_multicast_group e kernel inet s group iface t ≡ done (s', t')
      → s' ≡ record s { m_mreq = record { multiaddr = a; interface = b } }
  unfolding join_multicast_group
  joined_state s s' group iface t t' a b read read2 h = ground arith

  joined_calls :
      (s s' : SocketImpl) (group iface : List ℕ) (t t' : List Syscall) (a b : ℕ)
      → string_to_ipv4_address inet group ≡ done a
      → string_to_ipv4_address inet iface ≡ done b
      → join_multicast_group e kernel inet s group iface t ≡ done (s', t')
      → t'
        ≡ Syscall.setsockopt s.base.fd SockOption.multicast_loop (int 0)
          ∷ option s SockOption.add_membership (record { multiaddr = a; interface = b })
          ∷ t
  unfolding join_multicast_group
  joined_calls s s' group iface t t' a b read read2 h = ground arith

  join-Joins :
      (s s' : SocketImpl) (group iface : List ℕ) (t t' : List Syscall)
      → join_multicast_group e kernel inet s group iface t ≡ done (s', t')
      → Joins s s' group iface t t'
  unfolding join_multicast_group Joins
  join-Joins s s' group iface t t' h = elim (Outcome-cases (string_to_ipv4_address inet group)) [
    | inl (a, read) ↦ elim (Outcome-cases (string_to_ipv4_address inet iface)) [
      | inl (b, read2) ↦
          rw (joined_state s s' group iface t t' a b read read2 h)
            (refl, (read, read2), joined_calls s s' group iface t t' a b read read2 h)
      | inr fails ↦ absurd (ground arith)
    ]
    | inr fails ↦ absurd (ground arith)
  ]

  -- A socket of this base whose request is for the two texts.
  abbrev Holds : SocketImpl → List ℕ × List ℕ → SocketImpl → Type 0
  Holds s p s' = (s'.base ≡ s.base) × Reads p s'.m_mreq

  run-Holds :
      (ms : List Method) (p : List ℕ × List ℕ) (s s1 s2 : SocketImpl) (t t2 : List Syscall)
      → Holds s p s1
      → run ms s1 t ≡ done (s2, t2)
      → Holds s (last_join p ms) s2
  unfolding run call Joins
  run-Holds [] p s s1 s2 t t2 h r = let same : s1 ≡ s2 = cc in rw (← same) h
  run-Holds (joins group iface ∷ ms) p s s1 s2 t t2 h r =
      let (s', t', r1, r2) = >>=-eq-done (call (joins group iface) s1) (λ x. run ms x) t r in
      let (base, reads, calls) = join-Joins s1 s' group iface t t' r1 in
      run-Holds ms (group, iface) s s' s2 t' t2 (base ∙ h.0, reads) r2
  run-Holds (binds ∷ ms) p s s1 s2 t t2 h r =
      let (s', t', r1, r2) = >>=-eq-done (call binds s1) (λ x. run ms x) t r in
      let (u, t3, r3, r4) = >>=-eq-done (mcast_bind e kernel s1) (λ x. pure s1) t r1 in
      let same : s1 ≡ s' = cc in run-Holds ms p s s' s2 t' t2 (rw (← same) h) r2
  run-Holds (leaves ∷ ms) p s s1 s2 t t2 h r =
      let (s', t', r1, r2) = >>=-eq-done (call leaves s1) (λ x. run ms x) t r in
      let (u, t3, r3, r4) = >>=-eq-done (leave_multicast_group e kernel s1) (λ x. pure s1) t r1 in
      let same : s1 ≡ s' = cc in run-Holds ms p s s' s2 t' t2 (rw (← same) h) r2
  run-Holds (elsewhere c ∷ ms) p s s1 s2 t t2 h r =
      let (s', t', r1, r2) = >>=-eq-done (call (elsewhere c) s1) (λ x. run ms x) t r in
      let same : s1 ≡ s' = cc in run-Holds ms p s s' s2 t' t2 (rw (← same) h) r2

  bind_asks :
      (s : SocketImpl) (t : List Syscall)
      → (r : ℤ) × (mcast_bind e kernel s t
          ≡ done (r, option s SockOption.multicast_if s.m_mreq ∷ t))
  unfolding mcast_bind
  bind_asks s t = (_, refl)

  leave_asks :
      (s : SocketImpl) (t : List Syscall)
      → leave_multicast_group e kernel s t ≡ (
          if is_negative (kernel (option s SockOption.drop_membership s.m_mreq ∷ t))
          then aborted
          else done (tt, option s SockOption.drop_membership s.m_mreq ∷ t))
  unfolding leave_multicast_group
  leave_asks s t = ground arith

  -- A join that returns has read both texts as IPv4 addresses, asked for membership of that group
  -- on that interface, and turned the loop-back off. After any methods of the socket, further joins
  -- included, and system calls for others, that all return, `mcast_bind` selects the interface by
  -- the request of the last join, and `leave_multicast_group` gives up the membership by it: it
  -- returns if the kernel's answer is not negative, and else ends the process.
  pub join-leave :
      (s s1 s2 : SocketImpl) (group iface : List ℕ) (ms : List Method) (t t1 t2 : List Syscall)
      → join_multicast_group e kernel inet s group iface t ≡ done (s1, t1)
      → run ms s1 t1 ≡ done (s2, t2)
      → Joined s s2 group iface ms t t1 t2
  unfolding Joins
  join-leave s s1 s2 group iface ms t t1 t2 h r =
      let (base, reads, calls) = join-Joins s s1 group iface t t1 h in
      let (base2, reads2) = run-Holds ms (group, iface) s s1 s2 t1 t2 (base, reads) r in
      (
        (s1.m_mreq, reads, calls),
        base2,
        (s2.m_mreq, reads2, rw (← base2) (bind_asks s2 t2), rw (← base2) (leave_asks s2 t2)),
      )
