-- ===== src/IoUring/Answering.antt =====
-- src/IOUring.cpp: a request from its submission to its completion, whatever comes in between.
use iuring.Prelude.{ℕ, ◌≡◌, ◌≢◌, refl, sym, ap, ◌∙◌, false, none, some, List, ◌∷◌, arith, write}
use iuring.Outcome.{done, >>=-eq-done, done-injective, Error}
use iuring.Endian.{Endian}
use iuring.IpAddress.{IpAddress, of_sockaddr_in, data_sockaddr}
use iuring.IpAddress.Layout.{SockaddrIn, IsSockaddrIn, af_inet, bytes_of_sockaddr_in}
use iuring.Completion.{Client, Request, Call, connected, sent, closed}
use iuring.Completion.Int.{ℤ, pos, negsuc, is_errno}
use iuring.WorkItem.{WorkItem, Memory}
use iuring.WorkPool.{WorkPool}
use iuring.WorkPool.Slots.{find}
use iuring.Liburing.{Liburing, Cqe, Peek, found, again, failed}
use iuring.IoUring.State.{IoUring}
use iuring.IoUring.Submission.{submit}
use iuring.IoUring.Requests.{perform, perform_all}
use iuring.IoUring.Handlers.{connect_address, enobufs}
use iuring.IoUring.Poll.{polled, poll_completion_queues, call_callback_and_free_work_item_id}
use iuring.IoUring.Invariant.{IsTyped}
use iuring.IoUring.Submitting.{type_of, handler_of, socket_of, matches-type_of, submitted}
use iuring.IoUring.Readied.{Carries}
use iuring.IoUring.Readying.{perform-Readies}
use iuring.IoUring.Adding.{perform-Performed}
use iuring.IoUring.Addresses.{connect_address-bytes}
use iuring.IoUring.Completing.{complete-keeps_others}
use iuring.IoUring.Reach.{polls, Step-CallsOwner}
use iuring.WorkPool.Refinement.{update}
use iuring.IoUring.OneShot.{answer_to, one_shot_completes}

-- The call that a request is answered by, for a result: for a connect, whose target is an IPv4
-- address, or a send, a result that is not negative; for a close, any. Accepts and receives are not
-- answered by one completion.
abbrev pub Reply : Request → ℤ → Call → Type 0
Reply (Request.connect s target cb) (pos n) call =
    (v : SockaddrIn) × (target.in4 ≡ some v)
    × IsSockaddrIn v
    × (v.sin_family ≡ af_inet)
    × (call ≡ connected cb (record { status = n; address = of_sockaddr_in v }))
Reply (Request.send s msg cb) (pos n) call = call ≡ sent cb (pos n)
Reply (Request.send_datagram s msg params cb) (pos n) call = call ≡ sent cb (pos n)
Reply (Request.close s cb) z call = call ≡ closed cb z
Reply _ z call = ⊥

abbrev number_of : Request → ℕ
number_of (Request.connect s target cb) = cb
number_of (Request.accept s cb) = cb
number_of (Request.recv s cb) = cb
number_of (Request.close s cb) = cb
number_of (Request.send s msg cb) = cb
number_of (Request.send_datagram s msg params cb) = cb

-- A completion that is not for the identifier.
abbrev pub Avoids : ℕ → Peek → Type 0
Avoids id (found c) = id ≢ c.user_data
Avoids id again = Unit {0}
Avoids id failed = Unit {0}

read_back :
    (e : Endian) (target : IpAddress) (v : SockaddrIn) (buffer old bytes : List ℕ)
    → target.in4 ≡ some v
    → IsSockaddrIn v
    → v.sin_family ≡ af_inet
    → data_sockaddr e target ≡ done bytes
    → buffer ≡ write old 0 bytes
    → connect_address e buffer ≡ of_sockaddr_in v
unfolding data_sockaddr
read_back e target v buffer old bytes n fits inet image b =
    let same : bytes ≡ bytes_of_sockaddr_in e v = ground arith in
    ap (connect_address e) (b ∙ ap (write old 0) same) ∙ connect_address-bytes e v _ fits inet

answered :
    (e : Endian) (m : Memory) (r : Request) (w0 w : WorkItem) (z : ℤ) (call : Call)
    → w.work_type ≡ type_of r
    → w.callback ≡ handler_of r
    → w.buffer_for_uring ≡ w0.buffer_for_uring
    → Carries e m r w0
    → Reply r z call
    → answer_to e w.work_type w (number_of r) z ≡ some (w.callback, call)
answered e m (Request.connect s target cb) w0 w (pos n) call t own same
      (bytes, sized, image, buffer) (v, four, fits, inet, is) =
    let back =
      read_back e target v w.buffer_for_uring m.old_buffer bytes four fits inet image
        (same ∙ buffer) in
    rw (t, own, is, back) refl
answered e m (Request.send s msg cb) w0 w (pos n) call t own same carried is = rw (t, own, is) refl
answered e m (Request.send_datagram s msg params cb) w0 w (pos n) call t own same carried is =
    rw (t, own, is) refl
answered e m (Request.close s cb) w0 w z call t own same carried is = rw (t, own, is) refl
answered e m (Request.connect s target cb) w0 w (negsuc k) call t own same carried is = absurd is
answered e m (Request.send s msg cb) w0 w (negsuc k) call t own same carried is = absurd is
answered e m (Request.send_datagram s msg params cb) w0 w (negsuc k) call t own same carried is =
    absurd is
answered e m (Request.accept s cb) w0 w z call t own same carried is = absurd is
answered e m (Request.recv s cb) w0 w z call t own same carried is = absurd is

module _ {K : Type 0} (e : Endian) (lib : Liburing K) (memory : WorkPool → Memory)
    (client : Client) where
  -- Requests, and polls that find no completion for the identifier.
  pub data Waits (id : ℕ) (s : IoUring K) : IoUring K → Type 0 where
    begins : Waits id s s
    requests :
        {t u : IoUring K}
        → Waits id s t
        → (r : Request) → perform e lib memory t r ≡ done u
        → Waits id s u
    others :
        {t u : IoUring K}
        → Waits id s t
        → (err : Error) → poll_completion_queues e lib memory client t ≡ done (u, err)
        → Avoids id (lib.peek_cqe t.ring).1
        → Waits id s u

  polled_keeps :
      (peek : Peek) (s s' : IoUring K) (err : Error) (id : ℕ) (w : WorkItem)
      → IsTyped s.pool
      → find s.pool id ≡ some w
      → Avoids id peek
      → polled e lib memory client s peek ≡ done (s', err)
      → find s'.pool id ≡ some w
  unfolding polled
  polled_keeps (found c) s s' err id w t held other h =
      let (s1, h1, h2) =
        >>=-eq-done (call_callback_and_free_work_item_id e lib memory client s c) _ h in
      ap (λ (r : IoUring K × Error). find r.0.pool id) (sym (done-injective _ (s', err) h2))
      ∙ complete-keeps_others e lib memory client s s1 c id w t h1 other held
  polled_keeps again s s' err id w t held other h =
      ap (λ (r : IoUring K × Error). find r.0.pool id) (sym (done-injective _ (s', err) h)) ∙ held
  polled_keeps failed s s' err id w t held other h = absurd (cc)

  Waits-keeps :
      (id : ℕ) (w : WorkItem) (s s' : IoUring K)
      → IsTyped s.pool
      → find s.pool id ≡ some w
      → Waits id s s'
      → IsTyped s'.pool × (find s'.pool id ≡ some w)
  unfolding poll_completion_queues
  Waits-keeps id w s s' t held begins = (t, held)
  Waits-keeps id w s s' t held (requests {t = u} before r h) =
      let (t1, held1) = Waits-keeps id w s u t held before in
      let p = perform-Performed e lib memory u s' r h in
      (p.adds.keeps t1, p.adds.extends t1 id w held1)
  Waits-keeps id w s s' t held (others {t = u} before err h other) =
      let (t1, held1) = Waits-keeps id w s u t held before in
      (
        (Step-CallsOwner e lib memory client u s' t1 (polls err h)).0,
        polled_keeps (lib.peek_cqe u.ring).1 (record u { ring = (lib.peek_cqe u.ring).0 }) s' err id
            w t1 held1 other h,
      )

  -- The item under an identifier that a request took.
  new_answers :
      (s s1 : IoUring K) (r : Request) (w : WorkItem) (z : ℤ) (call : Call)
      → IsTyped s.pool
      → perform e lib memory s r ≡ done s1
      → find s.pool w.id ≡ none
      → find s1.pool w.id ≡ some w
      → Reply r z call
      → answer_to e w.work_type w (number_of r) z ≡ some (w.callback, call)
  new_answers s s1 r w z call t h fresh held reply =
      let (descr, w0, ready, run) = perform-Readies e lib memory s s1 r h in
      let (wk, h1, h2) = >>=-eq-done (submit e lib w0 s.ring) _ run in
      let (adds, same) =
        submitted e lib (memory s.pool) s.pool (socket_of r) descr w0 wk.0 s.ring wk.1 h1
          ready.new_id ready.new_state
          (cc (ready.has_type, ready.has_handler, matches-type_of r)) in
      let entry = ap (λ (x : IoUring K). find x.pool w.id) (done-injective _ s1 h2) ∙ held in
      let is : wk.0 ≡ w = ground (arith, adds.only t w.id) in
      answered e (memory s.pool) r w0 w z call
        (sym (ap (λ (x : WorkItem). x.work_type) is) ∙ same.same_type ∙ ready.has_type)
        (sym (ap (λ (x : WorkItem). x.callback) is) ∙ same.same_callback ∙ ready.has_handler)
        (sym (ap (λ (x : WorkItem). x.buffer_for_uring) is) ∙ same.same_buffer) ready.carries reply

  -- A connect to a well-formed IPv4 address, a send or a close that was submitted on a typed pool
  -- and took the item `w`: whatever requests are made and whatever other completions arrive
  -- meanwhile, its completion, with a result that is not negative, or for a close with any but
  -- -ENOBUFS, calls the request's own handler, with that result and, for a connect, with the
  -- address that was asked for; if the requests of the handler succeed, then so does the whole,
  -- with this one call, and the pool is as they left it, less the item's own entry.
  pub request_answered :
      (s s1 s2 s3 : IoUring K) (r : Request) (w : WorkItem) (c : Cqe) (z : ℤ) (call : Call)
      → IsTyped s.pool
      → perform e lib memory s r ≡ done s1
      → find s.pool w.id ≡ none
      → find s1.pool w.id ≡ some w
      → Waits w.id s1 s2
      → c.user_data ≡ w.id
      → c.res ≡ z
      → is_errno z enobufs ≡ false
      → Reply r z call
      → perform_all e lib memory
          (record s2 { calls = call ∷ s2.calls })
          (client (call ∷ s2.calls)).requests
        ≡ done s3
      → (s' : IoUring K) × (call_callback_and_free_work_item_id e lib memory client s2 c ≡ done s')
        × (s'.calls ≡ call ∷ s2.calls)
        × ((j : ℕ) → find s'.pool j ≡ update (find s3.pool) w.id none j)
  request_answered s s1 s2 s3 r w c z call t h fresh held waits names good heard reply asked =
      let typed = (perform-Performed e lib memory s s1 r h).adds.keeps t in
      let (t2, held2) = Waits-keeps w.id w s1 s2 typed held waits in
      let (s', ends, calls, entries) =
        one_shot_completes e lib memory client s2 s3 w c (number_of r) z call t2
          (ap (find s2.pool) names ∙ held2) (new_answers s s1 r w z call t h fresh held reply) good
          heard asked in
      (s', ends, calls, λ j. entries j ∙ ap (λ (i : ℕ). update (find s3.pool) i none j) names)
