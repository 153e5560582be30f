-- ===== src/IoUring/Contract.antt =====
-- What the interface promises of its requests, apart from the ring, the pool and its items: each
-- waits under an identifier of its own, and a completion concerns the request that waits there.
use iuring.Prelude.{
  Bool, true, false, ◌⊎◌, [], ℕ, ◌≡◌, List, ◌∷◌, Option, none, some, ◌==◌, ◌∙◌, if◌then◌else◌,
  subst, Bool-cases, inl, arith, ap, sym, inr,
}
use mathlib.Core.Path.{fun_ext}
use iuring.Socket.{Socket}
use iuring.Completion.{
  Call, connected, accepted, received, sent, closed, Request, Client, ReceivePostAction, keep_none,
  re_submit,
}
use iuring.Completion.Int.{ℤ, is_negative, is_errno}
use iuring.IoUring.Handlers.{enobufs}
use iuring.WorkItem.{
  WorkItem, WorkType, Callback, connect_callback, accept_callback, recv_callback, send_callback,
  close_callback,
}
use iuring.WorkPool.{WorkPool}
use iuring.WorkPool.Slots.{find}
use iuring.WorkPool.Refinement.{update}
use iuring.IoUring.Submitting.{type_of, handler_of, socket_of}

-- The handler that a call goes to.
abbrev pub called : Call → Callback
called (connected h r) = connect_callback h
called (accepted h r) = accept_callback h
called (received h m) = recv_callback h
called (sent h n) = send_callback h
called (closed h n) = close_callback h

-- A request that waits.
pub record Pending : Type 0 where
  pub type : WorkType
  pub handler : Callback
  pub socket : Socket

abbrev pub of_request : Request → Pending
of_request r = record { type = type_of r; handler = handler_of r; socket = socket_of r }

abbrev pub of_item : WorkItem → Pending
of_item w = record { type = w.work_type; handler = w.callback; socket = w.socket }

abbrev pub of_entry : Option WorkItem → Option Pending
of_entry none = none
of_entry (some w) = some (of_item w)

-- The requests of a pool, by their identifiers.
abbrev pub pending : WorkPool → ℕ → Option Pending
pending p j = of_entry (find p j)

abbrev pub changed : (ℕ → Option Pending) → ℕ → Option Pending → ℕ → Option Pending
changed ps id o j = if id == j then o else ps j

-- The requests wait, in their order, each under an identifier where none did.
abbrev pub Submits : List Request → (ℕ → Option Pending) → (ℕ → Option Pending) → Type 0
Submits [] ps qs = (j : ℕ) → qs j ≡ ps j
Submits (r ∷ rs) ps qs =
    (id : ℕ) × (ps id ≡ none) × Submits rs (changed ps id (some (of_request r))) qs

-- The handler of a request is not called, or it is called once and returns the action, and the
-- requests that the client makes then are submitted.
abbrev pub Heard :
    Client
    → Pending
    → Option ReceivePostAction
    → (ℕ → Option Pending)
    → List Call
    → (ℕ → Option Pending)
    → List Call
    → Type 0
Heard client p none ps cs qs ds = ((j : ℕ) → qs j ≡ ps j) × (ds ≡ cs)
Heard client p (some action) ps cs qs ds =
    (c : Call) × (called c ≡ p.handler)
    × (ds ≡ c ∷ cs)
    × ((client (c ∷ cs)).action ≡ action)
    × Submits (client (c ∷ cs)).requests ps qs

-- Which results are told to the handler: of a close all, of a receive none that is negative, and of
-- the others exactly those that are not.
abbrev pub IsTold : WorkType → ℤ → Option ReceivePostAction → Type 0
IsTold WorkType.close z o = (a : ReceivePostAction) × (o ≡ some a)
IsTold WorkType.recv z o = (o ≡ none) ⊎ (is_negative z ≡ false)
IsTold WorkType.unknown z o = ⊥
IsTold _ z o =
    ((is_negative z ≡ true) × (o ≡ none))
    ⊎ ((is_negative z ≡ false) × ((a : ReceivePostAction) × (o ≡ some a)))

-- Does the request wait for more? An accept does, and a receive unless its handler wants no more.
abbrev pub goes_on : WorkType → Option ReceivePostAction → Bool
goes_on WorkType.accept o = true
goes_on WorkType.recv none = true
goes_on WorkType.recv (some re_submit) = true
goes_on WorkType.recv (some keep_none) = false
goes_on _ o = false

-- A completion for an identifier, with a result: nothing happens if no request waits there or if
-- the result is -ENOBUFS; else the request that waits there, and no other, is told of it or not,
-- and ends or goes on.
abbrev pub Answers :
    Client → ℕ → ℤ → (ℕ → Option Pending) → List Call → (ℕ → Option Pending) → List Call → Type 0
Answers client id z ps cs qs ds =
    (((ps id ≡ none) ⊎ (is_errno z enobufs ≡ true)) × ((j : ℕ) → qs j ≡ ps j) × (ds ≡ cs))
    ⊎ ((p : Pending) × (o : Option ReceivePostAction) × (rs : ℕ → Option Pending) × (ps id ≡ some p)
        × (is_errno z enobufs ≡ false)
        × IsTold p.type z o
        × Heard client p o ps cs rs ds
        × ((j : ℕ) → qs j ≡ (if goes_on p.type o then rs j else changed rs id none j)))

-- What happens at the interface.
pub data Event : Type 0 where
  asked : Request → Event
  completed : ℕ → ℤ → Event

-- What the events, newest first, make of the waiting requests and the calls.
abbrev pub Contract :
    Client
    → List Event
    → (ℕ → Option Pending)
    → List Call
    → (ℕ → Option Pending)
    → List Call
    → Type 0
Contract client [] ps cs qs ds = ((j : ℕ) → qs j ≡ ps j) × (ds ≡ cs)
Contract client (asked r ∷ es) ps cs qs ds =
    (rs : ℕ → Option Pending) × Contract client es ps cs rs ds × Submits (r ∷ []) rs qs
Contract client (completed id z ∷ es) ps cs qs ds =
    (rs : ℕ → Option Pending) × (fs : List Call) × Contract client es ps cs rs fs
    × Answers client id z rs fs qs ds

-- The same requests may be given by another function.
pub Heard-ext :
    (client : Client) (p : Pending) (o : Option ReceivePostAction) (ps qs rs : ℕ → Option Pending)
    (cs ds : List Call)
    → Heard client p o ps cs qs ds
    → ((j : ℕ) → qs j ≡ rs j)
    → Heard client p o ps cs rs ds
Heard-ext client p o ps qs rs cs ds a h =
    subst (λ (x : ℕ → Option Pending). Heard client p o ps cs x ds) (fun_ext h) a

pub Submits-from :
    (rs : List Request) (ps qs zs : ℕ → Option Pending)
    → Submits rs qs zs
    → ((j : ℕ) → qs j ≡ ps j)
    → Submits rs ps zs
Submits-from rs ps qs zs a h = subst (λ (x : ℕ → Option Pending). Submits rs x zs) (fun_ext h) a

-- Storing an item for the same request changes none.
pub put-pending :
    (p q : WorkPool) (w old : WorkItem) (j : ℕ)
    → find p w.id ≡ some old
    → of_item old ≡ of_item w
    → ((i : ℕ) → find q i ≡ update (find p) w.id (some w) i)
    → pending p j ≡ pending q j
put-pending p q w old j held same entries = elim (Bool-cases (w.id == j)) [
  | inl here ↦
      let there : find q j ≡ some w = ground (arith, entries j) in
      let before : find p j ≡ some old = ground (arith, held) in
      ap of_entry before ∙ ap some same ∙ sym (ap of_entry there)
  | inr other ↦ sym (ap of_entry (ground (arith, entries j)))
]
