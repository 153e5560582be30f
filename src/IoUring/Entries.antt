-- ===== src/IoUring/Entries.antt =====
-- src/IOUring.cpp: what `submit` puts into a submission entry, and what it leaves of the work item.
use iuring.Prelude.{◌≡◌, ap, arith}
use iuring.Outcome.{done, >>=-eq-done, done-injective}
use iuring.Endian.{Endian}
use iuring.WorkItem.{WorkItem, WorkType}
use iuring.Liburing.{Liburing, Sqe}
use iuring.IoUring.Submission.{prepare, prepare_as, get_sqe, submit}

-- What no submission changes in an item.
pub record SameItem (w w' : WorkItem) : Type 0 where
  pub same_id : w'.id ≡ w.id
  pub same_type : w'.work_type ≡ w.work_type
  pub same_state : w'.state ≡ w.state
  pub same_socket : w'.socket ≡ w.socket
  pub same_callback : w'.callback ≡ w.callback
  pub same_packet : w'.send_packet ≡ w.send_packet
  pub same_buffer : w'.buffer_for_uring ≡ w.buffer_for_uring

prepare_as-SameItem :
    (e : Endian) (t : WorkType) (w w' : WorkItem) (sqe : Sqe)
    → prepare_as e t w ≡ done (w', sqe)
    → SameItem w w' × (sqe.user_data ≡ w.id)
unfolding prepare_as
prepare_as-SameItem e WorkType.unknown w w' sqe h = ground arith
prepare_as-SameItem e _ w w' sqe h = ground arith

-- An entry carries the identifier of its item, and the item keeps what names its request.
pub prepare-SameItem :
    (e : Endian) (w w' : WorkItem) (sqe : Sqe)
    → prepare e w ≡ done (w', sqe)
    → SameItem w w' × (sqe.user_data ≡ w.id)
unfolding prepare
prepare-SameItem e w w' sqe h = prepare_as-SameItem e w.work_type w w' sqe h

module _ {K : Type 0} (e : Endian) (lib : Liburing K) where
  pub submit-SameItem :
      (w w' : WorkItem) (k k' : K) → submit e lib w k ≡ done (w', k') → SameItem w w'
  unfolding submit
  submit-SameItem w w' k k' h =
      let (k1, got, rest) = >>=-eq-done (get_sqe e lib k) _ h in
      let ((w1, sqe), prepared, last) = >>=-eq-done (prepare e w) _ rest in
      let same = prepare-SameItem e w w1 sqe prepared in
      rw (← (ap (λ (r : WorkItem × K). r.0) (done-injective _ (w', k') last))) same.0
