-- ===== src/Backend/Hinders.antt =====
-- What keeps `sendMessage` of BackLibWaterRMQ.c from sending a message: each fault has its reason in the
-- instance, in the block that is read as a queue, or in `enqueue`.
use wate_rmq.Common.{
  ℕ, ◌<◌, ◌≡◌, refl, Bool, false, List, Option, none, some, length, ltb, ltb→lt, Bool-cases, inl,
  inr, ℤ,
}
use wate_rmq.Memory.{Ptr, null, at, World, Run, Cmd, Fault, null_access, dangling, out_of_bounds}
use wate_rmq.Memory
use wate_rmq.Queue.{Queue, sizeof_queue, enqueue}
use wate_rmq.Config.{WateRmq, SemaphoreMmap, QueueMmap}
use wate_rmq.Configure.{member}
use wate_rmq.Backend.{Placing, block_as_queue, as_queue, rewritten, set_queue, add_to_queue}
use wate_rmq.Backend.Stays.{Stays, enqueue-Stays}

-- The semaphore of an instance.
pub record Guarded (i : WateRmq) (h : ℕ) : Type 0 where
  pub own : SemaphoreMmap
  pub has_own : i.semap ≡ some own
  pub handle_at : own.semaphore_self ≡ some h

-- No `Queue` can be read or written at `p`.
pub data Unfit (w : World) : Ptr → Fault → Type 0 where
  nowhere : Unfit w null null_access
  freed : {b : ℕ} → w.block b ≡ none → Unfit w (at b) dangling
  too_short :
      {b : ℕ} {bytes : List ℕ}
      → w.block b ≡ some bytes
      → length bytes < sizeof_queue
      → Unfit w (at b) out_of_bounds

-- From the instance, with the message at block `b` of the memory `w`.
pub data Hinders (place : Placing) (i : WateRmq) (is_open : ℕ → Bool) (b : ℕ) (w : World)
    : Fault → Type 0 where
  no_login : i.conf_login ≡ none → Hinders place i is_open b w null_access
  no_semaphore : i.semap ≡ none → Hinders place i is_open b w null_access
  no_handle :
      {m : SemaphoreMmap}
      → i.semap ≡ some m
      → m.semaphore_self ≡ none
      → Hinders place i is_open b w null_access
  not_open : {h : ℕ} → Guarded i h → is_open h ≡ false → Hinders place i is_open b w dangling
  no_bridge : i.qmmap ≡ none → Hinders place i is_open b w null_access
  no_queue :
      {q : QueueMmap}
      → i.qmmap ≡ some q
      → q.ptr_queue ≡ none
      → Hinders place i is_open b w null_access
  fifth_unfit :
      {q : QueueMmap} {queue : Queue} {e : Fault}
      → i.qmmap ≡ some q
      → q.ptr_queue ≡ some queue
      → Unfit w (queue.items 4) e
      → Hinders place i is_open b w e
  not_added_there :
      {q : QueueMmap} {queue other : Queue} {x : World} {e : Fault}
      → i.qmmap ≡ some q
      → q.ptr_queue ≡ some queue
      → as_queue place (queue.items 4) w ≡ Memory.ok other x
      → enqueue other (at b) x ≡ Memory.fault e
      → Hinders place i is_open b w e
  fifth_lost :
      {q : QueueMmap} {queue other other' : Queue} {x y : World} {e : Fault}
      → i.qmmap ≡ some q
      → q.ptr_queue ≡ some queue
      → as_queue place (queue.items 4) w ≡ Memory.ok other x
      → enqueue other (at b) x ≡ Memory.ok other' y
      → Unfit y (queue.items 4) e
      → Hinders place i is_open b w e
  not_added_here :
      {q : QueueMmap} {queue : Queue} {n : ℤ} {x : World} {e : Fault}
      → i.qmmap ≡ some q
      → q.ptr_queue ≡ some queue
      → add_to_queue place (some queue) (at b) w ≡ Memory.ok n x
      → enqueue queue (at b) x ≡ Memory.fault e
      → Hinders place i is_open b w e

-- A call on memory that returns, or is at fault for a reason.
pub data Safe (P : Fault → Type 0) {A : Type 0} : Run A → Type 0 where
  returns : {a : A} {w : World} → Safe P (Memory.ok a w)
  fails : {e : Fault} → P e → Safe P (Memory.fault e)

bound :
    {P : Fault → Type 0} {A B : Type 0} {r : Run A} (k : A → Cmd B)
    → Safe P r
    → ((a : A) (w : World) → r ≡ Memory.ok a w → Safe P (k a w))
    → Safe P (Memory.and_then r k)
bound k (returns {a} {w}) f = f a w refl
bound k (fails p) f = fails p

because :
    {P Q : Fault → Type 0} {A : Type 0} {r : Run A}
    → Safe P r
    → ((e : Fault) → P e → Q e)
    → Safe Q r
because returns f = returns
because (fails {e} p) f = fails (f e p)

pub from :
    {P : Fault → Type 0} {A : Type 0} {r : Run A}
    → Stays r
    → ((e : Fault) → r ≡ Memory.fault e → P e)
    → Safe P r
from Stays.returns f = returns
from (Stays.fails {e}) f = fails (f e refl)

as_queue-Safe : (place : Placing) (p : Ptr) (w : World) → Safe (Unfit w p) (as_queue place p w)
unfolding as_queue
as_queue-Safe place null w = fails nowhere
as_queue-Safe place (at b) w = go (w.block b) refl
  where
    go : (o : Option (List ℕ)) → w.block b ≡ o → Safe (Unfit w (at b)) (block_as_queue place o w)
    go none e = fails (freed e)
    go (some bytes) e = elim (Bool-cases (ltb (length bytes) sizeof_queue)) [
      | inl short ↦ rw short (fails (too_short e (ltb→lt (length bytes) sizeof_queue short)))
      | inr long ↦ rw long returns
    ]

set_queue-Safe :
    (place : Placing) (p : Ptr) (q : Queue) (w : World) → Safe (Unfit w p) (set_queue place p q w)
unfolding set_queue
set_queue-Safe place null q w = fails nowhere
set_queue-Safe place (at b) q w = go (w.block b) refl
  where
    go : (o : Option (List ℕ)) → w.block b ≡ o → Safe (Unfit w (at b)) (rewritten place q b o w)
    go none e = fails (freed e)
    go (some bytes) e = returns

pub add_to_queue-Safe :
    (place : Placing) (i : WateRmq) (is_open : ℕ → Bool) (q : QueueMmap) (queue : Queue) (b : ℕ)
    (w : World)
    → i.qmmap ≡ some q
    → q.ptr_queue ≡ some queue
    → Safe (Hinders place i is_open b w) (add_to_queue place (some queue) (at b) w)
unfolding add_to_queue member
add_to_queue-Safe place i is_open q queue b w at_q e =
    bound _ (because (as_queue-Safe place (queue.items 4) w) λ f u. fifth_unfit at_q e u)
      λ other v r.
        bound _ (from (enqueue-Stays other (at b) v) λ f a. not_added_there at_q e r a)
          λ other' x a.
            bound _
              (because (set_queue-Safe place (queue.items 4) other' x)
                λ f u. fifth_lost at_q e r a u)
              λ _ y c. returns
