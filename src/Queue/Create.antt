-- ===== src/Queue/Create.antt =====
-- `initializeQueue` and `create_WateRMQ_ConsumingQueue_private` of BackLibWaterRMQ.c.
use wate_rmq.Common.{
  ℕ, suc, ◌+◌, ◌≡◌, refl, Bool, true, false, List, [], ◌∷◌, Option, none, some, arith, drop,
  if◌then◌else◌,
}
use mathlib.Core.Path.{subst₂}
use wate_rmq.Memory.{Ptr, at, World, Run, ok, malloc, granted, denied, string_at}
use wate_rmq.Memory.Frame.{
  IsSound, Extends, Extends-trans, granted-IsSound, granted-Extends, malloc-granted, malloc-denied,
  string_at-Extends,
}
use wate_rmq.Queue.{Queue, sizeof_queue, initialize_queue, enqueue, dequeue, create_consuming_queue}
use wate_rmq.Queue.Rep.{Rep}
use wate_rmq.Queue.Enqueue.{Ends, enqueue-Ends}
use wate_rmq.Queue.Take.{taken, dequeue-Ends}

-- A queue that has been initialised is empty and has used no slot, whatever memory held.
pub initialize_queue-Rep : (w : World) (raw : Queue) → Rep w (initialize_queue raw) 0 []
unfolding initialize_queue
initialize_queue-Rep w raw = record {
  front_at = refl;
  rear_at = refl;
  fits = omega arith;
  held = tt;
}

-- A new queue, empty, with `gone` of its slots used up.
pub record Creates (w : World) (r : Run (Option Queue)) (gone : ℕ) : Type 0 where
  pub world : World
  pub queue : Queue
  pub result : r ≡ ok (some queue) world
  pub sound : IsSound world
  pub extends : Extends w world
  pub holds : Rep world queue gone []

abbrev first_message : List ℕ
first_message = b'.' ∷ []

-- What the put of "." leaves, and what the take leaves of that.
one_off :
    (b : Bool)
    → (0 + taken (if b then first_message ∷ [] else []) ≡ (if b then 1 else 0))
      × (drop 1 (if b then first_message ∷ [] else []) ≡ [])
one_off true = (refl, refl)
one_off false = (refl, refl)

create-ok :
    (raw : Queue) (dot : Ptr) (n : ℕ) (w : World) {v u x : World} (q r : Queue)
    → malloc sizeof_queue w ≡ ok (at n) v
    → enqueue (initialize_queue raw) dot v ≡ ok q u
    → dequeue q u ≡ ok r x
    → create_consuming_queue raw dot w ≡ ok (some r) x
unfolding create_consuming_queue
create-ok raw dot n w q r e f g = rw (e, f, g)

-- NULL if `malloc` refuses the queue, and else a queue that is empty, one slot of which is spent on
-- the "." that is put in and taken off at once, unless `malloc` refuses the copy of that.
pub create_consuming_queue-Creates :
    (raw : Queue) (dot : Ptr) {w : World}
    → IsSound w
    → string_at w dot ≡ some (b'.' ∷ [])
    → let first = w.grants w.next sizeof_queue in
      let second = w.grants (suc w.next) 2 in
      (first ≡ false → create_consuming_queue raw dot w ≡ ok none (denied w))
      × (first ≡ true → Creates w (create_consuming_queue raw dot w) (if second then 1 else 0))
unfolding create_consuming_queue
create_consuming_queue-Creates raw dot {w} s points = (
  λ h. rw (malloc-denied sizeof_queue w h),
  λ h. record {
    world = off.world;
    queue = off.queue;
    result =
        create-ok raw dot w.next w on.queue off.queue (malloc-granted sizeof_queue w h) on.result
          off.result;
    sound = off.sound;
    extends = Extends-trans (granted-Extends w sizeof_queue) (Extends-trans on.extends off.extends);
    holds = subst₂ (Rep off.world off.queue) spent.0 spent.1 off.holds;
  },
)
  where
    start : World
    start = granted sizeof_queue w

    second : Bool
    second = w.grants (suc w.next) 2

    on :
        Ends start
          (enqueue (initialize_queue raw) dot start)
          0
          (if second then first_message ∷ [] else [])
    on =
        enqueue-Ends dot first_message (granted-IsSound sizeof_queue s)
          (initialize_queue-Rep start raw)
          (string_at-Extends dot s (granted-Extends w sizeof_queue) points) (omega arith)

    off :
        Ends on.world
          (dequeue on.queue on.world)
          (0 + taken (if second then first_message ∷ [] else []))
          (drop 1 (if second then first_message ∷ [] else []))
    off = dequeue-Ends (if second then first_message ∷ [] else []) on.sound on.holds

    spent :
        (0 + taken (if second then first_message ∷ [] else []) ≡ (if second then 1 else 0))
        × (drop 1 (if second then first_message ∷ [] else []) ≡ [])
    spent = one_off second
