-- ===== src/Inbox/Delivery.antt =====
-- What a message that is offered becomes, and which one is read next.
use wate_rmq.Common.{
  ℕ, ◌+◌, ◌^◌, ◌≡◌, ◌<◌, refl, List, [], ◌∷◌, ◌++◌, some, ℤ, pos, length, if◌then◌else◌,
}
use wate_rmq.Memory.{Ptr, null, at, World, Run, ok, string_at}
use wate_rmq.Memory.Frame.{IsSound, Extends}
use wate_rmq.Queue.{Queue}
use wate_rmq.Queue.Rep.{Rep}
use wate_rmq.Queue.Enqueue.{admits, enqueue-Ends}
use wate_rmq.Queue.Take.{Peeks, peek-Peeks}
use wate_rmq.Config.{WateRmq}
use wate_rmq.Configure.{member}
use wate_rmq.Inbox.{add_message, get_current_message}

-- The call returned 1, and left an instance whose next message is the first of `xs`.
pub record Delivers (w : World) (r : Run (ℤ × WateRmq)) (gone : ℕ) (xs : List (List ℕ))
    : Type 0 where
  pub world : World
  pub instance_ : WateRmq
  pub queue : Queue
  pub result : r ≡ ok (pos 1, instance_) world
  pub has_queue : instance_.consuming_queue ≡ some queue
  pub sound : IsSound world
  pub extends : Extends w world
  pub holds : Rep world queue gone xs
  pub current : Peeks world (get_current_message instance_ world) xs

get_current_message-Peeks :
    {w : World} (i : WateRmq) {q : Queue} {gone : ℕ} (xs : List (List ℕ))
    → i.consuming_queue ≡ some q
    → Rep w q gone xs
    → Peeks w (get_current_message i w) xs
unfolding get_current_message member
get_current_message-Peeks i xs e r = rw e (peek-Peeks xs r)

-- `addMessageInQueue_private` returns 1 for every message that is not NULL, also for one that the
-- queue has dropped because it is full or `malloc` is refused: the queue then holds what it held
-- before, and else the message behind that. `getCurrentMessage_public` gives the oldest of these.
pub add_message-Delivers :
    {w : World} {q : Queue} {gone : ℕ} {xs : List (List ℕ)} (i : WateRmq) (value : Ptr) (s : List ℕ)
    → IsSound w
    → i.consuming_queue ≡ some q
    → Rep w q gone xs
    → string_at w value ≡ some s
    → length s + 1 < 2 ^ 31
    → Delivers w
        (add_message i value w)
        gone
        (if admits w (gone + length xs) (length s) then xs ++ s ∷ [] else xs)
unfolding add_message member
add_message-Delivers i null s sound e r points short = cc
add_message-Delivers {w} {q} {gone} {xs} i (at b) s sound e r points short =
    let t = enqueue-Ends (at b) s sound r points short in
    record {
      world = t.world;
      instance_ = record i { consuming_queue = some t.queue };
      queue = t.queue;
      result = rw (e, t.result) refl;
      has_queue = refl;
      sound = t.sound;
      extends = t.extends;
      holds = t.holds;
      current = get_current_message-Peeks _ _ refl t.holds;
    }
