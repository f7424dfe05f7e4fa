-- ===== src/Inbox/Tests.antt =====
-- A message for an instance whose queue has used its slots, and for one that is new.
use wate_rmq.Common.{ℕ, refl, true, List, [], ◌∷◌, none, some, pos, arith, ◌==◌, if◌then◌else◌}
use wate_rmq.Memory.{null, at, World}
use wate_rmq.Memory.Frame.{IsSound}
use wate_rmq.Queue.{Queue, max_size}
use wate_rmq.Queue.Rep.{Rep}
use wate_rmq.Config.{WateRmq}
use wate_rmq.Inbox.{add_message}
use wate_rmq.Inbox.Delivery.{Delivers, add_message-Delivers}

abbrev hi : List ℕ
hi = b'h' ∷ b'i' ∷ []

abbrev world : World
world = record {
  next = 1;
  block = λ b. if b == 0 then some (b'h' ∷ b'i' ∷ 0 ∷ []) else none;
  grants = λ n size. true;
  junk = λ n i. 255;
  stdout = [];
  stderr = [];
}

world-IsSound : IsSound world
world-IsSound = record { unused = λ b h. ground arith }

abbrev one_left : Queue
one_left = record { items = λ i. null; front = pos 40558; rear = pos 40559 }

one_left-Rep : Rep world one_left 40559 []
one_left-Rep = record { front_at = refl; rear_at = refl; fits = omega arith; held = tt }

abbrev used_up : Queue
used_up = record { items = λ i. null; front = pos 40559; rear = pos 40560 }

used_up-Rep : Rep world used_up max_size []
used_up-Rep = record { front_at = refl; rear_at = refl; fits = omega arith; held = tt }

abbrev holding : Queue → WateRmq
holding q = record {
  conf_exchange = none;
  conf_conn = none;
  conf_login = none;
  except = none;
  consuming_queue = some q;
  qmmap = none;
  semap = none;
}

add_message-Delivers_example :
    Delivers world (add_message (holding one_left) (at 0) world) 40559 (hi ∷ [])
add_message-Delivers_example =
    add_message-Delivers (holding one_left) (at 0) hi world-IsSound refl one_left-Rep refl
      (omega arith)

-- The message is dropped, and 1 is returned all the same.
dropped : Delivers world (add_message (holding used_up) (at 0) world) 40560 []
dropped =
    add_message-Delivers (holding used_up) (at 0) hi world-IsSound refl used_up-Rep refl
      (omega arith)
