-- ===== src/Backend/Sends.antt =====
-- What the loop over messages of BackLibWaterRMQ.c comes to.
use wate_rmq.Common.{ℕ, ◌≡◌, false, List, [], ◌∷◌, ◌++◌, Option}
use wate_rmq.Memory.{Ptr, at, World, Run, Cmd, Fault, dangling, update}
use wate_rmq.Memory
use wate_rmq.Machine.{Ending, fault, blocked, pure, ◌>>=◌, ◌>>◌}
use wate_rmq.Config.{WateRmq}
use wate_rmq.Session.{Call, Library, ask, perform, maybe_release_buffers, consume_message}
use wate_rmq.Backend.{State, Back, lift, in_session, send_message, Placing}
use wate_rmq.Backend.Calls.{ret_request_handling}
use wate_rmq.Backend.Hinders.{Guarded, Hinders}

-- A library that puts the body of a message somewhere: never at NULL.
abbrev pub Places : Placing → Type 0
Places place =
    (o : Option (List ℕ)) (w : World) → (b : ℕ) × (v : World) × (place.put o w ≡ Memory.ok (at b) v)

-- The calls of a round up to its message.
abbrev pub consumed : List Call → List Call
consumed cs = (cs ++ maybe_release_buffers ∷ []) ++ consume_message ∷ []

abbrev after_consuming : State → State
after_consuming s = record s { calls = consumed s.calls }

-- A round behind the test for a login.
abbrev consuming : Library → Placing → WateRmq → Back WateRmq
consuming lib place i =
    in_session (perform maybe_release_buffers)
    >> (in_session (ask (λ h. (lib.reply h, lib.bytes h)) consume_message) >>= λ (ret, bytes).
        lift (place.put bytes) >>= λ message.
        send_message place i message >>= λ i'. in_session (ret_request_handling lib ret) >> pure i')

-- The loop over messages is at fault in its first round, for a reason that `Hinders` names; waits
-- there for a semaphore that is 0; or is at fault at a semaphore that has been closed.
pub data Stops (lib : Library) (place : Placing) (i : WateRmq) (s : State)
    : Ending State (Unit {0}) → Type 0 where
  hinders :
      {b : ℕ} {w : World} {e : Fault} {t : State}
      → place.put (lib.bytes (consumed s.calls)) s.world ≡ Memory.ok (at b) w
      → Hinders place i s.is_open b w e
      → Stops lib place i s (fault e t)
  waits :
      {h : ℕ} {t : State}
      → Guarded i h
      → s.value h ≡ 0
      → t.calls ≡ consumed s.calls
      → Stops lib place i s (blocked t)
  again : (h : ℕ) {t : State} → t.is_open h ≡ false → Stops lib place i s (fault dangling t)
