-- ===== src/Inbox.antt =====
-- The messages of an instance of BackLibWaterRMQ.c: `addMessageInQueue_private` and
-- `getCurrentMessage_public`.
pub mod Delivery
mod Tests
use wate_rmq.Common.{none, some, ℤ, pos, negsuc}
use wate_rmq.Memory.{Ptr, null, at, Cmd, pure, ◌>>=◌}
use wate_rmq.Queue.{enqueue, peek}
use wate_rmq.Config.{WateRmq}
use wate_rmq.Configure.{member}

-- The instance after a message has been offered, and what is returned.
unfoldable pub add_message : WateRmq → Ptr → Cmd (ℤ × WateRmq)
add_message i null = pure (negsuc 0, i)
add_message i (at b) = member i.consuming_queue >>= λ q.
    enqueue q (at b) >>= λ q'. pure (pos 1, record i { consuming_queue = some q' })

unfoldable pub get_current_message : WateRmq → Cmd Ptr
get_current_message i = member i.consuming_queue >>= λ q. peek q
