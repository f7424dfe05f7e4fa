-- ===== src/Configure.antt =====
-- The functions of BackLibWaterRMQ.c that overwrite the strings of an instance:
-- `configurationExchange_WateRMQ_public` and `configurationExceptionMessage_WateRMQ_public`.
pub mod Overwrite
pub mod Jobs
pub mod Lays
pub mod Init
pub mod Tests
use wate_rmq.Common.{Option, none, some}
use wate_rmq.Memory.{Ptr, Cmd, null_access, crash, pure, ◌>>=◌, ◌>>◌, strlen, memcpy}
use wate_rmq.Config.{WateRmq}

-- `memcpy(to, from, strlen(from))`: neither a NUL nor a bound.
unfoldable pub overwrite : Ptr → Ptr → Cmd (Unit {0})
overwrite to from = strlen from >>= λ n. memcpy to from n

-- What a member of the instance points to.
unfoldable pub member : {A : Type 0} → Option A → Cmd A
member none = crash null_access
member (some a) = pure a

unfoldable pub configure_exchange : WateRmq → Ptr → Ptr → Ptr → Cmd (Unit {0})
configure_exchange instance_ exchange_name key queuename = member instance_.conf_exchange >>= λ c.
    overwrite c.exchange exchange_name >> overwrite c.binding_key key >> overwrite c.queue queuename

unfoldable pub configure_exception_message :
    WateRmq → Ptr → Ptr → Ptr → Ptr → Ptr → Ptr → Ptr → Ptr → Cmd (Unit {0})
configure_exception_message instance_ login opening queue binding consuming channel connection
      ending =
    member instance_.except >>= λ x.
    overwrite x.login_message login
    >> overwrite x.opening_channel_message opening
    >> overwrite x.queue_message queue
    >> overwrite x.binding_message binding
    >> overwrite x.consuming_message consuming
    >> overwrite x.closing_channel_message channel
    >> overwrite x.closing_connection_message connection
    >> overwrite x.ending_connection_message ending
