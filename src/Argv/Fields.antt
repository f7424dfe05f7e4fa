-- ===== src/Argv/Fields.antt =====
-- The arrays of the struct `Informations` of BackLibWaterRMQ.c, with their sizes.
use wate_rmq.Common.{ℕ, Bool, ◌==◌}

pub data Field : Type 0 where
  hostname port exchange_name binding_key queuename v_host channel_max frame_max heartbeat username
        password :
      Field
  login_message opening_channel_message queue_message binding_message consuming_message
        closing_channel_message closing_connection_message ending_connection_message :
      Field

abbrev pub capacity : Field → ℕ
capacity hostname = 50
capacity port = 10
capacity exchange_name = 500
capacity binding_key = 500
capacity queuename = 500
capacity v_host = 500
capacity channel_max = 32
capacity frame_max = 32
capacity heartbeat = 32
capacity username = 500
capacity password = 556
capacity login_message = 800
capacity opening_channel_message = 800
capacity queue_message = 800
capacity binding_message = 800
capacity consuming_message = 800
capacity closing_channel_message = 800
capacity closing_connection_message = 800
capacity ending_connection_message = 800

-- The place of a field in the struct.
abbrev pub place : Field → ℕ
place hostname = 0
place port = 1
place exchange_name = 2
place binding_key = 3
place queuename = 4
place v_host = 5
place channel_max = 6
place frame_max = 7
place heartbeat = 8
place username = 9
place password = 10
place login_message = 11
place opening_channel_message = 12
place queue_message = 13
place binding_message = 14
place consuming_message = 15
place closing_channel_message = 16
place closing_connection_message = 17
place ending_connection_message = 18

abbrev pub same_field : Field → Field → Bool
same_field f g = place f == place g
