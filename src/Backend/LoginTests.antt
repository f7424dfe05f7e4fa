-- ===== src/Backend/LoginTests.antt =====
-- A login with "hi" over three strings "old" of BackLibWaterRMQ.c.
use wate_rmq.Common.{refl, true, arith, [], none, some, pos}
use wate_rmq.Memory.{at}
use wate_rmq.Config.{WateRmq, Login, ExceptionHandling}
use wate_rmq.Configure.Tests.{hi, old, first, second, first-IsSound, second-Extends, own}
use wate_rmq.Session.Tests.{fine}
use wate_rmq.Backend.{State, configure_login}
use wate_rmq.Backend.LogsIn.{LogsIn, configure_login-LogsIn}

abbrev state : State
state = record { world = second; calls = []; value = λ h. 1; is_open = λ h. true }

abbrev login : Login
login = record {
  conn = some 1;
  host = at 1;
  channel_max = pos 0;
  frame_max = pos 0;
  heartbeat = pos 0;
  sasl_method = pos 0;
  username = at 2;
  password = at 3;
}

abbrev messages : ExceptionHandling
messages = record {
  login_message = at 0;
  opening_channel_message = at 0;
  queue_message = at 0;
  binding_message = at 0;
  consuming_message = at 0;
  closing_channel_message = at 0;
  closing_connection_message = at 0;
  ending_connection_message = at 0;
}

abbrev instance_ : WateRmq
instance_ = record {
  conf_exchange = none;
  conf_conn = none;
  conf_login = some login;
  except = some messages;
  consuming_queue = none;
  qmmap = none;
  semap = none;
}

configure_login-LogsIn_example :
    LogsIn fine instance_ login messages
      (at 0)
      (at 0)
      (at 0)
      old
      old
      old
      hi
      hi
      hi
      hi
      (pos 1)
      (pos 2)
      (pos 3)
      (pos 0)
      first
      state
      (configure_login fine instance_ (at 0) (pos 1) (pos 2) (pos 3) (pos 0) (at 0) (at 0) state)
configure_login-LogsIn_example =
    configure_login-LogsIn fine instance_ login messages (at 0) (at 0) (at 0) old old old hi hi hi
      hi (pos 1) (pos 2) (pos 3) (pos 0) first state first-IsSound second-Extends refl refl refl
      (record {
        owned = (
          own 3 9 (omega arith) (omega arith) refl,
          (
            own 2 3 (omega arith) (omega arith) refl,
            (own 1 2 (omega arith) (omega arith) refl, tt),
          ),
        );
      })
      refl refl refl (omega arith) (omega arith) (omega arith)
