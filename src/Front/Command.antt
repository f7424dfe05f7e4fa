-- ===== src/Front/Command.antt =====
-- The settings of FrontendCPP/WateRMQ.cpp, which it keeps as a map from names to texts.
use wate_rmq.Common.{List, some, ℕ, String, ℤ, if◌then◌else◌}
use wate_rmq.Argv.{codes, same_string}
use wate_rmq.Front.{Command, WateRmq}
use wate_rmq.Front.Decimal.{to_string}

-- `_command[key] = value`
abbrev pub set : String → List ℕ → Command → Command
set key value command k = if same_string (codes key) k then some value else command k

unfoldable pub set_exception_message :
    WateRmq → List ℕ → List ℕ → List ℕ → List ℕ → List ℕ → List ℕ → List ℕ → List ℕ → WateRmq
set_exception_message o login opening queue binding consuming channel connection ending = record o {
  command = set "endingConnectionExceptionMessage" ending (
      set "closingConnectionExceptionMessage" connection (
        set "closingChannelExceptionMessage" channel (
          set "consumingExceptionMessage" consuming (
            set "bindingExceptionMessage" binding (
              set "queueExceptionMessage" queue (
                set "openingChannelExceptionMessage" opening
                  (set "loginExceptionMessage" login o.command)))))));
}

unfoldable pub declare_exchange : WateRmq → List ℕ → List ℕ → List ℕ → WateRmq
declare_exchange o exchange_name binding_key queuename = record o {
  command =
      set "queuename" queuename
        (set "bindingKey" binding_key (set "exchange_name" exchange_name o.command));
}

unfoldable pub connection : WateRmq → List ℕ → ℤ → WateRmq
connection o hostname port = record o {
  command = set "port" (to_string port) (set "hostname" hostname o.command);
}

unfoldable pub login : WateRmq → List ℕ → ℤ → ℤ → ℤ → List ℕ → List ℕ → WateRmq
login o v_host channel_max frame_max heartbeat username password = record o {
  command = set "password" password (
      set "username" username (
        set "heartbeat" (to_string heartbeat) (
          set "frame_max" (to_string frame_max)
            (set "channel_max" (to_string channel_max) (set "v_host" v_host o.command)))));
}
