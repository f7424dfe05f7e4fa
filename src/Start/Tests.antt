-- ===== src/Start/Tests.antt =====
-- An instance that is configured, and a library that answers well.
use wate_rmq.Common.{ℕ, refl, true, List, [], ◌∷◌, none, some, pos, ◌==◌, if◌then◌else◌}
use wate_rmq.Memory.{at, World}
use wate_rmq.Argv.{codes}
use wate_rmq.Config.{WateRmq, Login}
use wate_rmq.Session.{pure}
use wate_rmq.Session.Script.{Follows}
use wate_rmq.Session.Tests.{fine, empty_log}
use wate_rmq.Start.{configure_rabbit_mq, start_consuming}
use wate_rmq.Start.Script.{IsConfigured, rabbit_script}
use wate_rmq.Start.Rabbit.{Crashes, configure_rabbit_mq-Follows, start_consuming-Crashes}

abbrev hi : List ℕ
hi = b'h' ∷ b'i' ∷ []

abbrev world : World
world = record {
  next = 1;
  block = λ b. if b == 0 then some (b'h' ∷ b'i' ∷ 0 ∷ []) else none;
  grants = λ n size. true;
  junk = λ n i. 255;
  stdout = [];
  stderr = [];
}

abbrev login_ : Login
login_ = record {
  conn = some 1;
  host = at 0;
  channel_max = pos 0;
  frame_max = pos 131072;
  heartbeat = pos 0;
  sasl_method = pos 0;
  username = at 0;
  password = at 0;
}

abbrev instance_ : WateRmq
instance_ = record {
  conf_exchange = some (record { exchange = at 0; binding_key = at 0; queue = at 0 });
  conf_conn = none;
  conf_login = some login_;
  except = some (record {
    login_message = at 0;
    opening_channel_message = at 0;
    queue_message = at 0;
    binding_message = at 0;
    consuming_message = at 0;
    closing_channel_message = at 0;
    closing_connection_message = at 0;
    ending_connection_message = at 0;
  });
  consuming_queue = none;
  qmmap = none;
  semap = none;
}

instance-IsConfigured : IsConfigured world instance_ hi hi
instance-IsConfigured = record {
  login = login_;
  c = _;
  x = _;
  has_login = refl;
  has_exchange = refl;
  has_messages = refl;
  exchange_at = refl;
  key_at = refl;
  opening = (hi, refl);
  declaring = (hi, refl);
  binding = (hi, refl);
  consuming = (hi, refl);
}

configure_rabbit_mq-Follows_example :
    Follows fine
      (rabbit_script (codes "test_queue22") hi hi (b'q' ∷ []))
      tt
      (configure_rabbit_mq fine world (codes "test_queue22") instance_)
configure_rabbit_mq-Follows_example =
    configure_rabbit_mq-Follows fine world (codes "test_queue22") instance_ hi hi (b'q' ∷ [])
      instance-IsConfigured (λ h e. refl) (λ h. refl)

start_consuming-Crashes_example :
    Crashes fine world
      (codes "test_queue22")
      instance_
      hi
      hi
      (b'q' ∷ [])
      instance-IsConfigured
      (λ h e. refl)
      (λ h. refl)
      empty_log
      (start_consuming fine world (codes "test_queue22") (λ q. pure tt) instance_ empty_log)
start_consuming-Crashes_example =
    start_consuming-Crashes fine world (codes "test_queue22") instance_ hi hi (b'q' ∷ [])
      instance-IsConfigured (λ h e. refl) (λ h. refl) refl (λ q. pure tt) empty_log
