-- ===== src/Listener.antt =====
-- The program of FrontendCPP/WateRMQCPP.cpp: it announces the messages of the front end to its
-- notifiers. The JSON library is a parameter.
pub mod Journal
pub mod Hears
pub mod Silent
pub mod Serves
mod Tests
use wate_rmq.Common.{
  ℕ, zero, suc, ◌+◌, ◌^◌, true, false, List, [], ◌∷◌, String, ℤ, pos, ltb, if◌then◌else◌,
}
use wate_rmq.Memory.{Piece, text, str, int, int_range}
use wate_rmq.Process.{System, Proc, print, print_error, record_event, slept}
use wate_rmq.Machine.{running, pure, ◌>>=◌, ◌>>◌, crash}
use wate_rmq.Argv.{codes}
use wate_rmq.Front.{WateRmq, consuming_message, start}
use wate_rmq.Front.Opening.{new_water_rmq}
use wate_rmq.Front.Command.{set_exception_message, declare_exchange, connection, login}

pub data Notifier : Type 0 where
  console : Notifier
  file : List ℕ → Notifier

-- What the library makes of a text, and of a key of a value: the text behind it, or the default. An
-- exception carries its `what()`.
pub data Parsed : Type 0 where
  parsed : ℕ → Parsed
  parse_error other_error : List ℕ → Parsed

pub data Answer : Type 0 where
  given raised : List ℕ → Answer

pub record Json : Type 0 where
  pub parse : List ℕ → Parsed
  pub value : ℕ → String → String → Answer

-- What a notifier prints.
abbrev pub notification : Notifier → List ℕ → List ℕ → List ℕ → List Piece
notification console sensor_id message timestamp =
    text "[NOTIFICATION] Sensor: "
    ∷ str sensor_id
    ∷ text " | Message: "
    ∷ str message
    ∷ text " | Time: "
    ∷ str timestamp
    ∷ text "\n"
    ∷ []
notification (file filename) sensor_id message timestamp =
    text "[FILE] Would write to " ∷ str filename ∷ text "\n" ∷ []

unfoldable pub send_notification : Notifier → List ℕ → List ℕ → List ℕ → Proc (Unit {0})
send_notification n sensor_id message timestamp = print (notification n sensor_id message timestamp)

unfoldable pub notify_all : List Notifier → List ℕ → List ℕ → List ℕ → Proc (Unit {0})
unfolding send_notification
notify_all [] sensor_id message timestamp = pure tt
notify_all (n ∷ notifiers) sensor_id message timestamp =
    send_notification n sensor_id message timestamp
    >> notify_all notifiers sensor_id message timestamp

-- An exception leaves the block; its handler prints it.
abbrev pub caught : String → List ℕ → Proc (Unit {0})
caught title what = print_error (text title ∷ str what ∷ text "\n" ∷ [])

unfoldable pub with_value : Answer → (List ℕ → Proc (Unit {0})) → Proc (Unit {0})
with_value (given s) continue = continue s
with_value (raised what) continue = caught "Error: " what

unfoldable pub announce : Json → List Notifier → ℕ → Proc (Unit {0})
announce json notifiers v = with_value (json.value v "sensor_id" "unknown") λ sensor_id.
    with_value (json.value v "message" "No message") λ message.
      with_value (json.value v "timestamp" "unknown") λ timestamp.
        with_value (json.value v "severity" "info") λ severity.
          print (
            text "Parsed - Sensor: "
            ∷ str sensor_id
            ∷ text " | Severity: "
            ∷ str severity
            ∷ text "\n"
            ∷ [])
          >> notify_all notifiers sensor_id message timestamp

unfoldable pub on_parsed : Json → List Notifier → Parsed → Proc (Unit {0})
on_parsed json notifiers (parsed v) = announce json notifiers v
on_parsed json notifiers (parse_error what) = caught "JSON parse error: " what
on_parsed json notifiers (other_error what) = caught "Error: " what

-- `message_count++`
unfoldable pub count_up : ℕ → Proc ℕ
count_up n = if ltb (n + 1) (2 ^ 31) then pure (n + 1) else crash int_range

abbrev pub banner : ℕ → List ℕ → List Piece
banner n data_from_queue =
    text "\n--- Message #"
    ∷ int (pos n)
    ∷ text " ---"
    ∷ text "\n"
    ∷ text "Raw: "
    ∷ str data_from_queue
    ∷ text "\n"
    ∷ []

-- The block under `try`, with what has been read: the new count.
unfoldable pub on_data : Json → List Notifier → ℕ → List ℕ → Proc ℕ
on_data json notifiers message_count [] = pure message_count
on_data json notifiers message_count (c ∷ cs) = count_up message_count >>= λ n.
    print (banner n (c ∷ cs)) >> (on_parsed json notifiers (json.parse (c ∷ cs)) >> pure n)

-- The loop, for so many rounds.
unfoldable pub listen : Json → List Notifier → WateRmq → ℕ → ℕ → Proc (Unit {0})
listen json notifiers rabbit zero message_count s = running s
listen json notifiers rabbit (suc rounds) message_count s =
    (consuming_message rabbit >>= λ data_from_queue.
    on_data json notifiers message_count data_from_queue >>= λ n.
    record_event (slept 10000) >> listen json notifiers rabbit rounds n)
      s

abbrev pub configured : WateRmq → WateRmq
configured rabbit =
    login
      (connection
        (declare_exchange
          (set_exception_message rabbit (codes "Login error") (codes "Opening error")
            (codes "Queue error") (codes "Binding error") (codes "Consuming error")
            (codes "Closing channel error") (codes "Closing connection error")
            (codes "Ending Connection error"))
          (codes "raw_data_exchange") (codes "capteurs_data") (codes "capteurs_data"))
        (codes "localhost") (pos 5672))
      (codes "/") (pos 0) (pos 0) (pos 0) (codes "guest") (codes "guest")

-- `main`; what stands behind the loop is never reached.
unfoldable pub listener_main : System → Json → ℕ → Proc (Unit {0})
listener_main sys json rounds =
    print (text "=== WateRMQ Consumer Starting ===" ∷ text "\n" ∷ [])
    >> (new_water_rmq sys (codes "watemq_shm") >>= λ rabbit. start (configured rabbit) >>= λ rabbit.
        print (text "Listening for messages... Press Ctrl+C to stop" ∷ text "\n" ∷ [])
        >> listen json (console ∷ file (codes "notifications.log") ∷ []) rabbit rounds 0)
