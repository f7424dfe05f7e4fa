-- ===== src/Front/Settings.antt =====
-- The settings of the front end (FrontendCPP/WateRMQ.cpp): every name that the back end reads from its
-- command line has the value that was set, and the numbers are printed so that they can be read back.
use wate_rmq.Common.{ℕ, ◌≡◌, refl, List, some, String, false, ℤ}
use wate_rmq.Argv.{codes, same_string}
use wate_rmq.Argv.Fields.{
  Field, hostname, port, exchange_name, binding_key, queuename, v_host, channel_max, frame_max,
  heartbeat, username, password, login_message, opening_channel_message, queue_message,
  binding_message, consuming_message, closing_channel_message, closing_connection_message,
  ending_connection_message,
}
use wate_rmq.Front.{WateRmq}
use wate_rmq.Front.Decimal.{to_string}
use wate_rmq.Front.Command.{set_exception_message, declare_exchange, connection, login}

-- The name of a field, as `Informations` of the back end spells it.
abbrev pub key : Field → String
key hostname = "hostname"
key port = "port"
key exchange_name = "exchange_name"
key binding_key = "bindingKey"
key queuename = "queuename"
key v_host = "v_host"
key channel_max = "channel_max"
key frame_max = "frame_max"
key heartbeat = "heartbeat"
key username = "username"
key password = "password"
key login_message = "loginExceptionMessage"
key opening_channel_message = "openingChannelExceptionMessage"
key queue_message = "queueExceptionMessage"
key binding_message = "bindingExceptionMessage"
key consuming_message = "consumingExceptionMessage"
key closing_channel_message = "closingChannelExceptionMessage"
key closing_connection_message = "closingConnectionExceptionMessage"
key ending_connection_message = "endingConnectionExceptionMessage"

-- The four calls that a program makes, with a text for each field that takes one, and the numbers.
abbrev pub set_all : (Field → List ℕ) → ℤ → ℤ → ℤ → ℤ → WateRmq → WateRmq
set_all t p c f h o =
    login
      (connection
        (declare_exchange
          (set_exception_message o (t login_message) (t opening_channel_message) (t queue_message)
            (t binding_message) (t consuming_message) (t closing_channel_message)
            (t closing_connection_message) (t ending_connection_message))
          (t exchange_name) (t binding_key) (t queuename))
        (t hostname) p)
      (t v_host) c f h (t username) (t password)

abbrev pub setting : (Field → List ℕ) → ℤ → ℤ → ℤ → ℤ → Field → List ℕ
setting t p c f h port = to_string p
setting t p c f h channel_max = to_string c
setting t p c f h frame_max = to_string f
setting t p c f h heartbeat = to_string h
setting t p c f h g = t g

setting_of :
    (t : Field → List ℕ) (p c f h : ℤ) (o : WateRmq) (g : Field)
    → (set_all t p c f h o).command (codes (key g)) ≡ some (setting t p c f h g)
unfolding login connection declare_exchange set_exception_message same_string
setting_of t p c f h o hostname = refl
setting_of t p c f h o port = refl
setting_of t p c f h o exchange_name = refl
setting_of t p c f h o binding_key = refl
setting_of t p c f h o queuename = refl
setting_of t p c f h o v_host = refl
setting_of t p c f h o channel_max = refl
setting_of t p c f h o frame_max = refl
setting_of t p c f h o heartbeat = refl
setting_of t p c f h o username = refl
setting_of t p c f h o password = refl
setting_of t p c f h o login_message = refl
setting_of t p c f h o opening_channel_message = refl
setting_of t p c f h o queue_message = refl
setting_of t p c f h o binding_message = refl
setting_of t p c f h o consuming_message = refl
setting_of t p c f h o closing_channel_message = refl
setting_of t p c f h o closing_connection_message = refl
setting_of t p c f h o ending_connection_message = refl

others_kept :
    (t : Field → List ℕ) (p c f h : ℤ) (o : WateRmq) (k : List ℕ)
    → ((g : Field) → same_string (codes (key g)) k ≡ false)
    → (set_all t p c f h o).command k ≡ o.command k
unfolding login connection declare_exchange set_exception_message
others_kept t p c f h o k d =
    rw
      (
        d hostname,
        d port,
        d exchange_name,
        d binding_key,
        d queuename,
        d v_host,
        d channel_max,
        d frame_max,
        d heartbeat,
        d username,
        d password,
        d login_message,
        d opening_channel_message,
        d queue_message,
        d binding_message,
        d consuming_message,
        d closing_channel_message,
        d closing_connection_message,
        d ending_connection_message,
      )
      refl

-- After the four calls, in the order of the front end's program, every name that the back end knows
-- has the text, or the printed number, that was given for it; every other name keeps what it had.
pub set_all-setting :
    (t : Field → List ℕ) (p c f h : ℤ) (o : WateRmq)
    → ((g : Field) → (set_all t p c f h o).command (codes (key g)) ≡ some (setting t p c f h g))
      × ((k : List ℕ)
          → ((g : Field) → same_string (codes (key g)) k ≡ false)
          → (set_all t p c f h o).command k ≡ o.command k)
set_all-setting t p c f h o = (setting_of t p c f h o, others_kept t p c f h o)
