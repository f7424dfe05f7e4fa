-- ===== src/Argv/RoundTrip.antt =====
-- `processArgv` on the command line that the frontend is meant to write.
use wate_rmq.Common.{
  ℕ, suc, ◌-◌, ◌≡◌, ◌≤◌, ◌<◌, refl, ◌∙◌, subst, true, List, [], ◌∷◌, ◌++◌, none, some, arith,
  length, drop,
}
use wate_rmq.Argv.{
  done, codes, option_of, Informations, Argv, connection_fields, exchange_fields, login_fields,
  except_fields, Parsed, consume, process_argv,
}
use wate_rmq.Argv.Fields.{
  Field, hostname, port, exchange_name, binding_key, queuename, v_host, channel_max, frame_max,
  heartbeat, username, password, login_message, opening_channel_message, queue_message,
  binding_message, consuming_message, closing_channel_message, closing_connection_message,
  ending_connection_message, capacity,
}
use wate_rmq.Argv.Steps.{
  Carries, written, Carries-append, step_connection, step_exchange, step_login, step_except,
}

-- The bytes that stand in front of a text, as "chp::" and one byte more for the connection.
abbrev pub padding_of : Field → ℕ
padding_of hostname = 6
padding_of port = 6
padding_of exchange_name = 6
padding_of binding_key = 6
padding_of queuename = 6
padding_of f = 5

-- The four options in the order that `processArgv` wants, each with its texts behind their padding.
abbrev pub command_line : List ℕ → (Field → List ℕ) → (Field → List ℕ) → Argv
command_line program pre texts =
    program
    ∷ codes "--connection"
    ∷ (pre hostname ++ texts hostname)
    ∷ (pre port ++ texts port)
    ∷ codes "--exchange_bind_queue"
    ∷ (pre exchange_name ++ texts exchange_name)
    ∷ (pre binding_key ++ texts binding_key)
    ∷ (pre queuename ++ texts queuename)
    ∷ codes "--login_system"
    ∷ (pre v_host ++ texts v_host)
    ∷ (pre channel_max ++ texts channel_max)
    ∷ (pre frame_max ++ texts frame_max)
    ∷ (pre heartbeat ++ texts heartbeat)
    ∷ (pre username ++ texts username)
    ∷ (pre password ++ texts password)
    ∷ codes "--except_message"
    ∷ (pre login_message ++ texts login_message)
    ∷ (pre opening_channel_message ++ texts opening_channel_message)
    ∷ (pre queue_message ++ texts queue_message)
    ∷ (pre binding_message ++ texts binding_message)
    ∷ (pre consuming_message ++ texts consuming_message)
    ∷ (pre closing_channel_message ++ texts closing_channel_message)
    ∷ (pre closing_connection_message ++ texts closing_connection_message)
    ∷ (pre ending_connection_message ++ texts ending_connection_message)
    ∷ []

-- The arrays after all four cases.
abbrev all_written : (Field → List ℕ) → Informations → Informations
all_written texts info = written texts except_fields (
    written texts login_fields
      (written texts exchange_fields (written texts connection_fields info)))

all_written-texts :
    (texts : Field → List ℕ) (info : Informations) (f : Field)
    → all_written texts info f ≡ some (texts f)
all_written-texts texts info hostname = refl
all_written-texts texts info f = refl

module _ (program : List ℕ) (pre texts : Field → List ℕ)
    (padded : (f : Field) → length (pre f) ≡ padding_of f)
    (fit : (f : Field) → length (texts f) < capacity f) where
  abbrev args : Argv
  args = command_line program pre texts

  carried : (f : Field) → Carries (padding_of f) (pre f ++ texts f) f (texts f)
  carried f =
      subst (λ n. Carries n (pre f ++ texts f) f (texts f)) (padded f)
        (Carries-append (pre f) (texts f) f (fit f))

  end : Parsed
  end = record {
    info = all_written texts (λ f. none);
    last = consume (drop 22 args) 22;
    reported = [];
  }

  connected : Parsed
  connected = record end { info = written texts connection_fields (λ f. none); last = 1 }

  exchanged : Parsed
  exchanged = record connected { info = written texts exchange_fields connected.info }

  logged : Parsed
  logged = record exchanged { info = written texts login_fields exchanged.info }

  process_argv-end : (fuel : ℕ) → process_argv (suc (suc (suc (suc fuel)))) true args ≡ done end
  unfolding process_argv option_of end connected exchanged logged
  process_argv-end fuel =
      step_connection texts (suc (suc (suc fuel))) args 1
        (record { info = λ f. none; last = 1; reported = [] }) refl refl
        ((_, refl, carried hostname), ((_, refl, carried port), tt))
      ∙ step_exchange texts (suc (suc fuel)) args 4 connected refl refl (
        (_, refl, carried exchange_name),
        ((_, refl, carried binding_key), ((_, refl, carried queuename), tt)),
      )
      ∙ step_login texts (suc fuel) args 8 exchanged refl refl (
        (_, refl, carried v_host),
        (
          (_, refl, carried channel_max),
          (
            (_, refl, carried frame_max),
            (
              (_, refl, carried heartbeat),
              ((_, refl, carried username), ((_, refl, carried password), tt)),
            ),
          ),
        ),
      )
      ∙ step_except texts fuel args 15 logged refl refl (
        (_, refl, carried login_message),
        (
          (_, refl, carried opening_channel_message),
          (
            (_, refl, carried queue_message),
            (
              (_, refl, carried binding_message),
              (
                (_, refl, carried consuming_message),
                (
                  (_, refl, carried closing_channel_message),
                  (
                    (_, refl, carried closing_connection_message),
                    ((_, refl, carried ending_connection_message), tt),
                  ),
                ),
              ),
            ),
          ),
        ),
      )

-- A command line with the four options in this order, each text behind the padding of its option
-- and short enough for its array, is read back: every array gets its text, nothing is reported as
-- invalid, and the loop ends after four rounds.
pub process_argv-command_line :
    (program : List ℕ) (pre texts : Field → List ℕ)
    → ((f : Field) → length (pre f) ≡ padding_of f)
    → ((f : Field) → length (texts f) < capacity f)
    → (fuel : ℕ) → 4 ≤ fuel
    → (p : Parsed) × (process_argv fuel true (command_line program pre texts) ≡ done p)
      × ((f : Field) → p.info f ≡ some (texts f))
      × (p.reported ≡ [])
unfolding end
process_argv-command_line program pre texts padded fit fuel enough = (
  end program pre texts padded fit,
  subst
      (λ n.
        process_argv n true (command_line program pre texts)
        ≡ done (end program pre texts padded fit))
      {x = suc (suc (suc (suc (fuel - 4))))} (omega arith)
      (process_argv-end program pre texts padded fit (fuel - 4)),
  all_written-texts texts (λ f. none),
  refl,
)
