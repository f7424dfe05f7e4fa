-- ===== src/Consumer/Setup.antt =====
-- The calls of `main` of amqp_consumerX.c up to its loop.
use wate_rmq.Common.{
  ℕ, ◌≡◌, refl, sym, true, false, List, [], ◌∷◌, ◌++◌, append-nil, Option, none, some, ℤ, pos, inl,
  inr, Bool-cases,
}
use wate_rmq.Memory.{Piece, text, str}
use wate_rmq.Argv.{codes}
use wate_rmq.Session.{
  Call, channel_open, get_rpc_reply, bytes_malloc_dup, bytes_free, queue_bind, basic_consume,
  Library, Log, ok, exited, Session, called, ask, print, ◌>>=◌, ◌>>◌, die_on_amqp_error, complaint,
}
use wate_rmq.Session.Script.{
  is_normal, is_some, next_bad, Ends, finished, stopped, Ends-call, Follows, Follows-then,
  perform-Follows, test-Follows, complained,
}
use wate_rmq.Session.Checks.{
  connect_script, connect-Follows, request-Follows, reply-Follows, disconnect_script,
  disconnect-Follows, die_on_amqp_error-bad,
}
use wate_rmq.Consumer.{
  declare, copied, copy_name, subscribe, declare_queue, run, set_up, consumer_main,
}

-- What the documentation of `amqp_queue_declare` promises: if its reply is normal, it has given the
-- name of the queue, and not NULL.
abbrev pub Declares : Library → List ℕ → Type 0
Declares lib name =
    (h : List Call)
    → is_normal (lib.reply ((h ++ declare ∷ []) ++ get_rpc_reply ∷ [])) ≡ true
    → lib.bytes (h ++ declare ∷ []) ≡ some name

abbrev pub subscribe_script : List ℕ → List Call
subscribe_script name =
    queue_bind 1 name (codes "test_exchange_perso") (codes "routing_key_test")
    ∷ get_rpc_reply
    ∷ basic_consume 1 name false true false
    ∷ get_rpc_reply
    ∷ []

print-Follows : (lib : Library) (ps : List Piece) → Follows lib [] tt (print ps)
print-Follows lib ps = record { ends = λ l. finished refl (sym (append-nil l.calls)) refl }

subscribe-Follows :
    (lib : Library) (name : List ℕ) → Follows lib (subscribe_script name) tt (subscribe lib name)
unfolding subscribe
subscribe-Follows lib name =
    Follows-then lib (subscribe_script name) [] _ _
      (Follows-then lib
        (queue_bind 1 name (codes "test_exchange_perso") (codes "routing_key_test")
          ∷ get_rpc_reply
          ∷ [])
        (basic_consume 1 name false true false ∷ get_rpc_reply ∷ []) _ _
        (request-Follows lib _ (text "Binding queue") λ h. refl)
        (request-Follows lib _ (text "Consuming") λ h. refl))
      (print-Follows lib _)

copied-test :
    (name : List ℕ) (o : Option (List ℕ)) (k : List ℕ → Session (Unit {0})) (l : Log)
    → (is_some o ≡ true → (copied o name >>= k) l ≡ k name l)
      × (is_some o ≡ false
          → (l' : Log) × (l'.calls ≡ l.calls) × ((copied o name >>= k) l ≡ exited (pos 1) l'))
unfolding copied
copied-test name none k l = ((λ e. cc), λ e. (_, refl, refl))
copied-test name (some n) k l = ((λ e. refl), λ e. cc)

abbrev shown : List ℕ → List Piece
shown name = text "Queue: " ∷ str name ∷ text "\n" ∷ []

copy_name-Follows :
    (lib : Library) (name : List ℕ) (ds : List Call) (k : List ℕ → Session (Unit {0}))
    → Follows lib ds tt (k name)
    → Follows lib (bytes_malloc_dup ∷ ds) tt (copy_name lib (some name) >>= k)
unfolding copy_name
copy_name-Follows lib name ds k f =
    test-Follows lib bytes_malloc_dup ds (print (shown name) >> k name) _
      (λ l.
        copied-test name (lib.bytes (l.calls ++ bytes_malloc_dup ∷ [])) k
          (record (called bytes_malloc_dup l) { stdout = l.stdout ++ shown name }))
      (Follows-then lib [] ds _ _ (print-Follows lib (shown name)) f)

abbrev pub declare_script : List ℕ → List Call
declare_script name = declare ∷ get_rpc_reply ∷ bytes_malloc_dup ∷ subscribe_script name

-- What follows the declaration, when it has given `r`.
abbrev declared : Library → Option (List ℕ) → Session (Unit {0})
declared lib r =
    (ask lib.reply get_rpc_reply >>= λ reply. die_on_amqp_error lib reply (text "Declaring queue"))
    >> (copy_name lib r >>= λ queuename. subscribe lib queuename)

declared-Follows :
    (lib : Library) (name : List ℕ)
    → Follows lib
        (get_rpc_reply ∷ bytes_malloc_dup ∷ subscribe_script name)
        tt
        (declared lib (some name))
declared-Follows lib name =
    Follows-then lib (get_rpc_reply ∷ []) (bytes_malloc_dup ∷ subscribe_script name) _ _
      (reply-Follows lib get_rpc_reply (text "Declaring queue") λ h. refl)
      (copy_name-Follows lib name (subscribe_script name) (λ q. subscribe lib q)
        (subscribe-Follows lib name))

declare_queue-Follows :
    (lib : Library) (name : List ℕ)
    → Declares lib name
    → Follows lib (declare_script name) tt (declare_queue lib)
unfolding declare_queue
declare_queue-Follows lib name promise = record {
  ends = λ l.
      let h = l.calls ++ declare ∷ [] in
      Ends-call lib l.calls declare (get_rpc_reply ∷ bytes_malloc_dup ∷ subscribe_script name) refl
        (elim (Bool-cases (is_normal (lib.reply (h ++ get_rpc_reply ∷ [])))) [
          | inl fine ↦
              rw (promise l.calls fine) ((declared-Follows lib name).ends (called declare l))
          | inr bad ↦
              stopped
                {l = complained
                  (text "Declaring queue" ∷ complaint lib (lib.reply (h ++ get_rpc_reply ∷ [])))
                  (called get_rpc_reply (called declare l))}
                (next_bad lib h get_rpc_reply (bytes_malloc_dup ∷ subscribe_script name) bad)
                (rw
                  (die_on_amqp_error-bad lib _ (text "Declaring queue")
                    (called get_rpc_reply (called declare l)) bad)
                  refl)
        ]);
}

abbrev pub set_up_script : List ℕ → List Call
set_up_script name =
    connect_script (codes "localhost") (pos 5672)
    ++ channel_open 1 ∷ get_rpc_reply ∷ declare_script name

-- Up to its loop, amqp_consumerX connects, logs in, opens the channel, declares the queue, copies its
-- name only when the declaration has gone well, binds it and asks for its messages, in this order;
-- at the first call that goes wrong it stops and exits with 1, so that it never looks at the name
-- of a queue that was not declared. It is assumed that a declaration with a normal reply gives
-- `name`.
pub set_up-Follows :
    (lib : Library) (name : List ℕ)
    → Declares lib name
    → Follows lib (set_up_script name) tt (set_up lib)
unfolding set_up
set_up-Follows lib name promise = connect-Follows lib (codes "localhost") (pos 5672) _ _ (
    Follows-then lib (channel_open 1 ∷ get_rpc_reply ∷ []) (declare_script name) _ _
      (request-Follows lib (channel_open 1) (text "Opening channel") λ h. refl)
      (declare_queue-Follows lib name promise))

-- When `run` has returned, amqp_consumerX frees the name, closes the channel and the connection and
-- destroys it, stopping with 1 at the first of these that goes wrong, and else returns 0.
pub consumer_main-Ends :
    (fuel : ℕ) (rate : ℕ → ℕ → ℤ) (lib : Library) (l l1 l2 : Log)
    → set_up lib l ≡ ok tt l1
    → run fuel rate lib l1 ≡ ok tt l2
    → Ends lib l2.calls (bytes_free ∷ disconnect_script) (pos 0) (consumer_main fuel rate lib l)
unfolding consumer_main
consumer_main-Ends fuel rate lib l l1 l2 e f =
    rw (e, f)
      ((Follows-then lib (bytes_free ∷ []) disconnect_script _ _
          (perform-Follows lib bytes_free λ h. refl) (disconnect-Follows lib)).ends
        l2)
