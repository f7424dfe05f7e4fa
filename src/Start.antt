-- ===== src/Start.antt =====
-- How BackLibWaterRMQ.c sets up its consumption: `configurationRabbitMQ_private` and
-- `start_consuming_public` up to the bridge. The strings of the instance are read from a memory that
-- does not change meanwhile; the name `qu` of the queue, which the source does not declare, is a
-- parameter.
pub mod Script
pub mod Rabbit
mod Tests
use wate_rmq.Common.{ℕ, Bool, true, false, List, [], ◌∷◌, Option, none, some, ℤ, pos}
use wate_rmq.Memory.{Ptr, World, string_at, text, str, null_access, unterminated}
use wate_rmq.Config.{WateRmq, Exchange, ExceptionHandling, Login, QueueMmap}
use wate_rmq.Session.{
  Call, channel_open, get_rpc_reply, queue_declare, bytes_malloc_dup, queue_bind, basic_consume,
  Reply, normal, no_reply, library_exception, server_exception, Library, Session, fault, pure,
  ◌>>=◌, ◌>>◌, print, print_error, perform, ask, die_on_amqp_error,
}

-- What a member of the instance points to.
unfoldable pub need : {A : Type 0} → Option A → Session A
need none = λ l. fault null_access
need (some a) = pure a

-- The string at `p`, if there is one.
unfoldable pub found : Option (List ℕ) → Session (List ℕ)
found none = λ l. fault unterminated
found (some s) = pure s

unfoldable pub text_of : World → Ptr → Session (List ℕ)
text_of w p = found (string_at w p)

-- `die_on_amqp_error` with a message of the instance, which is read only for a complaint.
unfoldable pub die_with : Library → World → Reply → Ptr → Session (Unit {0})
die_with lib w normal p = pure tt
die_with lib w no_reply p = text_of w p >>= λ s. die_on_amqp_error lib no_reply (str s)
die_with lib w (library_exception e) p =
    text_of w p >>= λ s. die_on_amqp_error lib (library_exception e) (str s)
die_with lib w (server_exception m) p =
    text_of w p >>= λ s. die_on_amqp_error lib (server_exception m) (str s)

-- `amqp_get_rpc_reply`, and the test of the reply.
unfoldable pub check_reply : Library → World → Ptr → Session (Unit {0})
check_reply lib w p = ask lib.reply get_rpc_reply >>= λ r. die_with lib w r p

abbrev pub declare_call : List ℕ → Call
declare_call qu = queue_declare 1 qu false true false false

-- The binding and the request for messages.
unfoldable pub bind_and_consume :
    Library → World → Exchange → ExceptionHandling → List ℕ → Session (Unit {0})
bind_and_consume lib w c x queue = text_of w c.exchange >>= λ exchange.
    text_of w c.binding_key >>= λ key.
    perform (queue_bind 1 queue exchange key)
    >> check_reply lib w x.binding_message
    >> perform (basic_consume 1 queue false true false)
    >> check_reply lib w x.consuming_message
    >> print (text "-+-+-+-++-+-Ga+++--+laa++-++-ctiiiiik+-+-+R++M++Q-+-+-+-+++--conf-+-+\n" ∷ [])

-- The name of the declared queue, copied: without memory for it the function returns.
unfoldable pub with_copy :
    Option (List ℕ) → List ℕ → (List ℕ → Session (Unit {0})) → Session (Unit {0})
with_copy none name continue = print_error (text "Out of memory while copying queue name" ∷ [])
with_copy (some copy) name continue = continue name

-- `configurationRabbitMQ_private`.
unfoldable pub configure_rabbit_mq : Library → World → List ℕ → WateRmq → Session (Unit {0})
configure_rabbit_mq lib w qu i = need i.conf_login >>= λ login.
    perform (channel_open 1)
    >> (need i.except >>= λ x.
        check_reply lib w x.opening_channel_message
        >> (ask lib.bytes (declare_call qu) >>= λ r.
            check_reply lib w x.queue_message
            >> (need r >>= λ name. ask lib.bytes bytes_malloc_dup >>= λ copy.
                with_copy copy name
                  λ queue. need i.conf_exchange >>= λ c. bind_and_consume lib w c x queue)))

-- `start_consuming_public`: `bridge` is what it does with the queue of the bridge, which it takes
-- from the instance.
unfoldable pub start_consuming :
    Library → World → List ℕ → (QueueMmap → Session (Unit {0})) → WateRmq → Session (Unit {0})
start_consuming lib w qu bridge i =
    configure_rabbit_mq lib w qu i >> (need i.qmmap >>= λ q. bridge q)
