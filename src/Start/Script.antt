-- ===== src/Start/Script.antt =====
-- The calls of `configurationRabbitMQ_private`, and what becomes of `start_consuming_public`.
use wate_rmq.Common.{
  ℕ, ◌≡◌, refl, sym, ap, Bool, true, false, List, [], ◌∷◌, ◌++◌, append-nil, Option, none, some,
  pos,
}
use wate_rmq.Memory.{Ptr, World, string_at, Piece, str}
use wate_rmq.Config.{WateRmq, Exchange, ExceptionHandling, Login}
use wate_rmq.Session.{
  Call, channel_open, get_rpc_reply, bytes_malloc_dup, queue_bind, basic_consume, Reply, normal,
  no_reply, library_exception, server_exception, Library, Log, ok, exited, Session, called, pure,
  ask, print, ◌>>=◌, ◌>>◌, complaint,
}
use wate_rmq.Session.Script.{
  is_normal, is_some, Follows, finished, Follows-then, perform-Follows, pure-Follows, test-Follows,
  complained,
}
use wate_rmq.Session.Checks.{die_on_amqp_error-bad}
use wate_rmq.Start.{
  need, found, text_of, die_with, check_reply, declare_call, bind_and_consume, with_copy,
}

pub need-Follows :
    {A B : Type 0} (lib : Library) (cs : List Call) {o : Option A} {a : A} {b : B}
    (k : A → Session B)
    → o ≡ some a
    → Follows lib cs b (k a)
    → Follows lib cs b (need o >>= k)
unfolding need
need-Follows lib cs k e f = rw e f

text_of-some : (w : World) (p : Ptr) {s : List ℕ} → string_at w p ≡ some s → text_of w p ≡ pure s
unfolding text_of found
text_of-some w p e = ap found e

text-Follows :
    {B : Type 0} (lib : Library) (w : World) (cs : List Call) (p : Ptr) {s : List ℕ} {b : B}
    (k : List ℕ → Session B)
    → string_at w p ≡ some s
    → Follows lib cs b (k s)
    → Follows lib cs b (text_of w p >>= k)
text-Follows lib w cs p k e f = rw (text_of-some w p e) f

pub die_with-normal :
    (lib : Library) (w : World) (r : Reply) (p : Ptr) (l : Log)
    → is_normal r ≡ true
    → die_with lib w r p l ≡ ok tt l
unfolding die_with
die_with-normal lib w normal p l e = refl
die_with-normal lib w no_reply p l e = cc
die_with-normal lib w (library_exception x) p l e = cc
die_with-normal lib w (server_exception m) p l e = cc

pub die_with-bad :
    (lib : Library) (w : World) (r : Reply) (p : Ptr) {s : List ℕ} (l : Log)
    → string_at w p ≡ some s
    → is_normal r ≡ false
    → die_with lib w r p l ≡ exited (pos 1) (complained (str s ∷ complaint lib r) l)
unfolding die_with
die_with-bad lib w normal p l e h = cc
die_with-bad lib w no_reply p l e h =
    rw (text_of-some w p e) (die_on_amqp_error-bad lib no_reply _ l refl)
die_with-bad lib w (library_exception x) p l e h =
    rw (text_of-some w p e) (die_on_amqp_error-bad lib (library_exception x) _ l refl)
die_with-bad lib w (server_exception m) p l e h =
    rw (text_of-some w p e) (die_on_amqp_error-bad lib (server_exception m) _ l refl)

pub check_reply-Follows :
    (lib : Library) (w : World) (p : Ptr) {s : List ℕ}
    → string_at w p ≡ some s
    → Follows lib (get_rpc_reply ∷ []) tt (check_reply lib w p)
unfolding check_reply
check_reply-Follows lib w p {s} e =
    test-Follows lib get_rpc_reply [] (pure tt) _
      (λ l. (
        λ fine. die_with-normal lib w _ p (called get_rpc_reply l) fine,
        λ bad. (_, refl, die_with-bad lib w _ p {s = s} (called get_rpc_reply l) e bad),
      ))
      (pure-Follows lib tt)

-- An instance with a login, an exchange and messages that can be read.
pub record IsConfigured (w : World) (i : WateRmq) (exchange key : List ℕ) : Type 0 where
  pub login : Login
  pub c : Exchange
  pub x : ExceptionHandling
  pub has_login : i.conf_login ≡ some login
  pub has_exchange : i.conf_exchange ≡ some c
  pub has_messages : i.except ≡ some x
  pub exchange_at : string_at w c.exchange ≡ some exchange
  pub key_at : string_at w c.binding_key ≡ some key
  pub opening : (s : List ℕ) × (string_at w x.opening_channel_message ≡ some s)
  pub declaring : (s : List ℕ) × (string_at w x.queue_message ≡ some s)
  pub binding : (s : List ℕ) × (string_at w x.binding_message ≡ some s)
  pub consuming : (s : List ℕ) × (string_at w x.consuming_message ≡ some s)

-- What the documentation of `amqp_queue_declare` promises of a normal reply.
abbrev pub Declares : Library → List ℕ → List ℕ → Type 0
Declares lib qu name =
    (h : List Call)
    → is_normal (lib.reply ((h ++ declare_call qu ∷ []) ++ get_rpc_reply ∷ [])) ≡ true
    → lib.bytes (h ++ declare_call qu ∷ []) ≡ some name

-- The library has memory for the copy of a name.
abbrev pub HasMemory : Library → Type 0
HasMemory lib = (h : List Call) → is_some (lib.bytes (h ++ bytes_malloc_dup ∷ [])) ≡ true

abbrev pub consume_script : List ℕ → List ℕ → List ℕ → List Call
consume_script exchange key name =
    queue_bind 1 name exchange key
    ∷ get_rpc_reply
    ∷ basic_consume 1 name false true false
    ∷ get_rpc_reply
    ∷ []

abbrev pub rabbit_script : List ℕ → List ℕ → List ℕ → List ℕ → List Call
rabbit_script qu exchange key name =
    channel_open 1
    ∷ get_rpc_reply
    ∷ declare_call qu
    ∷ get_rpc_reply
    ∷ bytes_malloc_dup
    ∷ consume_script exchange key name

print-Follows : (lib : Library) (ps : List Piece) → Follows lib [] tt (print ps)
print-Follows lib ps = record { ends = λ l. finished refl (sym (append-nil l.calls)) refl }

copy_given :
    (o : Option (List ℕ)) (name : List ℕ) (k : List ℕ → Session (Unit {0})) (l : Log)
    → is_some o ≡ true
    → with_copy o name k l ≡ k name l
unfolding with_copy
copy_given none name k l e = cc
copy_given (some c) name k l e = refl

not_both : (b : Bool) → b ≡ true → b ≡ false → ⊥
not_both b e f = cc

module _ (lib : Library) (w : World) (i : WateRmq) (exchange key : List ℕ)
    (conf : IsConfigured w i exchange key) where
  bind_and_consume-Follows :
      (name : List ℕ)
      → Follows lib
          (consume_script exchange key name)
          tt
          (bind_and_consume lib w conf.c conf.x name)
  unfolding bind_and_consume
  bind_and_consume-Follows name = text-Follows lib w _ conf.c.exchange _ conf.exchange_at (
      text-Follows lib w _ conf.c.binding_key _ conf.key_at (
        Follows-then lib (consume_script exchange key name) [] _ _
          (Follows-then lib
            (queue_bind 1 name exchange key
              ∷ get_rpc_reply
              ∷ basic_consume 1 name false true false
              ∷ [])
            (get_rpc_reply ∷ []) _ _
            (Follows-then lib (queue_bind 1 name exchange key ∷ get_rpc_reply ∷ [])
              (basic_consume 1 name false true false ∷ []) _ _
              (Follows-then lib (queue_bind 1 name exchange key ∷ []) (get_rpc_reply ∷ []) _ _
                (perform-Follows lib _ λ h. refl)
                (check_reply-Follows lib w conf.x.binding_message conf.binding.1))
              (perform-Follows lib _ λ h. refl))
            (check_reply-Follows lib w conf.x.consuming_message conf.consuming.1))
          (print-Follows lib _)))

  copy-Follows :
      HasMemory lib
      → (name : List ℕ) (ds : List Call) (k : List ℕ → Session (Unit {0}))
      → Follows lib ds tt (k name)
      → Follows lib
          (bytes_malloc_dup ∷ ds)
          tt
          (ask lib.bytes bytes_malloc_dup >>= λ copy. with_copy copy name k)
  copy-Follows memory name ds k f =
      test-Follows lib bytes_malloc_dup ds (k name) _
        (λ l. (
          λ fine.
              copy_given (lib.bytes (l.calls ++ bytes_malloc_dup ∷ [])) name k
                (called bytes_malloc_dup l) fine,
          λ bad. absurd (not_both _ (memory l.calls) bad),
        ))
        f

  -- What follows the declaration, when it has given `r`.
  abbrev pub declared : Option (List ℕ) → Session (Unit {0})
  declared r =
      check_reply lib w conf.x.queue_message
      >> (need r >>= λ name. ask lib.bytes bytes_malloc_dup >>= λ copy.
          with_copy copy name
            λ queue. need i.conf_exchange >>= λ c. bind_and_consume lib w c conf.x queue)

  pub declared-Follows :
      HasMemory lib
      → (name : List ℕ)
      → Follows lib
          (get_rpc_reply ∷ bytes_malloc_dup ∷ consume_script exchange key name)
          tt
          (declared (some name))
  declared-Follows memory name =
      Follows-then lib (get_rpc_reply ∷ []) (bytes_malloc_dup ∷ consume_script exchange key name) _
        _ (check_reply-Follows lib w conf.x.queue_message conf.declaring.1)
        (need-Follows lib (bytes_malloc_dup ∷ consume_script exchange key name) _ refl (
          copy-Follows memory name (consume_script exchange key name) _ (
            need-Follows lib (consume_script exchange key name) _ conf.has_exchange
              (bind_and_consume-Follows name))))
