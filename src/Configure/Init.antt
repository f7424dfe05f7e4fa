-- ===== src/Configure/Init.antt =====
-- What `_init_WateRMQ_public` of BackLibWaterRMQ.c gives: it passes NULL where the functions that
-- create the structs want strings.
use wate_rmq.Common.{
  ℕ, suc, ◌≡◌, refl, subst, true, false, List, [], ◌∷◌, ◌++◌, Option, none, ℤ, pos, negsuc, inl,
  inr, Bool-cases,
}
use wate_rmq.Memory.{
  Ptr, null, World, Run, ok, exited, fault, null_access, Cmd, and_then, granted, denied, strlen,
  read_string, load, text,
}
use wate_rmq.Memory.Frame.{malloc-granted, malloc-denied}
use wate_rmq.Queue.{create_consuming_queue}
use wate_rmq.Config.{
  Handle, Exchange, Connection, Login, ExceptionHandling, SemaphoreMmap, WateRmq, Fresh,
  with_string, with_struct, new_string, create_exchange, create_connection, create_login,
  create_exception_handling, create_semaphore_mmap, create_instance, init_water_rmq,
}
use wate_rmq.Configure.{member, configure_exchange, configure_exception_message}

pub bind_ok :
    {A B : Type 0} (r : Run A) (f : A → Cmd B) {b : B} {v : World}
    → and_then r f ≡ ok b v
    → (a : A) × (u : World) × (r ≡ ok a u) × (f a u ≡ ok b v)
bind_ok (ok a u) f e = (a, u, refl, e)
bind_ok (exited n w) f e = cc
bind_ok (fault x) f e = cc

ok_value : {A : Type 0} {a b : A} {w v : World} → ok a w ≡ ok b v → a ≡ b
ok_value e = cc

-- A struct whose first string is NULL: the length of NULL is asked for as soon as there is memory.
null_struct-fault :
    {A : Type 0} (size : ℕ) (k : Ptr → Cmd (Option A)) (w : World)
    → w.grants w.next size ≡ true
    → with_struct size (with_string null k) w ≡ fault null_access
unfolding with_struct with_string new_string strlen read_string load
null_struct-fault size k w h = rw (malloc-granted size w h) refl

null_struct-denied :
    {A : Type 0} (size : ℕ) (k : Ptr → Cmd (Option A)) (w : World)
    → w.grants w.next size ≡ false
    → with_struct size (with_string null k) w ≡ ok none (denied w)
unfolding with_struct
null_struct-denied size k w h = rw (malloc-denied size w h) refl

null_struct-none :
    {A : Type 0} (size : ℕ) (k : Ptr → Cmd (Option A)) (w : World) {r : Option A} {v : World}
    → with_struct size (with_string null k) w ≡ ok r v
    → r ≡ none
null_struct-none size k w e = elim (Bool-cases (w.grants w.next size)) [
  | inl yes' ↦ cc (null_struct-fault size k w yes')
  | inr no' ↦ cc (null_struct-denied size k w no')
]

exchange_none :
    (w : World) {r : Option Exchange} {v : World}
    → create_exchange null null null w ≡ ok r v
    → r ≡ none
unfolding create_exchange
exchange_none w e = null_struct-none 24 _ w e

connection_none :
    (raw : Connection) (port : ℤ) (w : World) {r : Option Connection} {v : World}
    → create_connection raw null port w ≡ ok r v
    → r ≡ none
unfolding create_connection
connection_none raw port w e = null_struct-none 24 _ w e

login_none :
    (raw : Login) (a b c d : ℤ) (w : World) {r : Option Login} {v : World}
    → create_login raw null a b c d null null w ≡ ok r v
    → r ≡ none
unfolding create_login
login_none raw a b c d w e = null_struct-none 48 _ w e

messages_none :
    (w : World) {r : Option ExceptionHandling} {v : World}
    → create_exception_handling null null null null null null null null w ≡ ok r v
    → r ≡ none
unfolding create_exception_handling
messages_none w e = null_struct-none 64 _ w e

semaphore_none :
    (sem_open : List ℕ → Handle) (raw : SemaphoreMmap) (w : World) {r : Option SemaphoreMmap}
    {v : World}
    → create_semaphore_mmap sem_open raw null w ≡ ok r v
    → r ≡ none
unfolding create_semaphore_mmap
semaphore_none sem_open raw w e = null_struct-none 32 _ w e

-- The instance that is returned, if one is.
pub record IsEmpty (i : WateRmq) : Type 0 where
  pub no_exchange : i.conf_exchange ≡ none
  pub no_connection : i.conf_conn ≡ none
  pub no_login : i.conf_login ≡ none
  pub no_messages : i.except ≡ none
  pub no_bridge : i.qmmap ≡ none
  pub no_semaphore : i.semap ≡ none

pub init_water_rmq-IsEmpty :
    (sem_open : List ℕ → Handle) (fresh : Fresh) (dot : Ptr) (w : World) {i : WateRmq} {v : World}
    → init_water_rmq sem_open fresh dot w ≡ ok i v
    → IsEmpty i
unfolding init_water_rmq
init_water_rmq-IsEmpty sem_open fresh dot w {i} {v} e =
    let (_, w1, _, e1) = bind_ok (create_instance w) _ e in
    let (a, w2, ha, e2) = bind_ok (create_exchange null null null w1) _ e1 in
    let (b, w3, hb, e3) = bind_ok (create_connection fresh.connection null (pos 0) w2) _ e2 in
    let (c, w4, hc, e4) =
      bind_ok (create_login fresh.login null (pos 0) (pos 0) (pos 0) (pos 0) null null w3) _ e3 in
    let (d, w5, hd, e5) =
      bind_ok (create_exception_handling null null null null null null null null w4) _ e4 in
    let (q, w6, hq, e6) = bind_ok (create_consuming_queue fresh.queue dot w5) _ e5 in
    let (s, w7, hs, e7) = bind_ok (create_semaphore_mmap sem_open fresh.semaphore null w6) _ e6 in
    subst IsEmpty
      {x = record {
        conf_exchange = a;
        conf_conn = b;
        conf_login = c;
        except = d;
        consuming_queue = q;
        qmmap = none;
        semap = s;
      }}
      {y = i} (ok_value e7)
      (record {
        no_exchange = exchange_none w1 ha;
        no_connection = connection_none _ _ w2 hb;
        no_login = login_none _ _ _ _ _ w3 hc;
        no_messages = messages_none w4 hd;
        no_bridge = refl;
        no_semaphore = semaphore_none sem_open fresh.semaphore w6 hs;
      })

member_missing :
    {A B : Type 0} (m : Option A) (k : A → Cmd B) (w : World)
    → m ≡ none
    → (and_then (member m w) k) ≡ fault null_access
unfolding member
member_missing m k w e = rw e refl

-- `_init_WateRMQ_public` exits when `malloc` refuses the instance, and otherwise asks for the length
-- of NULL as soon as `malloc` grants the first struct. The instance that it returns, when it
-- returns, has no configuration, no bridge and no semaphore, and configuring its exchange or its
-- messages is an access through NULL, whatever the strings.
pub init_water_rmq-Ends :
    (sem_open : List ℕ → Handle) (fresh : Fresh) (dot : Ptr) (w : World)
    → (w.grants w.next 56 ≡ false
        → (v : World) × (init_water_rmq sem_open fresh dot w ≡ exited (negsuc 0) v))
      × (w.grants w.next 56 ≡ true
          → w.grants (suc w.next) 24 ≡ true
          → init_water_rmq sem_open fresh dot w ≡ fault null_access)
      × ((i : WateRmq) (v : World)
          → init_water_rmq sem_open fresh dot w ≡ ok i v
          → ((u : World) (a b c : Ptr) → configure_exchange i a b c u ≡ fault null_access)
            × ((u : World) (a b c d e f g h : Ptr)
                → configure_exception_message i a b c d e f g h u ≡ fault null_access)
            × IsEmpty i)
unfolding init_water_rmq create_instance create_exchange configure_exchange
    configure_exception_message
init_water_rmq-Ends sem_open fresh dot w = (
  λ h. (
    record (denied w) {
      stderr =
          w.stderr ++ text "Unable to allocate memory : WateRMQ cannot be created" ∷ text "\n" ∷ [];
    },
    rw (malloc-denied 56 w h) refl,
  ),
  λ h h'. rw (malloc-granted 56 w h, null_struct-fault 24 _ (granted 56 w) h') refl,
  λ i v e.
      let empty = init_water_rmq-IsEmpty sem_open fresh dot w e in
      (
        (λ u a b c. member_missing _ _ u empty.no_exchange),
        (λ u a b c d e' f g h. member_missing _ _ u empty.no_messages),
        empty,
      ),
)
