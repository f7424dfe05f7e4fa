-- ===== src/Backend/Never.antt =====
-- `main` and the start of the consumption of BackLibWaterRMQ.c do not come back.
use wate_rmq.Common.{ℕ, ◌≡◌, refl, List, ℤ}
use wate_rmq.Memory.{Ptr, World, Run, malloc, Fault, null_access, out_of_bounds}
use wate_rmq.Memory
use wate_rmq.Machine.{Ending, ok, exited, fault, blocked, running, and_then}
use wate_rmq.Config.{WateRmq, init_water_rmq}
use wate_rmq.Configure.{member, configure_exception_message}
use wate_rmq.Configure.Init.{IsEmpty, init_water_rmq-IsEmpty}
use wate_rmq.Argv.{Argv, Parsed, Outcome, done, out_of_fuel, codes, process_argv}
use wate_rmq.Argv
use wate_rmq.Argv.Fields.{Field}
use wate_rmq.Session.{Call, Library}
use wate_rmq.Start.{configure_rabbit_mq}
use wate_rmq.Backend.{State, Back, lift, lifted, in_session, Placing}
use wate_rmq.Backend.Main.{
  Files, configure_queue_mmap, start_consuming_public, main_rabbitmq_pthread, Setting,
  set_up_instance, sizeof_informations, is_block, parsed, backend_main,
}

-- The run does not return.
pub data Leaves {A : Type 0} : Ending State A → Type 0 where
  exits : {n : ℤ} {s : State} → Leaves (exited n s)
  faults : {e : Fault} {s : State} → Leaves (fault e s)
  waits : {s : State} → Leaves (blocked s)
  goes_on : {s : State} → Leaves (running s)

Leaves-then :
    {A B : Type 0} (r : Ending State A) (k : A → Back B)
    → ((a : A) (t : State) → r ≡ ok a t → Leaves (k a t))
    → Leaves (and_then r k)
Leaves-then (ok a t) k h = h a t refl
Leaves-then (exited n t) k h = exits
Leaves-then (fault e t) k h = faults
Leaves-then (blocked t) k h = waits
Leaves-then (running t) k h = goes_on

-- `start_consuming_public` never returns, whatever the bridge is and whatever the library answers: at
-- the latest it is at fault where it hands the address of its own variable over as an instance.
pub start_consuming_public-Leaves :
    (rounds : ℕ) (lib : Library) (qu : List ℕ) (files : Files) (place : Placing) (i : WateRmq)
    (s : State)
    → Leaves (start_consuming_public rounds lib qu files place i s)
unfolding start_consuming_public main_rabbitmq_pthread
start_consuming_public-Leaves rounds lib qu files place i s =
    Leaves-then (in_session (configure_rabbit_mq lib s.world qu i) s) _ λ _ t _.
      Leaves-then (lift (member i.qmmap) t) _ λ q u _.
        Leaves-then (configure_queue_mmap files i (codes "queue.bridge") q.ptr_queue u) _
          λ i' v _. faults

-- The run ends without having made a call of the library since those in `cs`.
pub data Quits {A : Type 0} (cs : List Call) : Ending State A → Type 0 where
  quits : {n : ℤ} {t : State} → t.calls ≡ cs → Quits cs (exited n t)
  breaks : {e : Fault} {t : State} → t.calls ≡ cs → Quits cs (fault e t)
  loops : {t : State} → t.calls ≡ cs → Quits cs (running t)

-- What follows a call on memory, and what follows the reading of the arguments.
Quits-lifted :
    {A B : Type 0} (r : Run A) (k : A → Back B) (s : State)
    → ((a : A) (w : World) → r ≡ Memory.ok a w → Quits s.calls (k a (record s { world = w })))
    → Quits s.calls (and_then (lifted r s) k)
Quits-lifted (Memory.ok a w) k s h = h a w refl
Quits-lifted (Memory.exited n w) k s h = quits refl
Quits-lifted (Memory.fault e) k s h = breaks refl

Quits-parsed :
    {B : Type 0} (o : Outcome Parsed) (k : Parsed → Back B) (s : State)
    → ((p : Parsed) → Quits s.calls (k p s))
    → Quits s.calls (and_then (parsed o s) k)
Quits-parsed (done p) k s h = h p
Quits-parsed (Argv.exited n) k s h = quits refl
Quits-parsed (Argv.fault e) k s h = breaks refl
Quits-parsed out_of_fuel k s h = loops refl

Quits-first :
    {A B : Type 0} {cs : List Call} {r : Ending State A} (k : A → Back B)
    → Quits cs r
    → Quits cs (and_then r k)
Quits-first k (quits e) = quits e
Quits-first k (breaks e) = breaks e
Quits-first k (loops e) = loops e

-- The setters on an instance that has no place for messages.
set_up_instance-Quits :
    (lib : Library) (setting : Setting) (p : Field → Ptr) (i : WateRmq) (s : State)
    → IsEmpty i
    → Quits s.calls (set_up_instance lib setting p i s)
unfolding set_up_instance configure_exception_message member
set_up_instance-Quits lib setting p i s e = rw e.no_messages (breaks refl)

-- `main` never returns, and never makes a call of the AMQP library: for every command line, every
-- answer of the system and the library, every place of its arrays and every state of memory, it
-- exits, is at fault, or goes on for ever with its arguments, before the first call.
pub backend_main-Quits :
    (fuel rounds : ℕ) (lib : Library) (qu : List ℕ) (files : Files) (place : Placing)
    (setting : Setting) (argv : Argv) (s : State)
    → Quits s.calls (backend_main fuel rounds lib qu files place setting argv s)
unfolding backend_main
backend_main-Quits fuel rounds lib qu files place setting argv s =
    Quits-lifted (malloc sizeof_informations s.world) _ s λ struct w _.
      let t = record s { world = w } in
      Quits-parsed (process_argv fuel (is_block struct) argv) _ t λ info.
        let (p, v) = setting.arrays info.info w in
        let started = init_water_rmq setting.sem_open setting.fresh setting.dot in
        Quits-lifted (started v) _ (record s { world = v })
          λ i x e. Quits-first _ (
            set_up_instance-Quits lib setting p i (record s { world = x })
              (init_water_rmq-IsEmpty setting.sem_open setting.fresh setting.dot v e))
