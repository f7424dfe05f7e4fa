-- ===== src/Listener/Silent.antt =====
-- The program of FrontendCPP/WateRMQCPP.cpp when no other process has made its semaphore.
use wate_rmq.Common.{ℕ, suc, ◌≡◌, refl, ap, ◌∙◌, List, [], ◌∷◌, ◌++◌, append_assoc, none, pos, true}
use wate_rmq.Memory.{Piece, text}
use wate_rmq.Process.{State, System, thread_started, thread_detached, Outcome, Proc, print}
use wate_rmq.Machine.{exited, blocked, and_then, ◌>>=◌, ◌>>◌}
use wate_rmq.Argv.{codes}
use wate_rmq.Front.{WateRmq, consuming_message, start}
use wate_rmq.Front.Command.{set_exception_message, declare_exchange, connection, login}
use wate_rmq.Front.Opens.{Opens, Opened, Refuses, first_value, semaphore_name, new_water_rmq-Opens}
use wate_rmq.Front.Reads.{IsOpen, read_message-blocked}
use wate_rmq.Listener.{Json, console, file, configured, listen, listener_main}

abbrev pub starting : List Piece
starting = text "=== WateRMQ Consumer Starting ===" ∷ text "\n" ∷ []

abbrev pub listening : List Piece
listening = text "Listening for messages... Press Ctrl+C to stop" ∷ text "\n" ∷ []

abbrev pub begun : State → State
begun s = record s { world = record s.world { stdout = s.world.stdout ++ starting } }

-- The state at the loop.
abbrev pub heard : State → State
heard t = record t {
  world = record t.world { stdout = t.world.stdout ++ listening };
  events = (t.events ++ thread_started ∷ []) ++ thread_detached ∷ [];
}

abbrev pub the_name : List ℕ
the_name = codes "watemq_shm"

-- The program has exited with a complaint about a call of the system that failed, or waits for the semaphore with nothing but its two lines printed.
pub data Waits (sys : System) (s : State) : Outcome (Unit {0}) → Type 0 where
  exits : {t : State} → Refuses sys the_name (begun s) t → Waits sys s (exited (pos 1) t)
  waits :
      {t : State}
      → t.world.stdout ≡ s.world.stdout ++ (starting ++ listening)
      → Waits sys s (blocked t)

module _ (sys : System) (json : Json) (rounds : ℕ) (s : State) where
  abbrev pub rest : WateRmq → Proc (Unit {0})
  rest rabbit = start (configured rabbit) >>= λ rabbit.
      print listening
      >> listen json (console ∷ file (codes "notifications.log") ∷ []) rabbit (suc rounds) 0

  unfoldable pub IsOpen-started :
      (o : WateRmq) (t u : State)
      → u.is_open ≡ t.is_open
      → IsOpen o t
      → IsOpen (record (configured o) { running = true }) u
  unfolding set_exception_message declare_exchange connection login
  IsOpen-started o t u e r = record {
    c = r.c;
    handle = r.handle;
    has_semaphore = r.has_semaphore;
    has_handle = r.has_handle;
    has_queue = r.has_queue;
    usable = ap (λ f. f r.handle) e ∙ r.usable;
  }

  rest-Waits :
      (o : WateRmq) (t : State)
      → sys.semaphore_at (semaphore_name the_name) ≡ none
      → Opened sys the_name (begun s) o t
      → Waits sys s (rest o t)
  unfolding start listen consuming_message IsOpen-started
  rest-Waits o t e opened =
      let r = opened.is_open in
      rw
        (read_message-blocked (record (configured o) { running = true }) (heard t)
          (IsOpen-started o t (heard t) refl r)
          (opened.value_at ∙ ap (λ a. first_value a (begun s)) e))
        (waits {t = heard t} (
          ap (λ w. w.stdout ++ listening) opened.same_world
          ∙ append_assoc s.world.stdout starting listening))

  after :
      {r : Outcome WateRmq}
      → sys.semaphore_at (semaphore_name the_name) ≡ none
      → Opens sys the_name (begun s) r
      → Waits sys s (and_then r rest)
  after e (Opens.refuses r) = exits r
  after e (Opens.opens {o} {t} opened) = rest-Waits o t e opened

  -- Started with a semaphore that no other process has made, the front end exits at a call of
  -- the system that fails, or waits before its first message: it makes the semaphore with 0, and posts only after a wait of its own.
  pub listener_main-Waits :
      sys.semaphore_at (semaphore_name the_name) ≡ none
      → Waits sys s (listener_main sys json (suc rounds) s)
  unfolding listener_main
  listener_main-Waits e = after e (new_water_rmq-Opens sys the_name (begun s))
