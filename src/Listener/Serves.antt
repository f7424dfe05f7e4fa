-- ===== src/Listener/Serves.antt =====
-- The program of FrontendCPP/WateRMQCPP.cpp when another process has raised its semaphore.
use wate_rmq.Common.{
  ℕ, suc, ◌^◌, ◌<◌, ◌≡◌, refl, sym, arith, ap, subst, ◌∙◌, List, [], ◌∷◌, ◌++◌, append_assoc, some,
  true, pos, length,
}
use wate_rmq.Memory.{World}
use wate_rmq.Process.{State, System, Queue, Outcome}
use wate_rmq.Machine.{exited, running, and_then}
use wate_rmq.Argv.{codes}
use wate_rmq.Front.{WateRmq, start, sizeof_queue}
use wate_rmq.Front.Opening.{reset}
use wate_rmq.Front.Opens.{Opens, Opened, Refuses, first_value, semaphore_name, new_water_rmq-Opens}
use wate_rmq.Front.Locked.{IsWell}
use wate_rmq.Listener.{Json, Notifier, console, file, configured, listener_main}
use wate_rmq.Listener.Journal.{journal, complaints}
use wate_rmq.Listener.Hears.{Drains, listen-Hears, IsWell-said}
use wate_rmq.Listener.Silent.{starting, listening, begun, the_name, heard, rest, IsOpen-started}

abbrev pub notifiers : List Notifier
notifiers = console ∷ file (codes "notifications.log") ∷ []

-- The program has exited with a complaint about a call of the system that failed; or it goes on after so many rounds,
-- with `messages` taken from the queue that it found, and has printed its two lines and the journal.
pub data Serves (sys : System) (json : Json) (n : ℕ) (s : State) : Outcome (Unit {0}) → Type 0 where
  exits : {t : State} → Refuses sys the_name (begun s) t → Serves sys json n s (exited (pos 1) t)
  serves :
      {after : State} {fd : ℕ} {q : Queue} {w : World} (messages : List (List ℕ))
      → length messages ≡ n
      → sys.shm_open the_name ≡ some fd
      → sys.ftruncate fd sizeof_queue ≡ true
      → sys.mmap fd sizeof_queue ≡ some q
      → w.block ≡ s.world.block
      → Drains w (reset (sys.st_size fd) q) messages after.world after.queue
      → after.world.stdout
        ≡ s.world.stdout ++ ((starting ++ listening) ++ journal json notifiers 0 messages)
      → after.world.stderr ≡ s.world.stderr ++ complaints json messages
      → Serves sys json n s (running after)

-- What the program finds mapped is a well-formed queue.
abbrev pub FindsQueue : System → State → Type 0
FindsQueue sys s =
    (fd : ℕ) (q : Queue)
    → sys.shm_open the_name ≡ some fd
    → sys.mmap fd sizeof_queue ≡ some q
    → IsWell s.world (reset (sys.st_size fd) q)

module _ (sys : System) (json : Json) (rounds : ℕ) (s : State) (h value : ℕ)
    (in_use : sys.semaphore_at (semaphore_name the_name) ≡ some h) (raised : s.value h ≡ suc value)
    (finds : FindsQueue sys s) (few : suc rounds < 2 ^ 31) where
  mapped-IsWell :
      (o : WateRmq) (t : State) → Opened sys the_name (begun s) o t → IsWell t.world t.queue
  mapped-IsWell o t opened =
      subst (λ q. IsWell t.world q) (sym opened.reset_queue)
        (subst (λ w. IsWell w (reset (sys.st_size opened.fd) opened.mapped)) (sym opened.same_world)
          (IsWell-said json notifiers o (s.world.stdout ++ starting) s.world.stderr
            (finds opened.fd opened.mapped opened.at_fd opened.at_map)))

  rest-Serves :
      (o : WateRmq) (t : State)
      → Opened sys the_name (begun s) o t
      → Serves sys json (suc rounds) s (rest sys json rounds s o t)
  unfolding start IsOpen-started
  rest-Serves o t opened =
      let r = opened.is_open in
      let rabbit = record (configured o) { running = true } in
      let u = heard t in
      let hears =
        listen-Hears json notifiers rabbit (suc rounds) 0 u value
          (IsOpen-started sys json rounds s o t u refl r)
          (opened.value_at ∙ ap (λ a. first_value a (begun s)) in_use ∙ raised)
          (IsWell-said json notifiers rabbit (t.world.stdout ++ listening) t.world.stderr
            (mapped-IsWell o t opened))
          (omega (arith, few)) in
      let lines = journal json notifiers 0 hears.messages in
      subst (Serves sys json (suc rounds) s) (sym hears.result) (
        serves {w = u.world} hears.messages hears.rounds opened.at_fd opened.sized opened.at_map
          (ap (λ w. w.block) opened.same_world)
          (subst (λ q. Drains u.world q hears.messages hears.after.world hears.after.queue)
            opened.reset_queue hears.drained)
          (hears.stdout
            ∙ ap (λ w. (w.stdout ++ listening) ++ lines) opened.same_world
            ∙ ap (λ x. x ++ lines) (append_assoc s.world.stdout starting listening)
            ∙ append_assoc s.world.stdout (starting ++ listening) lines)
          (hears.stderr ∙ ap (λ w. w.stderr ++ complaints json hears.messages) opened.same_world))

  after :
      {r : Outcome WateRmq}
      → Opens sys the_name (begun s) r
      → Serves sys json (suc rounds) s (and_then r (rest sys json rounds s))
  after (Opens.refuses r) = exits r
  after (Opens.opens {o} {t} opened) = rest-Serves o t opened

  -- Started with a semaphore that another process has raised, and with a well-formed queue in the
  -- shared memory, the front end exits at a call of the system that fails, or announces, in every
  -- round, what the queue gives, with the lines of the messages numbered and in their order.
  pub listener_main-Serves : Serves sys json (suc rounds) s (listener_main sys json (suc rounds) s)
  unfolding listener_main
  listener_main-Serves = after (new_water_rmq-Opens sys the_name (begun s))
