-- ===== src/Front/Opens.antt =====
-- What the constructor of FrontendCPP/WateRMQ.cpp comes to for every answer of the system.
use wate_rmq.Common.{
  ℕ, ◌≡◌, refl, arith, List, [], ◌∷◌, ◌++◌, Option, none, some, true, false, pos, String, Bool,
}
use wate_rmq.Memory.{text, update}
use wate_rmq.Process.{Queue, State, System, Outcome, closed, Proc}
use wate_rmq.Machine.{ok, exited, pure, and_then, ◌>>=◌}
use wate_rmq.Semaphores.{sem_create, made, new_named}
use wate_rmq.Argv.{codes}
use wate_rmq.Front.{sizeof_queue, WateRmq}
use wate_rmq.Front.Opening.{reset, map_queue, size_and_map, open_queue, init, new_water_rmq}
use wate_rmq.Front.Reads.{IsOpen}

abbrev pub complained : String → State → State
complained call s = record s {
  world = record s.world { stderr = s.world.stderr ++ text call ∷ [] };
}

abbrev pub after_close : ℕ → State → State
after_close fd s = record s { events = s.events ++ closed fd ∷ [] }

abbrev pub semaphore_name : List ℕ → List ℕ
semaphore_name filename = filename ++ codes "_sem"

-- With the queue mapped and the descriptor closed.
abbrev pub mapped_state : System → ℕ → Queue → State → State
mapped_state sys fd q s = after_close fd (record s { queue = reset (sys.st_size fd) q })

-- The value of the semaphore when it has been opened: that of the one in use, or 0.
abbrev pub first_value : Option ℕ → State → ℕ
first_value none s = 0
first_value (some h) s = s.value h

-- The object and the state that the constructor leaves.
pub record Opened (sys : System) (filename : List ℕ) (s : State) (o : WateRmq) (t : State)
    : Type 0 where
  pub fd : ℕ
  pub mapped : Queue
  pub at_fd : sys.shm_open filename ≡ some fd
  pub sized : sys.ftruncate fd sizeof_queue ≡ true
  pub at_map : sys.mmap fd sizeof_queue ≡ some mapped
  pub is_open : IsOpen o t
  pub named : is_open.c.is_named ≡ true
  pub reset_queue : t.queue ≡ reset (sys.st_size fd) mapped
  pub value_at : t.value is_open.handle ≡ first_value (sys.semaphore_at (semaphore_name filename)) s
  pub same_world : t.world ≡ s.world
  pub descriptor_closed : t.events ≡ s.events ++ closed fd ∷ []

-- A call of the system has failed after those before it have gone well: with the complaint about it,
-- and the descriptor closed if there was one.
pub data Refuses (sys : System) (filename : List ℕ) (s : State) : State → Type 0 where
  no_memory : sys.shm_open filename ≡ none → Refuses sys filename s (complained "shm_open" s)
  no_size :
      {fd : ℕ}
      → sys.shm_open filename ≡ some fd
      → sys.ftruncate fd sizeof_queue ≡ false
      → Refuses sys filename s (after_close fd (complained "ftruncate" s))
  no_map :
      {fd : ℕ}
      → sys.shm_open filename ≡ some fd
      → sys.ftruncate fd sizeof_queue ≡ true
      → sys.mmap fd sizeof_queue ≡ none
      → Refuses sys filename s (after_close fd (complained "mmap" s))
  no_semaphore :
      {fd : ℕ} {q : Queue}
      → sys.shm_open filename ≡ some fd
      → sys.ftruncate fd sizeof_queue ≡ true
      → sys.mmap fd sizeof_queue ≡ some q
      → sys.semaphore_at (semaphore_name filename) ≡ none
      → sys.new_semaphore (semaphore_name filename) ≡ none
      → Refuses sys filename s (complained "sem_open" (mapped_state sys fd q s))

pub data Opens (sys : System) (filename : List ℕ) (s : State) : Outcome WateRmq → Type 0 where
  refuses : {t : State} → Refuses sys filename s t → Opens sys filename s (exited (pos 1) t)
  opens : {o : WateRmq} {t : State} → Opened sys filename s o t → Opens sys filename s (ok o t)

-- The object before anything is opened.
abbrev pub blank : List ℕ → WateRmq
blank filename = record {
  sem = none;
  ptr_queue = false;
  filename = filename;
  command = λ key. none;
  running = false;
}

module _ (sys : System) (filename : List ℕ) (s : State) where
  abbrev name : List ℕ
  name = semaphore_name filename

  abbrev rest : Proc WateRmq
  rest = new_named sys name true >>= λ c.
      pure (record (blank filename) { ptr_queue = true; sem = some c })

  with_semaphore :
      (fd : ℕ) (q : Queue)
      → sys.shm_open filename ≡ some fd
      → sys.ftruncate fd sizeof_queue ≡ true
      → sys.mmap fd sizeof_queue ≡ some q
      → Opens sys filename s (rest (mapped_state sys fd q s))
  unfolding new_named sem_create made
  with_semaphore fd q e g f = go (sys.semaphore_at name) (sys.new_semaphore name) refl refl
    where
      t : State
      t = mapped_state sys fd q s

      go :
          (a b : Option ℕ)
          → sys.semaphore_at name ≡ a
          → sys.new_semaphore name ≡ b
          → Opens sys filename s (rest t)
      go (some h) b x y = rw x (
          opens {t = record t { is_open = update t.is_open h true }} (record {
            fd = fd;
            mapped = q;
            at_fd = e;
            sized = g;
            at_map = f;
            is_open = record {
              c = record { sem = some h; sem_name = name; is_named = true };
              handle = h;
              has_semaphore = refl;
              has_handle = refl;
              has_queue = refl;
              usable = ground arith;
            };
            named = refl;
            reset_queue = refl;
            value_at = rw x refl;
            same_world = refl;
            descriptor_closed = refl;
          }))
      go none none x y = rw (x, y) (refuses (no_semaphore e g f x y))
      go none (some h) x y =
          rw (x, y)
            (opens {t = record t { value = update t.value h 0; is_open = update t.is_open h true }}
              (record {
                fd = fd;
                mapped = q;
                at_fd = e;
                sized = g;
                at_map = f;
                is_open = record {
                  c = record { sem = some h; sem_name = name; is_named = true };
                  handle = h;
                  has_semaphore = refl;
                  has_handle = refl;
                  has_queue = refl;
                  usable = ground arith;
                };
                named = refl;
                reset_queue = refl;
                value_at = rw x (ground arith);
                same_world = refl;
                descriptor_closed = refl;
              }))

  with_mapping :
      (fd : ℕ) (m : Option Queue)
      → sys.shm_open filename ≡ some fd
      → sys.ftruncate fd sizeof_queue ≡ true
      → sys.mmap fd sizeof_queue ≡ m
      → Opens sys filename s (and_then (map_queue sys fd m s) λ _. rest)
  unfolding map_queue
  with_mapping fd none e g f = refuses (no_map e g f)
  with_mapping fd (some q) e g f = with_semaphore fd q e g f

  with_size :
      (fd : ℕ) (b : Bool)
      → sys.shm_open filename ≡ some fd
      → sys.ftruncate fd sizeof_queue ≡ b
      → Opens sys filename s (and_then (size_and_map sys fd b s) λ _. rest)
  unfolding size_and_map
  with_size fd false e f = refuses (no_size e f)
  with_size fd true e f = with_mapping fd (sys.mmap fd sizeof_queue) e f refl

  with_memory :
      (m : Option ℕ)
      → sys.shm_open filename ≡ m
      → Opens sys filename s (and_then (open_queue sys m s) λ _. rest)
  unfolding open_queue
  with_memory none e = refuses (no_memory e)
  with_memory (some fd) e = with_size fd (sys.ftruncate fd sizeof_queue) e refl

  -- For every answer of the system the constructor exits with 1, a complaint and its descriptor
  -- closed, at the first call that fails after the others have gone well; or it gives an object with the queue mapped, reset if it is
  -- a new one, the descriptor closed, and an open semaphore, which is 0 if no other process had made it.
  pub new_water_rmq-Opens : Opens sys filename s (new_water_rmq sys filename s)
  unfolding new_water_rmq init
  new_water_rmq-Opens = with_memory (sys.shm_open filename) refl
