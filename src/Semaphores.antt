-- ===== src/Semaphores.antt =====
-- The class of FrontendCPP/SemaphoreCPP.cpp and SemaphoreCPP.hpp over the process of the front end. A
-- `sem_t *` is the handle of a semaphore, `none` for SEM_FAILED.

pub mod Life
use wate_rmq.Common.{
  ℕ, zero, suc, Bool, true, false, List, [], ◌∷◌, Option, none, some, String, pos, if◌then◌else◌,
}
use wate_rmq.Memory.{text, dangling, update}
use wate_rmq.Process.{
  State, System, Outcome, Proc, print_error, record_event, semaphore_closed, semaphore_unlinked,
}
use wate_rmq.Machine.{ok, fault, blocked, exited, pure, ◌>>=◌, ◌>>◌, exit}

pub record Semaphore : Type 0 where
  pub sem : Option ℕ
  pub sem_name : List ℕ
  pub is_named : Bool

-- `sem_open` with O_CREAT and the initial value `n`: a name in use keeps its semaphore and its value.
unfoldable pub sem_create : Option ℕ → Option ℕ → ℕ → Proc (Option ℕ)
sem_create (some h) new n s = ok (some h) (record s { is_open = update s.is_open h true })
sem_create none none n s = ok none s
sem_create none (some h) n s =
    ok (some h) (record s { value = update s.value h n; is_open = update s.is_open h true })

-- `sem_open` without O_CREAT.
unfoldable pub sem_find : Option ℕ → Proc (Option ℕ)
sem_find (some h) s = ok (some h) (record s { is_open = update s.is_open h true })
sem_find none s = ok none s

-- The end of the constructor.
unfoldable pub made : List ℕ → Option ℕ → Proc Semaphore
made name (some h) = pure (record { sem = some h; sem_name = name; is_named = true })
made name none = print_error (text "sem_open" ∷ []) >> exit (pos 1)

-- `SemaphoreCPP(const std::string&, bool)`
unfoldable pub new_named : System → List ℕ → Bool → Proc Semaphore
new_named sys name true =
    sem_create (sys.semaphore_at name) (sys.new_semaphore name) 0 >>= λ h. made name h
new_named sys name false = sem_find (sys.semaphore_at name) >>= λ h. made name h

-- `SemaphoreCPP(sem_t*)`
unfoldable pub new_unnamed : Option ℕ → Semaphore
new_unnamed sem = record { sem = sem; sem_name = []; is_named = false }

-- A call on the semaphore behind the pointer: a fault if it is not open.
abbrev pub on_open : Option ℕ → (ℕ → Proc (Unit {0})) → Proc (Unit {0})
on_open none f s = fault dangling s
on_open (some h) f s = if s.is_open h then f h s else fault dangling s

abbrev pub lower : ℕ → ℕ → Proc (Unit {0})
lower zero h s = blocked s
lower (suc n) h s = ok tt (record s { value = update s.value h n })

unfoldable pub wait : Semaphore → Proc (Unit {0})
wait c = on_open c.sem λ h s. lower (s.value h) h s

unfoldable pub post : Semaphore → Proc (Unit {0})
post c = on_open c.sem λ h s. ok tt (record s { value = update s.value h (suc (s.value h)) })

abbrev pub sem_close : Option ℕ → Proc (Unit {0})
sem_close sem =
    on_open sem
      λ h s. record_event (semaphore_closed h) (record s { is_open = update s.is_open h false })

unfoldable pub close : Semaphore → Proc (Unit {0})
close c = if c.is_named then sem_close c.sem else pure tt

unfoldable pub unlink : Semaphore → Proc (Unit {0})
unlink c = if c.is_named then record_event (semaphore_unlinked c.sem_name) else pure tt

-- The destructor.
unfoldable pub destruct : Semaphore → Proc (Unit {0})
destruct c = if c.is_named then finish c.sem else pure tt
  where
    finish : Option ℕ → Proc (Unit {0})
    finish none = pure tt
    finish (some h) = sem_close (some h)
