-- ===== src/Machine.antt =====
-- How a run over a state ends, for the processes that more than memory belongs to: the front end in
-- FrontendCPP/ and the back end of BackLibWaterRMQ.c.
use wate_rmq.Common.{ℤ}
use wate_rmq.Memory.{Fault}

-- `fault` has the state in which it happens. `blocked` is a wait for a semaphore that is 0; only another process can end it.
pub data Ending (S A : Type 0) : Type 0 where
  ok : A → S → Ending S A
  exited : ℤ → S → Ending S A
  fault : Fault → S → Ending S A
  blocked : S → Ending S A
  running : S → Ending S A  -- out of fuel

module _ {S : Type 0} where
  abbrev pub pure : {A : Type 0} → A → S → Ending S A
  pure a s = ok a s

  abbrev pub and_then : {A B : Type 0} → Ending S A → (A → S → Ending S B) → Ending S B
  and_then (ok a s) f = f a s
  and_then (exited n s) f = exited n s
  and_then (fault e s) f = fault e s
  and_then (blocked s) f = blocked s
  and_then (running s) f = running s

  infixl 5 ◌>>=◌ ◌>>◌
  abbrev pub ◌>>=◌ : {A B : Type 0} → (S → Ending S A) → (A → S → Ending S B) → S → Ending S B
  ◌>>=◌ m f s = and_then (m s) f

  abbrev pub ◌>>◌ : {B : Type 0} → (S → Ending S (Unit {0})) → (S → Ending S B) → S → Ending S B
  m >> k = m >>= λ _. k

  abbrev pub crash : {A : Type 0} → Fault → S → Ending S A
  crash e s = fault e s

  abbrev pub exit : {A : Type 0} → ℤ → S → Ending S A
  exit n s = exited n s
