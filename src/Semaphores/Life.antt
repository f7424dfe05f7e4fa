-- ===== src/Semaphores/Life.antt =====
-- The life of a semaphore object (FrontendCPP/SemaphoreCPP.cpp).
use wate_rmq.Common.{ℕ, suc, ◌≡◌, [], ◌∷◌, ◌++◌, refl, ap, arith, fun_ext, some, true, false}
use wate_rmq.Memory.{dangling, update}
use wate_rmq.Process.{State, semaphore_closed}
use wate_rmq.Machine.{ok, fault, blocked, ◌>>◌}
use wate_rmq.Semaphores.{Semaphore, wait, post, close, destruct}

raised_lowered : (v : ℕ → ℕ) (h : ℕ) → update (update v h (suc (v h))) h (v h) ≡ v
raised_lowered v h = fun_ext λ j. ground arith

at_self {ℓ} : {A : Type ℓ} (f : ℕ → A) (h : ℕ) (a : A) → update f h a h ≡ a
at_self f h a = ground arith

-- On an open semaphore, a wait behind a post ends at once and leaves everything as it was, and a wait
-- alone blocks exactly when the value is 0.
pub wait-post :
    (c : Semaphore) (h : ℕ) (s : State)
    → c.sem ≡ some h
    → s.is_open h ≡ true
    → ((post c >> wait c) s ≡ ok tt s) × (s.value h ≡ 0 → wait c s ≡ blocked s)
unfolding wait post
wait-post c h s e f = (
  rw (e, f)
      (rw (f, at_self s.value h (suc (s.value h)))
        (ap (λ v. ok tt (record s { value = v })) (raised_lowered s.value h))),
  λ z. rw (e, f, z) refl,
)

abbrev pub shut : ℕ → State → State
shut h s = record s {
  is_open = update s.is_open h false;
  events = s.events ++ semaphore_closed h ∷ [];
}

-- A named semaphore that has been closed by `close` is closed again by the destructor, which is a
-- fault; on an unnamed one both do nothing.
pub destruct-close :
    (c : Semaphore) (h : ℕ) (s : State)
    → c.sem ≡ some h
    → s.is_open h ≡ true
    → (c.is_named ≡ true → (close c >> destruct c) s ≡ fault dangling (shut h s))
      × (c.is_named ≡ false → (close c >> destruct c) s ≡ ok tt s)
unfolding close destruct
destruct-close c h s e f =
    (λ n. rw (n, e) (rw f (rw (at_self s.is_open h false) refl)), λ n. rw n refl)
