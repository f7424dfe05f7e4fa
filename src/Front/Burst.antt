-- ===== src/Front/Burst.antt =====
-- What becomes of a burst of messages in the queue of FrontendCPP/WateRMQ.cpp: the front leaps over all
-- but the first.
use wate_rmq.Common.{
  ℕ, zero, suc, ◌≡◌, ◌≢◌, ◌<◌, inl, inr, refl, sym, ap, ◌∙◌, arith, List, [], ◌∷◌, replicate, some,
  pos,
}
use wate_rmq.Memory.{null, World, string_at}
use wate_rmq.Process.{Queue, State, Outcome}
use wate_rmq.Machine.{ok}
use wate_rmq.Front.{WateRmq, read_message}
use wate_rmq.Front.Locked.{IsWell, Taken, nothing, taken, hop}
use wate_rmq.Front.Reads.{IsOpen, read_message-Receives}
use wate_rmq.Front.Slots.{
  read_times, pos-inj, elsewhere, null-at, null-string, zero-suc, suc-inj, some-inj, IsOpen-same,
}

Taken-null :
    {w v : World} {q r : Queue} {m : List ℕ} {f : ℕ}
    → Taken w q m v r
    → q.front ≡ pos f
    → q.items f ≡ null
    → (m ≡ []) × (v ≡ w) × (r ≡ q)
Taken-null (nothing _) e g = (refl, refl, refl)
Taken-null {q} {f} (taken {f = f'} e' _ i _) e g =
    absurd (null-at (ap q.items (pos-inj (sym e' ∙ e)) ∙ g) i)

-- A front that points to no message gives the empty text and changes nothing.
read_message-silent :
    (o : WateRmq) (s : State) (value f : ℕ) (ready : IsOpen o s)
    → s.value ready.handle ≡ suc value
    → IsWell s.world s.queue
    → s.queue.front ≡ pos f
    → s.queue.items f ≡ null
    → read_message o s ≡ ok [] s
read_message-silent o s value f ready e well at_front empty =
    let r = read_message-Receives o s value ready e well in
    let (a, b, c) = Taken-null r.how at_front empty in
    r.result ∙ λ i. ok (a i) (record s { world = b i; queue = c i })

read_times-silent :
    (n : ℕ) (o : WateRmq) (s : State) (value f : ℕ) (ready : IsOpen o s)
    → s.value ready.handle ≡ suc value
    → IsWell s.world s.queue
    → s.queue.front ≡ pos f
    → s.queue.items f ≡ null
    → read_times n o s ≡ ok (replicate n []) s
read_times-silent zero o s value f ready e well at_front empty = refl
read_times-silent (suc n) o s value f ready e well at_front empty =
    rw
      (
        read_message-silent o s value f ready e well at_front empty,
        read_times-silent n o s value f ready e well at_front empty,
      )
      refl

Taken-first :
    {w v : World} {q r : Queue} {m m' : List ℕ} {f k : ℕ}
    → Taken w q m v r
    → q.front ≡ pos f
    → q.count ≡ pos (suc k)
    → string_at w (q.items f) ≡ some m'
    → (m ≡ m')
      × (r.front ≡ pos (hop f))
      × (r.count ≡ pos k)
      × ((i : ℕ) → f ≢ i → r.items i ≡ q.items i)
Taken-first (nothing (inl z)) e g h = absurd (zero-suc (sym z ∙ g))
Taken-first {w} {q} (nothing (inr (y, a, b))) e g h =
    absurd (null-string w (ap q.items (pos-inj (sym e ∙ a)) ∙ b) h)
Taken-first {w} {q} (taken {f} {b} {k} e' g' i h') e g h =
    let same = pos-inj (sym e' ∙ e) in
    (
      some-inj (sym h' ∙ ap (string_at w) (sym i ∙ ap q.items same) ∙ h),
      ap (λ j. pos (hop j)) same,
      ap pos (suc-inj (pos-inj (sym g' ∙ g))),
      λ j ne. elsewhere q.items f j (λ x. ne (sym same ∙ x)),
    )

-- What a burst of up to ten messages comes to: the first one is read, the others never.
pub record Loses (s : State) (m : List ℕ) (left n : ℕ) (r : Outcome (List (List ℕ))) : Type 0 where
  pub world : World
  pub queue : Queue
  pub result : r ≡ ok (m ∷ replicate n []) (record s { world = world; queue = queue })
  pub still_counted : queue.count ≡ pos left
  pub still_there : (i : ℕ) → 0 ≢ i → queue.items i ≡ s.queue.items i

-- One to ten messages that stand in the slots from 0 on, with the front at 0: the first read gives
-- the first of them, and however many reads follow, they give nothing. The others stay in their
-- slots, and are still counted.
pub read_times-Loses :
    (n k : ℕ) (o : WateRmq) (s : State) (value : ℕ) (ready : IsOpen o s) (m : List ℕ)
    → s.value ready.handle ≡ suc value
    → IsWell s.world s.queue
    → s.queue.front ≡ pos 0
    → s.queue.count ≡ pos (suc k)
    → k < 10
    → string_at s.world (s.queue.items 0) ≡ some m
    → ((i : ℕ) → k < i → s.queue.items i ≡ null)
    → Loses s m k n (read_times (suc n) o s)
unfolding IsOpen-same
read_times-Loses n k o s value ready m e well at_front counted few first empty =
    let r = read_message-Receives o s value ready e well in
    let (same, hopped, left, kept) = Taken-first r.how at_front counted first in
    record {
      world = r.world;
      queue = r.queue;
      result =
          rw
            (
              r.result,
              read_times-silent n o (record s { world = r.world; queue = r.queue }) value 10
                  (IsOpen-same r.world r.queue ready) e r.well hopped
                  (kept 10 (omega arith) ∙ empty 10 few),
              same,
            )
            refl;
      still_counted = left;
      still_there = kept;
    }
