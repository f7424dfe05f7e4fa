-- ===== src/Backend/Stays.antt =====
-- `enqueue` and what `sendMessage` does beside it return or are at fault: none of them ends the process.
use wate_rmq.Common.{
  ℕ, ◌+◌, ◌^◌, Bool, true, false, List, Option, none, some, ℤ, pos, negsuc, Option-cases, inl, inr,
  leb, length, ltb, take, if◌then◌else◌, ◌≡◌, refl,
}
use wate_rmq.Memory.{
  Ptr, null, at, World, Run, Cmd, ok, fault, Fault, and_then, load, store, read_string, strlen,
  until_nul, malloc, memcpy,
}
use wate_rmq.Queue.{Queue, max_size, sizeof_queue, is_full, set_item, len_value, fill_slot, enqueue}
use wate_rmq.Configure.{member}
use wate_rmq.Backend.{Placing, block_as_queue, as_queue, rewritten, set_queue, add_to_queue}

pub data Stays {A : Type 0} : Run A → Type 0 where
  returns : {a : A} {w : World} → Stays (ok a w)
  fails : {e : Fault} → Stays (fault e)

bound :
    {A B : Type 0} {r : Run A} (k : A → Cmd B)
    → Stays r
    → ((a : A) (w : World) → Stays (k a w))
    → Stays (and_then r k)
bound k (returns {a} {w}) f = f a w
bound k fails f = fails

either :
    {A : Type 0} (b : Bool) (m k : Cmd A) (w : World)
    → Stays (m w)
    → Stays (k w)
    → Stays ((if b then m else k) w)
either true m k w h f = h
either false m k w h f = f

decided : {A : Type 0} (b : Bool) (r s : Run A) → Stays r → Stays s → Stays (if b then r else s)
decided true r s h f = h
decided false r s h f = f

load-Stays : (p : Ptr) (w : World) → Stays (load p w)
unfolding load
load-Stays null w = fails
load-Stays (at b) w = go (w.block b) refl
  where
    go : (o : Option (List ℕ)) → w.block b ≡ o → Stays (load (at b) w)
    go none e = rw (load, e) fails
    go (some bytes) e = rw (load, e) returns

store-Stays : (p : Ptr) (new : List ℕ) (w : World) → Stays (store p new w)
unfolding store
store-Stays null new w = fails
store-Stays (at b) new w = go (w.block b) refl
  where
    go : (o : Option (List ℕ)) → w.block b ≡ o → Stays (store (at b) new w)
    go none e = rw (store, e) fails
    go (some old) e = rw (store, e) (decided (leb (length new) (length old)) _ _ returns fails)

memcpy-Stays : (to from : Ptr) (n : ℕ) (w : World) → Stays (memcpy to from n w)
unfolding memcpy
memcpy-Stays to from n w =
    bound _ (load-Stays from w)
      λ bytes v. either (leb n (length bytes)) _ _ v (store-Stays to (take n bytes) v) fails

read_string-Stays : (p : Ptr) (w : World) → Stays (read_string p w)
unfolding read_string
read_string-Stays p w = bound _ (load-Stays p w) λ bytes v. elim (Option-cases (until_nul bytes)) [
  | inl e ↦ rw e fails
  | inr (s, e) ↦ rw e returns
]

strlen-Stays : (p : Ptr) (w : World) → Stays (strlen p w)
unfolding strlen
strlen-Stays p w = bound _ (read_string-Stays p w) λ s v. returns

malloc-Stays : (n : ℕ) (w : World) → Stays (malloc n w)
unfolding malloc
malloc-Stays n w = decided (w.grants w.next n) _ _ returns returns

len_value-Stays : (n : ℕ) (w : World) → Stays (len_value n w)
unfolding len_value
len_value-Stays n w = either (ltb (n + 1) (2 ^ 31)) _ _ w returns fails

fill_slot-Stays : (q : Queue) (v : Ptr) (n : ℕ) (p : Ptr) (w : World) → Stays (fill_slot q v n p w)
unfolding fill_slot
fill_slot-Stays q v n null w = returns
fill_slot-Stays q v n (at b) w = bound _ (memcpy-Stays (at b) v n w) λ _ u. returns

set_item-Stays : (q : Queue) (p : Ptr) (w : World) → Stays (set_item q q.rear p w)
unfolding set_item
set_item-Stays q p w = go q.rear
  where
    go : (z : ℤ) → Stays (set_item q z p w)
    go (pos i) = either (ltb i max_size) _ _ w returns fails
    go (negsuc i) = fails

pub enqueue-Stays : (q : Queue) (p : Ptr) (w : World) → Stays (enqueue q p w)
unfolding enqueue
enqueue-Stays q p w = either (is_full q) _ _ w returns (
    bound _ (strlen-Stays p w) λ n v. bound _ (len_value-Stays n v) λ size u.
      bound _ (malloc-Stays size u)
        λ new t. bound _ (set_item-Stays q new t) λ q' x. fill_slot-Stays q' p size new x)

as_queue-Stays : (place : Placing) (p : Ptr) (w : World) → Stays (as_queue place p w)
unfolding as_queue
as_queue-Stays place null w = fails
as_queue-Stays place (at b) w = go (w.block b)
  where
    go : (o : Option (List ℕ)) → Stays (block_as_queue place o w)
    go none = fails
    go (some bytes) = decided (ltb (length bytes) sizeof_queue) _ _ fails returns

set_queue-Stays :
    (place : Placing) (p : Ptr) (q : Queue) (w : World) → Stays (set_queue place p q w)
unfolding set_queue
set_queue-Stays place null q w = fails
set_queue-Stays place (at b) q w = go (w.block b)
  where
    go : (o : Option (List ℕ)) → Stays (rewritten place q b o w)
    go none = fails
    go (some bytes) = returns

pub member-Stays : {A : Type 0} (o : Option A) (w : World) → Stays (member o w)
unfolding member
member-Stays none w = fails
member-Stays (some a) w = returns

pub add_to_queue-Stays :
    (place : Placing) (q : Option Queue) (p : Ptr) (w : World) → Stays (add_to_queue place q p w)
unfolding add_to_queue
add_to_queue-Stays place q null w = returns
add_to_queue-Stays place q (at b) w = bound _ (member-Stays q w) λ queue v.
    bound _ (as_queue-Stays place (queue.items 4) v) λ other u.
      bound _ (enqueue-Stays other (at b) u)
        λ other' t. bound _ (set_queue-Stays place (queue.items 4) other' t) λ _ x. returns
