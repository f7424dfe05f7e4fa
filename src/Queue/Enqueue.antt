-- ===== src/Queue/Enqueue.antt =====
-- `enqueue` of BackLibWaterRMQ.c on a queue that holds strings.
use wate_rmq.Common.{
  ℕ, suc, ◌+◌, ◌^◌, ◌≡◌, ◌<◌, refl, ap, subst, Bool, true, false, ◌&&◌, List, [], ◌∷◌, ◌++◌, some,
  pos, arith, length, length-append, ltb, if◌then◌else◌, inl, inr, Bool-cases, dec_lt,
}
use wate_rmq.Memory.{Ptr, null, at, World, string_at, update, Run, ok, granted, denied, text, int}
use wate_rmq.Memory.Text.{string_at-PointsTo}
use wate_rmq.Memory.Frame.{IsSound, Extends, strlen-ok, malloc-granted, malloc-denied}
use wate_rmq.Memory.Copy.{filled, Copied, filled-Copied, memcpy_string}
use wate_rmq.Queue.{Queue, max_size, len_value, fill_slot, enqueue}
use wate_rmq.Queue.Rep.{
  Holds, Rep, Rep-Extends, Holds-Extends, Holds-update, Holds-append, is_full-Rep, set_item_at,
  rear_next,
}

-- Whether `enqueue` takes a string of `n` bytes: a slot is left, and `malloc` grants its copy.
abbrev pub admits : World → ℕ → ℕ → Bool
admits w used n = ltb used max_size && w.grants w.next (n + 1)

-- The run ended with a queue that holds `xs`, and kept every live block.
pub record Ends (w : World) (r : Run Queue) (gone : ℕ) (xs : List (List ℕ)) : Type 0 where
  pub world : World
  pub queue : Queue
  pub result : r ≡ ok queue world
  pub sound : IsSound world
  pub extends : Extends w world
  pub holds : Rep world queue gone xs

module _ {w : World} {q : Queue} {gone : ℕ} {xs : List (List ℕ)} (value : Ptr) (s : List ℕ)
    (sound : IsSound w) (r : Rep w q gone xs) (points : string_at w value ≡ some s)
    (short : length s + 1 < 2 ^ 31) where
  abbrev used : ℕ
  used = gone + length xs

  abbrev slot : Ptr → Queue
  slot p = record q { items = update q.items used p }

  len_value-ok : len_value (length s) w ≡ ok (length s + 1) w
  unfolding len_value
  len_value-ok = ground arith

  -- No slot is left: the queue stays.
  Ends-full : used ≡ max_size → Ends w (enqueue q value w) gone xs
  unfolding enqueue
  Ends-full full = record {
    world = record w { stdout = w.stdout ++ text "Queue is full\n" ∷ [] };
    queue = q;
    result = rw (is_full-Rep r) (ground arith);
    sound = record { unused = sound.unused };
    extends = record { later = omega arith; same = λ b h. refl; granting = refl };
    holds =
        Rep-Extends sound (record { later = omega arith; same = λ b h. refl; granting = refl }) r;
  }

  -- `malloc` fails: NULL is written behind the last message, and the queue stays.
  Ends-denied :
      used < max_size → w.grants w.next (length s + 1) ≡ false → Ends w (enqueue q value w) gone xs
  unfolding enqueue fill_slot
  Ends-denied room refused = record {
    world = record (denied w) {
      stderr =
          w.stderr
          ++ text "Impossible to perform malloc on enqueue : REAR="
            ∷ int q.rear
            ∷ text ", FRONT="
            ∷ int q.front
            ∷ text "\n"
            ∷ [];
    };
    queue = slot null;
    result = ground (
      arith,
      is_full-Rep r,
      strlen-ok w value points,
      len_value-ok,
      malloc-denied (length s + 1) w refused,
      set_item_at r (denied w) null room,
    );
    sound = record { unused = λ b h. sound.unused b (omega arith) };
    extends = record { later = omega arith; same = λ b h. refl; granting = refl };
    holds = record {
      front_at = r.front_at;
      rear_at = r.rear_at;
      fits = r.fits;
      held = Holds-update w q.items gone used xs null (omega arith) r.held;
    };
  }

  -- The copy of the string goes behind the others.
  Ends-granted :
      used < max_size
      → w.grants w.next (length s + 1) ≡ true
      → Ends w (enqueue q value w) gone (xs ++ s ∷ [])
  unfolding enqueue fill_slot
  Ends-granted room given = record {
    world = filled (length s + 1) (s ++ 0 ∷ []) w;
    queue = record (slot (at w.next)) { rear = pos (suc used) };
    result = ground (
      arith,
      is_full-Rep r,
      strlen-ok w value points,
      len_value-ok,
      malloc-granted (length s + 1) w given,
      set_item_at r (granted (length s + 1) w) (at w.next) room,
      memcpy_string value s sound points,
      rear_next r,
    );
    sound = done.sound;
    extends = done.extends;
    holds = record {
      front_at = r.front_at;
      rear_at = ap pos (omega (arith, length-append xs (s ∷ [])));
      fits = omega (arith, length-append xs (s ∷ []));
      held =
          Holds-append end items gone xs s
            (Holds-update end q.items gone used xs (at w.next) (omega arith) kept) new;
    };
  }
    where
      end : World
      end = filled (length s + 1) (s ++ 0 ∷ []) w

      items : ℕ → Ptr
      items = update q.items used (at w.next)

      done : Copied w (filled (length s + 1) (s ++ 0 ∷ []) w) s
      done = filled-Copied (length s + 1) s sound (string_at-PointsTo {w = w} value points).clean

      kept : Holds end q.items gone xs
      kept = Holds-Extends q.items gone xs sound done.extends r.held

      new : string_at end (items used) ≡ some s
      new = subst (λ p. string_at end p ≡ some s) {x = at w.next} (ground arith) done.copy

-- `enqueue` on a queue that holds `xs` ends without a fault, keeps every live block, and leaves
-- the queue holding `xs` and behind them the new string, if a slot was left and `malloc` granted
-- its copy, and `xs` otherwise.
pub enqueue-Ends :
    {w : World} {q : Queue} {gone : ℕ} {xs : List (List ℕ)} (value : Ptr) (s : List ℕ)
    → IsSound w
    → Rep w q gone xs
    → string_at w value ≡ some s
    → length s + 1 < 2 ^ 31
    → Ends w
        (enqueue q value w)
        gone
        (if admits w (gone + length xs) (length s) then xs ++ s ∷ [] else xs)
enqueue-Ends {w} {q} {gone} {xs} value s sound r points short =
    elim (dec_lt (gone + length xs) max_size) [
      | no full ↦
          subst (Ends w (enqueue q value w) gone) (ground arith)
            (Ends-full value s sound r points short (omega (arith, r.fits)))
      | yes room ↦ elim (Bool-cases (w.grants w.next (length s + 1))) [
        | inl given ↦
            subst (Ends w (enqueue q value w) gone) (ground arith)
              (Ends-granted value s sound r points short room given)
        | inr refused ↦
            subst (Ends w (enqueue q value w) gone) (ground arith)
              (Ends-denied value s sound r points short room refused)
      ]
    ]
