-- ===== src/Front/Frees.antt =====
-- The loop of `_cleanup` in FrontendCPP/WateRMQ.cpp that frees the strings of the queue.
use wate_rmq.Common.{
  ℕ, zero, suc, ◌+◌, ◌≡◌, ◌≢◌, ◌<◌, ◌≤◌, ◌⊎◌, inl, inr, refl, sym, ap, subst, ◌∙◌, arith, List,
  none, some,
}
use wate_rmq.Memory.{Ptr, null, at, World, update, string_at}
use wate_rmq.Process.{State, Outcome}
use wate_rmq.Machine.{ok}
use wate_rmq.Front.{free_items, free_slot}
use wate_rmq.Front.Locked.{IsApart, kept_off, off-IsApart, freed, free-live, live}

-- The slots from `i` on, `n` of them, are emptied and their blocks freed; nothing else is.
pub record Frees (s : State) (n i : ℕ) (r : Outcome (Unit {0})) : Type 0 where
  pub world : World
  pub items : ℕ → Ptr
  pub result : r ≡ ok tt (record s { world = world; queue = record s.queue { items = items } })
  pub slots : IsApart world items
  pub emptied : (j : ℕ) → i ≤ j → j < i + n → items j ≡ null
  pub others : (j : ℕ) → j < i ⊎ i + n ≤ j → items j ≡ s.queue.items j
  pub gone : (j b : ℕ) → i ≤ j → j < i + n → s.queue.items j ≡ at b → world.block b ≡ none
  pub kept :
      (c : ℕ)
      → ((j : ℕ) → i ≤ j → j < i + n → s.queue.items j ≢ at c)
      → world.block c ≡ s.world.block c

free_slot-null : (s : State) (i : ℕ) → s.queue.items i ≡ null → free_slot i s ≡ ok tt s
free_slot-null s i e = rw e refl

free_slot-at :
    (s : State) (i b : ℕ) {m : List ℕ}
    → s.queue.items i ≡ at b
    → string_at s.world (at b) ≡ some m
    → free_slot i s
      ≡ ok tt (record s {
        world = freed b s.world;
        queue = record s.queue { items = update s.queue.items i null };
      })
free_slot-at s i b e f = rw (e, free-live s.world b (live s.world b f).1) refl

freed_gone : (w : World) (b : ℕ) → (freed b w).block b ≡ none
freed_gone w b = ground arith

freed_other : (w : World) (b c : ℕ) → b ≢ c → (freed b w).block c ≡ w.block c
freed_other w b c ne = ground arith

at_self : (items : ℕ → Ptr) (i : ℕ) → update items i null i ≡ null
at_self items i = ground arith

elsewhere : (items : ℕ → Ptr) (i j : ℕ) → i < j ⊎ j < i → update items i null j ≡ items j
elsewhere items i j ne = ground arith

at-inj : {b c : ℕ} → at b ≡ at c → b ≡ c
at-inj e = cc

null-at : {p : Ptr} {b : ℕ} → p ≡ null → p ≡ at b → ⊥
null-at e f = cc

-- The place of a slot among those from `i` on.
head-or-later : (i j n : ℕ) → i ≤ j → j < i + suc n → (i ≡ j) ⊎ ((suc i ≤ j) × (j < suc i + n))
head-or-later i j n a b = ground arith

Frees-null :
    (n i : ℕ) (s : State)
    → s.queue.items i ≡ null
    → Frees s n (suc i) (free_items n (suc i) s)
    → Frees s (suc n) i (free_items (suc n) i s)
unfolding free_items
Frees-null n i s e rest = record {
  world = rest.world;
  items = rest.items;
  result = rw (free_slot-null s i e) rest.result;
  slots = rest.slots;
  emptied = λ j a b. elim (head-or-later i j n a b) [
    | inl same ↦ subst (λ j. rest.items j ≡ null) same (rest.others i (inl (omega arith)) ∙ e)
    | inr (c, d) ↦ rest.emptied j c d
  ];
  others = λ j h. rest.others j (ground arith);
  gone = λ j b x y at_b. elim (head-or-later i j n x y) [
    | inl same ↦ absurd (null-at (ap s.queue.items (sym same) ∙ e) at_b)
    | inr (c, d) ↦ rest.gone j b c d at_b
  ];
  kept = λ c h. rest.kept c λ j x y. h j (omega arith) (omega arith);
}

module _ (n i : ℕ) (s : State) (slots : IsApart s.world s.queue.items) (b : ℕ)
    (e : s.queue.items i ≡ at b) where
  abbrev after_slot : State
  after_slot = record s {
    world = freed b s.world;
    queue = record s.queue { items = update s.queue.items i null };
  }

  -- The block of slot `i` is not that of a later slot.
  not_later : (j : ℕ) → suc i ≤ j → update s.queue.items i null j ≢ at b
  not_later j le f =
      (kept_off s.queue.items i j b f).0 (slots.apart i j b e (kept_off s.queue.items i j b f).1)

  Frees-at :
      {m : List ℕ}
      → string_at s.world (at b) ≡ some m
      → Frees after_slot n (suc i) (free_items n (suc i) after_slot)
      → Frees s (suc n) i (free_items (suc n) i s)
  unfolding free_items
  Frees-at f rest = record {
    world = rest.world;
    items = rest.items;
    result = rw (free_slot-at s i b e f) rest.result;
    slots = rest.slots;
    emptied = λ j x y. elim (head-or-later i j n x y) [
      | inl same ↦
          subst (λ j. rest.items j ≡ null) same
            (rest.others i (inl (omega arith)) ∙ at_self s.queue.items i)
      | inr (c, d) ↦ rest.emptied j c d
    ];
    others = λ j h. rest.others j (ground arith) ∙ elsewhere s.queue.items i j (ground arith);
    gone = λ j c x y at_c. elim (head-or-later i j n x y) [
      | inl same ↦
          subst (λ d. rest.world.block d ≡ none) (at-inj (sym e ∙ ap s.queue.items same ∙ at_c))
            (rest.kept b (λ k le lt. not_later k le) ∙ freed_gone s.world b)
      | inr (le, lt) ↦ rest.gone j c le lt (elsewhere s.queue.items i j (inl (omega arith)) ∙ at_c)
    ];
    kept = λ c h.
        rest.kept c (λ j x y g. h j (omega arith) (omega arith) (kept_off s.queue.items i j c g).1)
        ∙ freed_other s.world b c (λ g. h i (omega arith) (omega arith) (e ∙ ap at g));
  }

pub free_items-Frees :
    (n i : ℕ) (s : State) → IsApart s.world s.queue.items → Frees s n i (free_items n i s)
unfolding free_items
free_items-Frees zero i s slots = record {
  world = s.world;
  items = s.queue.items;
  result = refl;
  slots = slots;
  emptied = λ j a b. absurd (omega arith);
  others = λ j h. refl;
  gone = λ j b x y e. absurd (omega arith);
  kept = λ c h. refl;
}
free_items-Frees (suc n) i s slots = elim (slots.slot i) [
  | inl e ↦ Frees-null n i s e (free_items-Frees n (suc i) s slots)
  | inr (b, m, e, f) ↦
      Frees-at n i s slots b e f
        (free_items-Frees n (suc i) (after_slot n i s slots b e) (off-IsApart slots i b e))
]
