-- ===== src/Argv/Loop.antt =====
-- When the loop of `processArgv` ends, and when it does not.
use wate_rmq.Common.{
  ℕ, zero, suc, ◌+◌, ◌≡◌, ◌≢◌, ◌≤◌, ◌<◌, refl, ◌∙◌, Bool, true, false, List, [], ◌∷◌, none, some,
  arith, Bool-cases, inl, inr, ltb, length, get_elem?,
}
use wate_rmq.Argv.{
  Outcome, done, exited, fault, out_of_fuel, ◌>>=◌, codes, Opt, invalid, connection,
  exchange_bind_queue, login_system, except_message, option_of, Informations, Argv, argument, skip,
  strcpy, copy_all, connection_fields, exchange_fields, login_fields, except_fields, Parsed,
  dispatch, parse_loop, process_argv,
}
use wate_rmq.Argv.Fields.{Field}
use wate_rmq.Argv.Steps.{Supplies, step_connection}

connection_forever :
    (texts : Field → List ℕ) (fuel : ℕ) (argv : Argv) (p : Parsed)
    → get_elem? argv 4 ≡ some (codes "--connection")
    → Supplies texts 6 argv 4 connection_fields
    → parse_loop fuel argv 4 p ≡ out_of_fuel
unfolding parse_loop
connection_forever texts zero argv p e h = refl
connection_forever texts (suc fuel) argv p e h =
    step_connection texts fuel argv 4 p e is_connection h ∙ connection_forever texts fuel argv _ e h
  where
    is_connection : option_of (codes "--connection") ≡ connection
    is_connection = unfold option_of in refl

-- A second "--connection" in place 4 is read for ever: the case sets `cpt` to 4 and not behind its
-- own arguments, so that no number of rounds ends the loop.
pub process_argv_forever :
    (first second : Field → List ℕ) (argv : Argv)
    → 24 ≤ length argv
    → get_elem? argv 1 ≡ some (codes "--connection")
    → Supplies first 6 argv 1 connection_fields
    → get_elem? argv 4 ≡ some (codes "--connection")
    → Supplies second 6 argv 4 connection_fields
    → (fuel : ℕ) → process_argv fuel true argv ≡ out_of_fuel
unfolding process_argv
process_argv_forever first second argv many e h e' h' fuel =
    rw (enough (length argv) many) (from_first fuel)
  where
    enough : (n : ℕ) → 24 ≤ n → ltb n 24 ≡ false
    enough n le = ground arith

    from_first :
        (fuel : ℕ)
        → parse_loop fuel argv 1 (record { info = λ f. none; last = 1; reported = [] })
          ≡ out_of_fuel
    from_first zero = unfold parse_loop in refl
    from_first (suc fuel) =
        step_connection first fuel argv 1 _ e (unfold option_of in refl) h
        ∙ connection_forever second fuel argv _ e' h'

-- Every option that jumps stands before the place that it jumps to.
pub record InPlace (argv : Argv) : Type 0 where
  pub connections :
      (i : ℕ) (s : List ℕ) → get_elem? argv i ≡ some s → option_of s ≡ connection → i < 4
  pub exchanges :
      (i : ℕ) (s : List ℕ) → get_elem? argv i ≡ some s → option_of s ≡ exchange_bind_queue → i < 8
  pub logins :
      (i : ℕ) (s : List ℕ) → get_elem? argv i ≡ some s → option_of s ≡ login_system → i < 15

abbrev Ends : {A : Type 0} → Outcome A → Type 0
Ends m = m ≢ out_of_fuel

bind :
    {A B : Type 0} (m : Outcome A) (k : A → Outcome B)
    → Ends m
    → ((a : A) → m ≡ done a → Ends (k a))
    → Ends (m >>= k)
bind (done a) k h next = next a refl
bind (exited n) k h next = cc
bind (fault e) k h next = cc
bind out_of_fuel k h next = absurd (h refl)

argument-Ends : (argv : Argv) (i : ℕ) → Ends (argument argv i)
unfolding argument
argument-Ends argv i = ground arith

skip-Ends : (padding : ℕ) (s : List ℕ) → Ends (skip padding s)
unfolding skip
skip-Ends padding s = ground arith

strcpy-Ends : (f : Field) (s : List ℕ) (info : Informations) → Ends (strcpy f s info)
unfolding strcpy
strcpy-Ends f s info = ground arith

copy_all-Ends :
    (padding : ℕ) (argv : Argv) (cpt : ℕ) (fields : List (Field × ℕ)) (info : Informations)
    → Ends (copy_all padding argv cpt fields info)
unfolding copy_all
copy_all-Ends padding argv cpt [] info = cc
copy_all-Ends padding argv cpt ((f, i) ∷ more) info =
    bind (argument argv (cpt + i)) _ (argument-Ends argv (cpt + i)) λ s u.
      bind (skip padding s) _ (skip-Ends padding s) λ t v.
        bind (strcpy f t info) _ (strcpy-Ends f t info)
          λ info' w. copy_all-Ends padding argv cpt more info'

argument-found :
    (argv : Argv) (i : ℕ) {s : List ℕ} → argument argv i ≡ done s → get_elem? argv i ≡ some s
unfolding argument
argument-found argv i e = ground arith

found-lt-length : (argv : Argv) (i : ℕ) {s : List ℕ} → get_elem? argv i ≡ some s → i < length argv
found-lt-length [] i e = cc
found-lt-length (x ∷ argv) zero e = omega arith
found-lt-length (x ∷ argv) (suc i) e = omega (arith, found-lt-length argv i e)

dispatch-Ends :
    (again : ℕ → Parsed → Outcome Parsed) (argv : Argv) (cpt : ℕ) (p : Parsed) (opt : List ℕ)
    (o : Opt)
    → InPlace argv
    → get_elem? argv cpt ≡ some opt
    → option_of opt ≡ o
    → ((n : ℕ) (q : Parsed) → cpt < n → Ends (again n q))
    → Ends (dispatch again argv cpt p opt o)
unfolding dispatch
dispatch-Ends again argv cpt p opt connection h e is go =
    bind (copy_all 6 argv cpt connection_fields p.info) _
      (copy_all-Ends 6 argv cpt connection_fields p.info)
      λ info u. go 4 _ (h.connections cpt opt e is)
dispatch-Ends again argv cpt p opt exchange_bind_queue h e is go =
    bind (copy_all 6 argv cpt exchange_fields p.info) _
      (copy_all-Ends 6 argv cpt exchange_fields p.info) λ info u. go 8 _ (h.exchanges cpt opt e is)
dispatch-Ends again argv cpt p opt login_system h e is go =
    bind (copy_all 5 argv cpt login_fields p.info) _ (copy_all-Ends 5 argv cpt login_fields p.info)
      λ info u. go 15 _ (h.logins cpt opt e is)
dispatch-Ends again argv cpt p opt except_message h e is go =
    bind (copy_all 5 argv cpt except_fields p.info) _
      (copy_all-Ends 5 argv cpt except_fields p.info) λ info u. cc
dispatch-Ends again argv cpt p opt invalid h e is go = go (cpt + 1) _ (omega arith)

parse_loop-Ends :
    (fuel : ℕ) (argv : Argv) (cpt : ℕ) (p : Parsed)
    → InPlace argv
    → length argv < fuel + cpt
    → 0 < fuel
    → Ends (parse_loop fuel argv cpt p)
unfolding parse_loop
parse_loop-Ends zero argv cpt p h lt pos = absurd (omega arith)
parse_loop-Ends (suc fuel) argv cpt p h lt pos =
    bind (argument argv cpt) _ (argument-Ends argv cpt) λ opt e.
      let found = argument-found argv cpt e in
      dispatch-Ends (parse_loop fuel argv) argv cpt p opt (option_of opt) h found refl λ n q behind.
        parse_loop-Ends fuel argv n q h (omega arith)
          (omega (arith, found-lt-length argv cpt found))

-- If no option stands at or behind the place that it jumps to, the loop ends: as many rounds as
-- there are arguments, and one more, are enough for `processArgv` to return, to exit or to fault.
pub process_argv-Ends :
    (argv : Argv) (granted : Bool) (fuel : ℕ)
    → InPlace argv
    → length argv < fuel
    → process_argv fuel granted argv ≢ out_of_fuel
unfolding process_argv
process_argv-Ends argv false fuel h lt = cc
process_argv-Ends argv true fuel h lt = elim (Bool-cases (ltb (length argv) 24)) [
  | inl short ↦ ground arith
  | inr long ↦ rw long (parse_loop-Ends fuel argv 1 _ h (omega arith) (omega arith))
]
