-- ===== src/Argv/Missing.antt =====
-- `processArgv` on a command line that lacks options.
use wate_rmq.Common.{
  ℕ, suc, ◌-◌, ◌≡◌, ◌≤◌, ◌<◌, refl, subst, true, false, List, [], none, some, arith, ltb,
  if◌then◌else◌, length, drop, get_elem?,
}
use wate_rmq.Argv.{
  done, codes, option_of, Argv, except_fields, Parsed, consume, parse_loop, process_argv,
}
use wate_rmq.Argv.Fields.{Field, hostname, place}
use wate_rmq.Argv.Steps.{Supplies, written, step_except}

-- The first eleven arrays hold no message of an exception.
only_messages :
    (texts : Field → List ℕ) (f : Field)
    → written texts except_fields (λ g. none) f
      ≡ (if ltb (place f) 11 then none else some (texts f))
only_messages texts hostname = refl
only_messages texts f = refl

abbrev begin : Parsed
begin = record { info = λ f. none; last = 1; reported = [] }

-- What is left when the eight texts have been copied.
abbrev end : (Field → List ℕ) → Argv → Parsed
end texts argv = record begin {
  info = written texts except_fields begin.info;
  last = consume (drop 8 argv) 8;
}

-- "--except_message" as the first option ends the loop: with its eight texts `processArgv` returns,
-- and the arrays of the three other options are left as `malloc` gave them, with no complaint.
pub process_argv_lacks_options :
    (texts : Field → List ℕ) (argv : Argv)
    → 24 ≤ length argv
    → get_elem? argv 1 ≡ some (codes "--except_message")
    → Supplies texts 5 argv 1 except_fields
    → (fuel : ℕ) → 0 < fuel
    → (p : Parsed) × (process_argv fuel true argv ≡ done p)
      × ((f : Field) → p.info f ≡ (if ltb (place f) 11 then none else some (texts f)))
      × (p.reported ≡ [])
unfolding process_argv
process_argv_lacks_options texts argv many e h fuel pos = (
  end texts argv,
  rw (enough (length argv) many) (
      subst (λ n. parse_loop n argv 1 begin ≡ done (end texts argv)) {x = suc (fuel - 1)}
        (omega arith) (step_except texts (fuel - 1) argv 1 begin e (unfold option_of in refl) h)),
  only_messages texts,
  refl,
)
  where
    enough : (n : ℕ) → 24 ≤ n → ltb n 24 ≡ false
    enough n le = ground arith
