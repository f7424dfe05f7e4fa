-- ===== src/Argv/Tests.antt =====
-- Command lines, and the theorems on `processArgv` at them.
use wate_rmq.Common.{
  ℕ, zero, suc, ◌≡◌, ◌≢◌, ◌≤◌, ◌<◌, refl, sym, ◌∙◌, subst, true, List, [], ◌∷◌, none, some, arith,
  ltb, length, drop, get_elem?, replicate, length-replicate, if◌then◌else◌,
}
use wate_rmq.Argv.{
  done, fault, out_of_fuel, codes, Argv, Parsed, option_of, strcpy, process_argv, Opt, connection,
  exchange_bind_queue, login_system,
}
use wate_rmq.Memory.{out_of_bounds}
use wate_rmq.Argv.Fields.{Field, hostname, port, capacity, place}
use wate_rmq.Argv.Steps.{Carries}
use wate_rmq.Argv.RoundTrip.{padding_of, command_line, process_argv-command_line}
use wate_rmq.Argv.Loop.{InPlace, process_argv_forever, process_argv-Ends}
use wate_rmq.Argv.Missing.{process_argv_lacks_options}

abbrev texts : Field → List ℕ
texts hostname = codes "localhost"
texts port = codes "5672"
texts f = codes "guest"

abbrev pre : Field → List ℕ
pre f = replicate (padding_of f) b':'

abbrev line : Argv
line = command_line (codes "BackLibWaterRMQ") pre texts

pre-padded : (f : Field) → length (pre f) ≡ padding_of f
pre-padded f = length-replicate (padding_of f) b':'

texts_fit : (f : Field) → length (texts f) < capacity f
texts_fit hostname = omega arith
texts_fit port = omega arith
texts_fit f = omega arith

process_argv-command_line_example :
    (p : Parsed) × (process_argv 4 true line ≡ done p)
    × ((f : Field) → p.info f ≡ some (texts f))
    × (p.reported ≡ [])
process_argv-command_line_example =
    process_argv-command_line (codes "BackLibWaterRMQ") pre texts pre-padded texts_fit 4
      (omega arith)

-- Two connections in a row, and eighteen arguments more.
abbrev twice : Argv
twice =
    codes "prog"
    ∷ codes "--connection"
    ∷ codes "chp::xa"
    ∷ codes "chp::x1"
    ∷ codes "--connection"
    ∷ codes "chp::xb"
    ∷ codes "chp::x2"
    ∷ replicate 18 (codes "x")

carried :
    (s : List ℕ) (f : Field) (t : List ℕ)
    → 6 ≤ length s
    → drop 6 s ≡ t
    → length t < capacity f
    → Carries 6 s f t
carried s f t l r h = record { long = l; rest = r; fits = h }

one_byte : ℕ → ℕ → Field → List ℕ
one_byte a b hostname = a ∷ []
one_byte a b f = b ∷ []

process_argv_forever_run : process_argv 1000 true twice ≡ out_of_fuel
unfolding one_byte
process_argv_forever_run =
    process_argv_forever (one_byte b'a' b'1') (one_byte b'b' b'2') twice (omega arith) refl
      (
        (_, refl, carried _ hostname _ (omega arith) refl (omega arith)),
        ((_, refl, carried _ port _ (omega arith) refl (omega arith)), tt),
      )
      refl
      (
        (_, refl, carried _ hostname _ (omega arith) refl (omega arith)),
        ((_, refl, carried _ port _ (omega arith) refl (omega arith)), tt),
      )
      1000

-- One connection, where it belongs, and twenty arguments that are no options.
abbrev once : Argv
once =
    codes "prog"
    ∷ codes "--connection"
    ∷ codes "chp::xa"
    ∷ codes "chp::x1"
    ∷ replicate 20 (codes "x")

is_filler :
    (n i : ℕ) {s : List ℕ}
    → get_elem? (replicate n (codes "x")) i ≡ some s
    → option_of s ≡ Opt.invalid
unfolding option_of
is_filler zero i e = cc
is_filler (suc n) zero {s} e =
    subst (λ t. option_of t ≡ Opt.invalid) {x = codes "x"} {y = s} (cc) refl
is_filler (suc n) (suc i) e = is_filler n i e

-- From place 2 on there is no option.
no_more : (i : ℕ) {s : List ℕ} → get_elem? once (suc (suc i)) ≡ some s → option_of s ≡ Opt.invalid
unfolding option_of
no_more zero {s} e = subst (λ t. option_of t ≡ Opt.invalid) {x = codes "chp::xa"} {y = s} (cc) refl
no_more (suc zero) {s} e =
    subst (λ t. option_of t ≡ Opt.invalid) {x = codes "chp::x1"} {y = s} (cc) refl
no_more (suc (suc i)) e = is_filler 20 i e

early :
    (o : Opt) (place : ℕ)
    → o ≢ Opt.invalid
    → 2 ≤ place
    → (i : ℕ) (s : List ℕ) → get_elem? once i ≡ some s
    → option_of s ≡ o
    → i < place
early o place real le zero s e h = omega arith
early o place real le (suc zero) s e h = omega arith
early o place real le (suc (suc i)) s e h = absurd (real (sym h ∙ no_more i e))

once-InPlace : InPlace once
once-InPlace = record {
  connections = early connection 4 (λ e. cc) (omega arith);
  exchanges = early exchange_bind_queue 8 (λ e. cc) (omega arith);
  logins = early login_system 15 (λ e. cc) (omega arith);
}

process_argv-Ends_example : process_argv 25 true once ≢ out_of_fuel
process_argv-Ends_example = process_argv-Ends once true 25 once-InPlace (omega arith)

-- Only messages.
abbrev messages : Argv
messages = codes "prog" ∷ codes "--except_message" ∷ replicate 22 (codes "em::xm")

m_carried : (f : Field) → 1 < capacity f → Carries 5 (codes "em::xm") f (codes "m")
m_carried f h = record { long = omega arith; rest = refl; fits = h }

process_argv_lacks_options_run :
    (p : Parsed) × (process_argv 1 true messages ≡ done p)
    × ((f : Field) → p.info f ≡ (if ltb (place f) 11 then none else some (codes "m")))
    × (p.reported ≡ [])
process_argv_lacks_options_run =
    process_argv_lacks_options (λ f. codes "m") messages (omega arith) refl
      (
        (_, refl, m_carried _ (omega arith)),
        (
          (_, refl, m_carried _ (omega arith)),
          (
            (_, refl, m_carried _ (omega arith)),
            (
              (_, refl, m_carried _ (omega arith)),
              (
                (_, refl, m_carried _ (omega arith)),
                (
                  (_, refl, m_carried _ (omega arith)),
                  (
                    (_, refl, m_carried _ (omega arith)),
                    ((_, refl, m_carried _ (omega arith)), tt),
                  ),
                ),
              ),
            ),
          ),
        ),
      )
      1 (omega arith)

-- A port of ten bytes does not fit `port[10]` with its NUL: the copy is a fault.
long_port : strcpy port (replicate 10 b'1') (λ f. none) ≡ fault out_of_bounds
unfolding strcpy
long_port = refl
