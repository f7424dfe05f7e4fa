-- ===== src/Argv/Steps.antt =====
-- One round of the loop of `processArgv`, and the copies of one of its cases.
use wate_rmq.Common.{
  ℕ, suc, ◌+◌, ◌≡◌, ◌≤◌, ◌<◌, refl, List, [], ◌∷◌, ◌++◌, some, arith, if◌then◌else◌, length, drop,
  get_elem?, length-append, drop-length_append,
}
use wate_rmq.Argv.{
  done, connection, exchange_bind_queue, login_system, except_message, option_of, Informations,
  Argv, argument, copy_all, connection_fields, exchange_fields, login_fields, except_fields, Parsed,
  consume, dispatch, parse_loop,
}
use wate_rmq.Argv.Fields.{Field, capacity, same_field}

-- The argument `s` holds the text `t` behind its padding, and `t` fits the array `f`.
pub record Carries (padding : ℕ) (s : List ℕ) (f : Field) (t : List ℕ) : Type 0 where
  pub long : padding ≤ length s
  pub rest : drop padding s ≡ t
  pub fits : length t < capacity f

-- Each field of the case finds its text among the arguments.
abbrev pub Supplies : (Field → List ℕ) → ℕ → Argv → ℕ → List (Field × ℕ) → Type 0
Supplies texts padding argv cpt [] = Unit {0}
Supplies texts padding argv cpt ((f, i) ∷ more) =
    ((s : List ℕ) × (get_elem? argv (cpt + i) ≡ some s) × Carries padding s f (texts f))
    × Supplies texts padding argv cpt more

-- The arrays after the copies of one case.
abbrev pub written : (Field → List ℕ) → List (Field × ℕ) → Informations → Informations
written texts [] info = info
written texts ((f, i) ∷ more) info =
    written texts more (λ g. if same_field f g then some (texts f) else info g)

pub argument-ok :
    (argv : Argv) (i : ℕ) {s : List ℕ} → get_elem? argv i ≡ some s → argument argv i ≡ done s
unfolding argument
argument-ok argv i e = ground arith

pub copy_all-written :
    (texts : Field → List ℕ) (padding : ℕ) (argv : Argv) (cpt : ℕ) (fields : List (Field × ℕ))
    (info : Informations)
    → Supplies texts padding argv cpt fields
    → copy_all padding argv cpt fields info ≡ done (written texts fields info)
unfolding copy_all
copy_all-written texts padding argv cpt [] info h = refl
copy_all-written texts padding argv cpt ((f, i) ∷ more) info ((s, found, c), h) = ground (
  arith,
  argument-ok argv (cpt + i) found,
  c.long,
  c.rest,
  c.fits,
  copy_all-written texts padding argv cpt more
      (λ g. if same_field f g then some (texts f) else info g) h,
)

pub Carries-append :
    (pre t : List ℕ) (f : Field) → length t < capacity f → Carries (length pre) (pre ++ t) f t
Carries-append pre t f fits = record {
  long = omega (arith, length-append pre t);
  rest = drop-length_append pre t;
  fits = fits;
}

module _ (texts : Field → List ℕ) (fuel : ℕ) (argv : Argv) (cpt : ℕ) (p : Parsed) {opt : List ℕ}
    (found : get_elem? argv cpt ≡ some opt) where
  pub step_connection :
      option_of opt ≡ connection
      → Supplies texts 6 argv cpt connection_fields
      → parse_loop (suc fuel) argv cpt p
        ≡ parse_loop fuel argv 4 (record p { info = written texts connection_fields p.info })
  unfolding parse_loop dispatch
  step_connection e h =
      rw (
        argument-ok argv cpt found,
        e,
        copy_all-written texts 6 argv cpt connection_fields p.info h,
      )

  pub step_exchange :
      option_of opt ≡ exchange_bind_queue
      → Supplies texts 6 argv cpt exchange_fields
      → parse_loop (suc fuel) argv cpt p
        ≡ parse_loop fuel argv 8 (record p { info = written texts exchange_fields p.info })
  unfolding parse_loop dispatch
  step_exchange e h =
      rw (argument-ok argv cpt found, e, copy_all-written texts 6 argv cpt exchange_fields p.info h)

  pub step_login :
      option_of opt ≡ login_system
      → Supplies texts 5 argv cpt login_fields
      → parse_loop (suc fuel) argv cpt p
        ≡ parse_loop fuel argv 15 (record p { info = written texts login_fields p.info })
  unfolding parse_loop dispatch
  step_login e h =
      rw (argument-ok argv cpt found, e, copy_all-written texts 5 argv cpt login_fields p.info h)

  pub step_except :
      option_of opt ≡ except_message
      → Supplies texts 5 argv cpt except_fields
      → parse_loop (suc fuel) argv cpt p
        ≡ done (record p {
          info = written texts except_fields p.info;
          last = consume (drop (cpt + 7) argv) (cpt + 7);
        })
  unfolding parse_loop dispatch
  step_except e h =
      rw (argument-ok argv cpt found, e, copy_all-written texts 5 argv cpt except_fields p.info h)
