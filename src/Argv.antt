-- ===== src/Argv.antt =====
-- The command line of BackLibWaterRMQ.c: `getOptionObligatoireHaHaByOpt`, `Informations` and
-- `processArgv`. A string is its bytes before the NUL; `argv[argc]` is NULL.
pub mod Fields
pub mod Steps
pub mod RoundTrip
pub mod Loop
pub mod Missing
mod Tests
use Prim.Native.Char.{code}
use Prim.Native.String.{String}
use wate_rmq.Common.{
  ℕ, zero, suc, ◌+◌, ◌<◌, Bool, true, false, ◌&&◌, List, [], ◌∷◌, ◌++◌, Option, none, some, ltb,
  leb, ◌==◌, if◌then◌else◌, length, drop, get_elem?,
}
use wate_rmq.Memory.{Fault, null_access, out_of_bounds}
use Fields.{
  Field, hostname, port, exchange_name, binding_key, queuename, v_host, channel_max, frame_max,
  heartbeat, username, password, login_message, opening_channel_message, queue_message,
  binding_message, consuming_message, closing_channel_message, closing_connection_message,
  ending_connection_message, capacity, same_field,
}

-- How `processArgv` ends; `out_of_fuel` only tells that its loop had more rounds to make.
pub data Outcome (A : Type 0) : Type 0 where
  done : A → Outcome A
  exited : ℕ → Outcome A
  fault : Fault → Outcome A
  out_of_fuel : Outcome A

infixl 5 ◌>>=◌
abbrev pub ◌>>=◌ : {A B : Type 0} → Outcome A → (A → Outcome B) → Outcome B
done a >>= f = f a
exited n >>= f = exited n
fault e >>= f = fault e
out_of_fuel >>= f = out_of_fuel

pub data Opt : Type 0 where
  invalid connection exchange_bind_queue login_system except_message : Opt

abbrev pub codes : String → List ℕ
codes String.[] = []
codes (String.◌∷◌ c s) = code c ∷ codes s

-- `strcmp(a, b) == 0`.
unfoldable pub same_string : List ℕ → List ℕ → Bool
same_string [] [] = true
same_string (a ∷ as') (b ∷ bs) = a == b && same_string as' bs
same_string _ _ = false

unfoldable pub option_of : List ℕ → Opt
unfolding same_string
option_of opt =
    if same_string opt (codes "--connection")
    then connection
    else if same_string opt (codes "--exchange_bind_queue")
    then exchange_bind_queue
    else if same_string opt (codes "--login_system")
    then login_system
    else if same_string opt (codes "--except_message")
    then except_message
    else invalid

-- The arrays of `Informations`: what `strcpy` has put there, `none` before.
abbrev pub Informations : Type 0
Informations = Field → Option (List ℕ)

abbrev pub Argv : Type 0
Argv = List (List ℕ)

-- `argv[i]`, where a string is wanted.
unfoldable pub argument : Argv → ℕ → Outcome (List ℕ)
argument argv i = elim (get_elem? argv i) [
  | some s ↦ done s
  | none ↦ if i == length argv then fault null_access else fault out_of_bounds
]

-- `padding + s`: past the NUL nothing may be read.
unfoldable pub skip : ℕ → List ℕ → Outcome (List ℕ)
skip padding s = if leb padding (length s) then done (drop padding s) else fault out_of_bounds

-- `strcpy(info->f, s)`: the string and its NUL have to fit.
unfoldable pub strcpy : Field → List ℕ → Informations → Outcome Informations
strcpy f s info =
    if ltb (length s) (capacity f)
    then done (λ g. if same_field f g then some s else info g)
    else fault out_of_bounds

-- The `strcpy` calls of one case: each field takes the argument so many places behind `argv[cpt]`.
unfoldable pub copy_all : ℕ → Argv → ℕ → List (Field × ℕ) → Informations → Outcome Informations
unfolding argument skip strcpy
copy_all padding argv cpt [] info = done info
copy_all padding argv cpt ((f, i) ∷ more) info = argument argv (cpt + i) >>= λ s.
    skip padding s >>= λ t. strcpy f t info >>= λ info'. copy_all padding argv cpt more info'

abbrev pub connection_fields : List (Field × ℕ)
connection_fields = (hostname, 1) ∷ (port, 2) ∷ []

abbrev pub exchange_fields : List (Field × ℕ)
exchange_fields = (exchange_name, 1) ∷ (binding_key, 2) ∷ (queuename, 3) ∷ []

abbrev pub login_fields : List (Field × ℕ)
login_fields =
    (v_host, 1)
    ∷ (channel_max, 2)
    ∷ (frame_max, 3)
    ∷ (heartbeat, 4)
    ∷ (username, 5)
    ∷ (password, 6)
    ∷ []

abbrev pub except_fields : List (Field × ℕ)
except_fields =
    (login_message, 1)
    ∷ (opening_channel_message, 2)
    ∷ (queue_message, 3)
    ∷ (binding_message, 4)
    ∷ (consuming_message, 5)
    ∷ (closing_channel_message, 6)
    ∷ (closing_connection_message, 7)
    ∷ (ending_connection_message, 8)
    ∷ []

-- What `processArgv` has: the arrays, the arguments that it has printed as INVALID, and the value
-- of `cpt` when it has ended.
pub record Parsed : Type 0 where
  pub info : Informations
  pub last : ℕ
  pub reported : List (List ℕ)

-- `while(argv[cpt++]);` over the arguments from `cpt` on: it stops at the NULL behind the last one.
unfoldable pub consume : List (List ℕ) → ℕ → ℕ
consume [] cpt = cpt + 1
consume (s ∷ rest) cpt = consume rest (cpt + 1)

-- The `switch` of `processArgv` at the argument `opt`; `again` goes on with the loop.
unfoldable pub dispatch :
    (ℕ → Parsed → Outcome Parsed) → Argv → ℕ → Parsed → List ℕ → Opt → Outcome Parsed
dispatch again argv cpt p opt connection =
    copy_all 6 argv cpt connection_fields p.info >>= λ info. again 4 (record p { info = info })
dispatch again argv cpt p opt exchange_bind_queue =
    copy_all 6 argv cpt exchange_fields p.info >>= λ info. again 8 (record p { info = info })
dispatch again argv cpt p opt login_system =
    copy_all 5 argv cpt login_fields p.info >>= λ info. again 15 (record p { info = info })
dispatch again argv cpt p opt except_message = copy_all 5 argv cpt except_fields p.info >>= λ info.
    done (record p { info = info; last = consume (drop (cpt + 7) argv) (cpt + 7) })
dispatch again argv cpt p opt invalid =
    again (cpt + 1) (record p { reported = p.reported ++ opt ∷ [] })

-- The loop of `processArgv`, from `cpt` on.
unfoldable pub parse_loop : ℕ → Argv → ℕ → Parsed → Outcome Parsed
parse_loop zero argv cpt p = out_of_fuel
parse_loop (suc fuel) argv cpt p =
    argument argv cpt >>= λ opt. dispatch (parse_loop fuel argv) argv cpt p opt (option_of opt)

-- `granted` tells whether `malloc` gave the struct.
unfoldable pub process_argv : ℕ → Bool → Argv → Outcome Parsed
process_argv fuel granted argv =
    if granted
    then if ltb (length argv) 24
      then exited 1
      else parse_loop fuel argv 1 (record { info = λ f. none; last = 1; reported = [] })
    else exited 1
