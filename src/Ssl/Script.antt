-- ===== src/Ssl/Script.antt =====
-- The calls that amqp_ssl_connect makes for the options on its command line.
use wate_rmq.Common.{
  ℕ, ◌≡◌, refl, Bool, true, false, List, [], ◌∷◌, ◌++◌, Option, none, some, if◌then◌else◌,
}
use wate_rmq.Argv.{codes, same_string}
use wate_rmq.Session.{
  Call, set_verify_peer, set_verify_hostname, set_ssl_engine, set_key, Library, Session, ◌>>=◌,
}
use wate_rmq.Session.Script.{
  good, Follows, Follows-bind, Follows-then, perform-Follows, pure-Follows,
}
use wate_rmq.Session.Checks.{status-Follows}
use wate_rmq.Ssl.{take_engine, take_flag, take_key}

-- The options behind the CA certificate.
pub record Options : Type 0 where
  pub engine : Option (List ℕ)
  pub verify_peer : Bool
  pub verify_hostname : Bool
  pub key_and_cert : Option (List ℕ × List ℕ)

abbrev pub engine_words : Option (List ℕ) → List (List ℕ)
engine_words none = []
engine_words (some id) = codes "engine" ∷ id ∷ []

abbrev pub key_words : Option (List ℕ × List ℕ) → List (List ℕ)
key_words none = []
key_words (some (key, cert)) = key ∷ cert ∷ []

abbrev pub flag_words : Bool → List ℕ → List (List ℕ)
flag_words on name = if on then name ∷ [] else []

abbrev pub option_words : Options → List (List ℕ)
option_words o =
    engine_words o.engine
    ++ (flag_words o.verify_peer (codes "verifypeer")
        ++ (flag_words o.verify_hostname (codes "verifyhostname") ++ key_words o.key_and_cert))

-- No word that is taken for a key is the name of an option.
abbrev pub NoOption : Option (List ℕ × List ℕ) → Type 0
NoOption none = Unit {0}
NoOption (some (key, cert)) =
    (same_string (codes "engine") key ≡ false)
    × (same_string (codes "verifypeer") key ≡ false)
    × (same_string (codes "verifyhostname") key ≡ false)

abbrev pub engine_calls : Option (List ℕ) → List Call
engine_calls none = []
engine_calls (some id) = set_ssl_engine (some id) ∷ []

abbrev pub flag_calls : Bool → Call → List Call
flag_calls on c = if on then c ∷ [] else []

abbrev pub key_calls : Option (List ℕ × List ℕ) → List Call
key_calls none = []
key_calls (some (key, cert)) = set_key cert key ∷ []

abbrev pub option_calls : Options → List Call
option_calls o =
    engine_calls o.engine
    ++ (flag_calls o.verify_peer (set_verify_peer true)
        ++ (flag_calls o.verify_hostname (set_verify_hostname true) ++ key_calls o.key_and_cert))

take_key-Follows :
    (lib : Library) (k : Option (List ℕ × List ℕ))
    → Follows lib (key_calls k) tt (take_key lib (key_words k))
unfolding take_key
take_key-Follows lib none = pure-Follows lib tt
take_key-Follows lib (some (key, cert)) =
    status-Follows lib (set_key cert key) "setting client key" λ h. refl

-- A word is skipped, whatever stands behind it.
abbrev Skips : List ℕ → List (List ℕ) → Type 0
Skips name [] = Unit {0}
Skips name (w ∷ ws) = same_string name w ≡ false

skipped :
    (lib : Library) (name : List ℕ) (c : Call) (words : List (List ℕ))
    → Skips name words
    → Follows lib [] words (take_flag name c words)
unfolding take_flag
skipped lib name c [] h = pure-Follows lib []
skipped lib name c (w ∷ ws) h = rw h (pure-Follows lib (w ∷ ws))

no_engine :
    (lib : Library) (words : List (List ℕ))
    → Skips (codes "engine") words
    → Follows lib [] words (take_engine words)
unfolding take_engine
no_engine lib [] h = pure-Follows lib []
no_engine lib (w ∷ ws) h = rw h (pure-Follows lib (w ∷ ws))

taken_flag :
    (lib : Library) (name : List ℕ) (c : Call) (words : List (List ℕ))
    → ((h : List Call) → good lib h c ≡ true)
    → same_string name name ≡ true
    → Follows lib (c ∷ []) words (take_flag name c (name ∷ words))
unfolding take_flag
taken_flag lib name c words fine same =
    rw same (Follows-then lib (c ∷ []) [] _ _ (perform-Follows lib c fine) (pure-Follows lib words))

take_flag-Follows :
    (lib : Library) (name : List ℕ) (c : Call) (on : Bool) (words : List (List ℕ))
    → ((h : List Call) → good lib h c ≡ true)
    → same_string name name ≡ true
    → Skips name words
    → Follows lib (flag_calls on c) words (take_flag name c (flag_words on name ++ words))
take_flag-Follows lib name c false words fine same skip = skipped lib name c words skip
take_flag-Follows lib name c true words fine same skip = taken_flag lib name c words fine same

take_engine-Follows :
    (lib : Library) (engine : Option (List ℕ)) (words : List (List ℕ))
    → Skips (codes "engine") words
    → Follows lib (engine_calls engine) words (take_engine (engine_words engine ++ words))
unfolding take_engine same_string
take_engine-Follows lib none words skip = no_engine lib words skip
take_engine-Follows lib (some id) words skip =
    Follows-then lib (set_ssl_engine (some id) ∷ []) [] _ _ (perform-Follows lib _ λ h. refl)
      (pure-Follows lib words)

Skips-flag :
    (name other : List ℕ) (on : Bool) (words : List (List ℕ))
    → same_string name other ≡ false
    → Skips name words
    → Skips name (flag_words on other ++ words)
Skips-flag name other true words differ h = differ
Skips-flag name other false words differ h = h

Skips-key :
    (k : Option (List ℕ × List ℕ))
    → NoOption k
    → Skips (codes "engine") (key_words k)
      × Skips (codes "verifypeer") (key_words k)
      × Skips (codes "verifyhostname") (key_words k)
Skips-key none h = (tt, tt, tt)
Skips-key (some (key, cert)) h = h

-- What is done with the words behind the CA certificate.
abbrev pub take_options : Library → List (List ℕ) → Session (Unit {0})
take_options lib words = take_engine words >>= λ words.
    take_flag (codes "verifypeer") (set_verify_peer true) words >>= λ words'.
    take_flag (codes "verifyhostname") (set_verify_hostname true) words' >>= λ words''.
    take_key lib words''

pub options-Follows :
    (lib : Library) (o : Options)
    → NoOption o.key_and_cert
    → Follows lib (option_calls o) tt (take_options lib (option_words o))
unfolding same_string
options-Follows lib o free =
    let (e, p, h) = Skips-key o.key_and_cert free in
    Follows-bind lib (engine_calls o.engine) _ _ _
      (take_engine-Follows lib o.engine _ (
        Skips-flag (codes "engine") _ o.verify_peer _ refl
          (Skips-flag (codes "engine") _ o.verify_hostname (key_words o.key_and_cert) refl e)))
      (Follows-bind lib (flag_calls o.verify_peer (set_verify_peer true)) _ _ _
        (take_flag-Follows lib (codes "verifypeer") (set_verify_peer true) o.verify_peer _
          (λ k. refl) refl
          (Skips-flag (codes "verifypeer") _ o.verify_hostname (key_words o.key_and_cert) refl p))
        (Follows-bind lib (flag_calls o.verify_hostname (set_verify_hostname true)) _ _ _
          (take_flag-Follows lib (codes "verifyhostname") (set_verify_hostname true)
            o.verify_hostname _ (λ k. refl) refl h)
          (take_key-Follows lib o.key_and_cert)))
