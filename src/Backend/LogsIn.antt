-- ===== src/Backend/LogsIn.antt =====
-- What `configurationLogin_WateRMQ_public` of BackLibWaterRMQ.c comes to.
use wate_rmq.Common.{
  ℕ, ◌≡◌, ◌≤◌, ◌⊎◌, refl, true, false, List, [], ◌∷◌, ◌++◌, some, ℤ, pos, length, inl, inr,
  Bool-cases,
}
use wate_rmq.Memory.{Ptr, World, Run, Cmd, string_at, str, read_string}
use wate_rmq.Memory
use wate_rmq.Memory.Frame.{IsSound, Extends, string_at-Extends, read_string-ok}
use wate_rmq.Machine.{Ending, ok, exited, ◌>>◌, pure}
use wate_rmq.Config.{WateRmq, Login, ExceptionHandling}
use wate_rmq.Config.Strings.{Owns, OwnBlock-string_at}
use wate_rmq.Configure.{overwrite}
use wate_rmq.Configure.Init.{bind_ok}
use wate_rmq.Configure.Overwrite.{laid}
use wate_rmq.Configure.Jobs.{Job, overwrite_back, overwrite_back-Writes}
use wate_rmq.Configure.Lays.{Lays, Writes-Lays, job, ready}
use wate_rmq.Session.{Call, Library, complaint}
use wate_rmq.Session.Script.{is_normal, complained}
use wate_rmq.Start.{die_with}
use wate_rmq.Start.Script.{die_with-normal, die_with-bad}
use wate_rmq.Backend.{State, Back, lift, in_session, log_of, logged, log_in_with, configure_login}
use wate_rmq.Backend.Calls.{login_call}
use wate_rmq.Backend.Connects.{member-some}

-- Three calls on memory that end, one after the other.
three :
    {A : Type 0} (a b c : Cmd (Unit {0})) (k : Back A) (s : State) {v : World}
    → Memory.◌>>◌ (Memory.◌>>◌ a b) c s.world ≡ Memory.ok tt v
    → (lift a >> (lift b >> (lift c >> k))) s ≡ k (record s { world = v })
three a b c k s e =
    let (_, w2, e2, e3) = bind_ok (Memory.◌>>◌ a b s.world) (λ _. c) e in
    let (_, w1, e1, e2') = bind_ok (a s.world) (λ _. b) e2 in rw e1 (rw e2' (rw e3 refl))

module _ (lib : Library) (i : WateRmq) (login : Login) (x : ExceptionHandling)
    (host username password : Ptr) (h u p h' u' p' m : List ℕ)
    (channel_max frame_max heartbeat sasl_method : ℤ) (w0 : World) (s : State) where
  abbrev new : Login
  new = record login {
    channel_max = channel_max;
    frame_max = frame_max;
    heartbeat = heartbeat;
    sasl_method = sasl_method;
  }

  abbrev calls : List Call
  calls = s.calls ++ login_call new (laid h' h) (laid u' u) (laid p' p) ∷ []

  abbrev jobs : List Job
  jobs =
      job login.password password p p'
      ∷ job login.username username u u'
      ∷ job login.host host h h'
      ∷ []

  abbrev texts : List (Ptr × List ℕ)
  texts = (login.password, laid p' p) ∷ (login.username, laid u' u) ∷ (login.host, laid h' h) ∷ []

  -- The strings are laid over the old ones, and the library has been asked to log in with what the
  -- copies left.
  pub record LogsIn (r : Ending State WateRmq) : Type 0 where
    pub world : World
    pub owns : Owns w0 world texts
    pub extends : Extends w0 world
    pub how :
        ((is_normal (lib.reply calls) ≡ true)
          × (r
              ≡ ok
                  (record i { conf_login = some new })
                  (record s { world = world; calls = calls })))
        ⊎ ((is_normal (lib.reply calls) ≡ false)
            × ((t : State) × (t.calls ≡ calls) × (r ≡ exited (pos 1) t)))

  module _ (sound : IsSound w0) (ext : Extends w0 s.world) (has_login : i.conf_login ≡ some login)
      (has_messages : i.except ≡ some x) (message_at : string_at w0 x.login_message ≡ some m)
      (own : Owns w0 s.world ((login.password, p) ∷ (login.username, u) ∷ (login.host, h) ∷ []))
      (host_at : string_at w0 host ≡ some h') (username_at : string_at w0 username ≡ some u')
      (password_at : string_at w0 password ≡ some p') (lh : length h' ≤ length h)
      (lu : length u' ≤ length u) (lp : length p' ≤ length p) where
    lays : Lays w0 texts (overwrite_back jobs s.world)
    lays = Writes-Lays texts ext refl (
        overwrite_back-Writes s.world.next jobs sound ext
          (
            ready password password_at lp,
            (ready username username_at lu, (ready host host_at lh, tt)),
          )
          own.owned)

    abbrev there : State
    there = record s { world = lays.world }

    laid_out :
        configure_login lib i host channel_max frame_max heartbeat sasl_method username password s
        ≡ (log_in_with lib i new >> pure (record i { conf_login = some new })) there
    unfolding configure_login
    laid_out = rw (member-some i.conf_login has_login) (
        three (overwrite login.host host) (overwrite login.username username)
          (overwrite login.password password) _ s lays.result)

    -- The copies are read.
    password_read : read_string login.password lays.world ≡ Memory.ok (laid p' p) lays.world
    password_read = read_string-ok lays.world login.password (OwnBlock-string_at lays.owns.owned.0)

    username_read : read_string login.username lays.world ≡ Memory.ok (laid u' u) lays.world
    username_read =
        read_string-ok lays.world login.username (OwnBlock-string_at lays.owns.owned.1.0)

    host_read : read_string login.host lays.world ≡ Memory.ok (laid h' h) lays.world
    host_read = read_string-ok lays.world login.host (OwnBlock-string_at lays.owns.owned.1.1.0)

    abbrev asked : State
    asked = record s { world = lays.world; calls = calls }

    -- The test of the reply, whatever is done behind it.
    replied :
        log_in_with lib i new there
        ≡ in_session (die_with lib lays.world (lib.reply calls) x.login_message) asked
    unfolding log_in_with
    replied = rw (host_read, username_read, password_read, member-some i.except has_messages) refl

    -- On an instance with a login struct that was made since `w0`, and with strings from before that
    -- are not longer than those they replace, each string is laid over the old one, and the library is
    -- asked to log in with the numbers given and with what the copies left. With a normal reply the
    -- instance has the numbers; with any other the program exits with 1.
    pub configure_login-LogsIn :
        LogsIn (
          configure_login lib i host channel_max frame_max heartbeat sasl_method username password
            s)
    configure_login-LogsIn = record {
      world = lays.world;
      owns = lays.owns;
      extends = lays.extends;
      how = elim (Bool-cases (is_normal (lib.reply calls))) [
        | inl fine ↦ inl (
          fine,
          rw
              (
                laid_out,
                replied,
                die_with-normal lib lays.world (lib.reply calls) x.login_message (log_of asked)
                    fine,
              )
              refl,
        )
        | inr bad ↦ inr (
          bad,
          (
            logged (complained (str m ∷ complaint lib (lib.reply calls)) (log_of asked)) asked,
            refl,
            rw
                (
                  laid_out,
                  replied,
                  die_with-bad lib lays.world (lib.reply calls) x.login_message {s = m}
                      (log_of asked)
                      (string_at-Extends x.login_message sound lays.extends message_at) bad,
                )
                refl,
          ),
        )
      ];
    }
