-- ===== src/Consumer/Balance.antt =====
-- The envelopes and messages that the library hands out, and those given back to it.
use wate_rmq.Common.{
  ℕ, ◌+◌, ◌≡◌, refl, sym, ◌∙◌, ap, subst, Bool, true, false, List, [], ◌∷◌, ◌++◌, append_assoc,
  append-nil, ℤ, pos, eqb_ℤ, if◌then◌else◌, inl, inr, Bool-cases, arith,
}
use wate_rmq.Session.{
  Call, consume_message, destroy_message, destroy_envelope, simple_wait_frame, read_message, Reply,
  normal, no_reply, library_exception, server_exception, Frame, basic_ack, channel_close_frame,
  connection_close_frame, other_frame, basic_return, unexpected_method, Library, Log, Result, ok,
  called,
}
use wate_rmq.Session.Script.{is_normal}
use wate_rmq.Consumer.{amqp_status_unexpected_state, on_returned, on_frame, on_status, on_reply}

-- How many of the calls, made after the calls `h`, are such as `p` says.
abbrev pub count : (List Call → Call → Bool) → List Call → List Call → ℕ
count p h [] = 0
count p h (c ∷ cs) = (if p (h ++ c ∷ []) c then 1 else 0) + count p (h ++ c ∷ []) cs

pub count-append :
    (p : List Call → Call → Bool) (h cs ds : List Call)
    → count p h (cs ++ ds) ≡ count p h cs + count p (h ++ cs) ds
count-append p h [] ds = omega (arith, ap (λ k. count p k ds) (append-nil h))
count-append p h (c ∷ cs) ds =
    omega (
      arith,
      count-append p (h ++ c ∷ []) cs ds,
      ap (λ k. count p k ds) (append_assoc h (c ∷ []) cs),
    )

-- The calls that hand out an envelope or a message, and those that give one back.
abbrev pub gets_envelope : Library → List Call → Call → Bool
gets_envelope lib h consume_message = is_normal (lib.reply h)
gets_envelope lib h _ = false

abbrev pub gives_envelope : List Call → Call → Bool
gives_envelope h destroy_envelope = true
gives_envelope h _ = false

abbrev pub gets_message : Library → List Call → Call → Bool
gets_message lib h (read_message _) = is_normal (lib.reply h)
gets_message lib h _ = false

abbrev pub gives_message : List Call → Call → Bool
gives_message h destroy_message = true
gives_message h _ = false

-- The calls `cs` give back `debt` envelopes more than they get, and as many messages as they get.
pub record Repays (lib : Library) (debt : ℕ) (h cs : List Call) : Type 0 where
  pub envelopes : count (gets_envelope lib) h cs + debt ≡ count gives_envelope h cs
  pub messages : count (gets_message lib) h cs ≡ count gives_message h cs

pub Repays-append :
    (lib : Library) (d e : ℕ) (h cs ds : List Call)
    → Repays lib d h cs
    → Repays lib e (h ++ cs) ds
    → Repays lib (d + e) h (cs ++ ds)
Repays-append lib d e h cs ds p q = record {
  envelopes = omega (
    arith,
    p.envelopes,
    q.envelopes,
    count-append (gets_envelope lib) h cs ds,
    count-append gives_envelope h cs ds,
  );
  messages = omega (
    arith,
    p.messages,
    q.messages,
    count-append (gets_message lib) h cs ds,
    count-append gives_message h cs ds,
  );
}

-- A run that returned.
pub record Does {A : Type 0} (lib : Library) (debt : ℕ) (l : Log) (r : Result A) : Type 0 where
  pub value : A
  pub log : Log
  pub new : List Call
  pub result : r ≡ ok value log
  pub calls : log.calls ≡ l.calls ++ new
  pub repays : Repays lib debt l.calls new

no_calls :
    {A : Type 0} (lib : Library) (l l' : Log) (a : A) → l'.calls ≡ l.calls → Does lib 0 l (ok a l')
no_calls lib l l' a e = record {
  value = a;
  log = l';
  new = [];
  result = refl;
  calls = e ∙ sym (append-nil l.calls);
  repays = record { envelopes = refl; messages = refl };
}

on_returned-Does :
    (lib : Library) (channel : ℕ) (l : Log) (r : Reply)
    → lib.reply (l.calls ++ read_message channel ∷ []) ≡ r
    → Does lib 0 l (on_returned r (called (read_message channel) l))
unfolding on_returned
on_returned-Does lib channel l normal e = record {
  value = true;
  log = called destroy_message (called (read_message channel) l);
  new = read_message channel ∷ destroy_message ∷ [];
  result = refl;
  calls = append_assoc l.calls _ _;
  repays = record { envelopes = refl; messages = rw e refl };
}
on_returned-Does lib channel l no_reply e = record {
  value = false;
  log = called (read_message channel) l;
  new = read_message channel ∷ [];
  result = refl;
  calls = refl;
  repays = record { envelopes = refl; messages = rw e refl };
}
on_returned-Does lib channel l (library_exception x) e = record {
  value = false;
  log = called (read_message channel) l;
  new = read_message channel ∷ [];
  result = refl;
  calls = refl;
  repays = record { envelopes = refl; messages = rw e refl };
}
on_returned-Does lib channel l (server_exception m) e = record {
  value = false;
  log = called (read_message channel) l;
  new = read_message channel ∷ [];
  result = refl;
  calls = refl;
  repays = record { envelopes = refl; messages = rw e refl };
}

on_frame-Does : (lib : Library) (f : Frame) (l : Log) → Does lib 0 l (on_frame lib f l)
unfolding on_frame
on_frame-Does lib basic_ack l = no_calls lib l l true refl
on_frame-Does lib (basic_return channel) l = on_returned-Does lib channel l _ refl
on_frame-Does lib channel_close_frame l = no_calls lib l l false refl
on_frame-Does lib connection_close_frame l = no_calls lib l l false refl
on_frame-Does lib other_frame l = no_calls lib l l true refl
on_frame-Does lib (unexpected_method id) l = no_calls lib l _ false refl

-- A call first, which neither gets nor gives back anything.
pub after_call :
    {A : Type 0} (lib : Library) (debt : ℕ) (c : Call) (l : Log) {r : Result A}
    → Repays lib 0 l.calls (c ∷ [])
    → Does lib debt (called c l) r
    → Does lib debt l r
after_call lib debt c l plain d = record {
  value = d.value;
  log = d.log;
  new = c ∷ d.new;
  result = d.result;
  calls = d.calls ∙ append_assoc l.calls (c ∷ []) d.new;
  repays =
      subst (λ n. Repays lib n l.calls (c ∷ d.new)) {x = 0 + debt} {y = debt} (omega arith)
        (Repays-append lib 0 debt l.calls (c ∷ []) d.new plain d.repays);
}

on_status-Does :
    (lib : Library) (status : ℤ) (f : Frame) (l : Log) → Does lib 0 l (on_status lib status f l)
unfolding on_status
on_status-Does lib status f l = elim (Bool-cases (eqb_ℤ status (pos 0))) [
  | inl fine ↦ rw fine (on_frame-Does lib f l)
  | inr bad ↦ rw bad (no_calls lib l l false refl)
]

-- What a reply of `amqp_consume_message` obliges `run` to give back.
abbrev pub owed : Reply → ℕ
owed r = if is_normal r then 1 else 0

pub on_reply-Does : (lib : Library) (r : Reply) (l : Log) → Does lib (owed r) l (on_reply lib r l)
unfolding on_reply
on_reply-Does lib normal l = record {
  value = true;
  log = called destroy_envelope l;
  new = destroy_envelope ∷ [];
  result = refl;
  calls = refl;
  repays = record { envelopes = refl; messages = refl };
}
on_reply-Does lib (library_exception e) l =
    elim (Bool-cases (eqb_ℤ e amqp_status_unexpected_state)) [
      | inl fine ↦ rw fine (
          after_call lib 0 simple_wait_frame l (record { envelopes = refl; messages = refl })
            (on_status-Does lib _ _ (called simple_wait_frame l)))
      | inr bad ↦ rw bad (no_calls lib l l true refl)
    ]
on_reply-Does lib no_reply l = no_calls lib l l true refl
on_reply-Does lib (server_exception m) l = no_calls lib l l true refl
