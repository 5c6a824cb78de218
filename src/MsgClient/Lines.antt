-- ===== src/MsgClient/Lines.antt =====
-- Lines of the client of cw06/zad1/client.c, and the server's answers to them.
use mathlib.Core.List.{append-nil}
use agh_so.Prelude.{
  ℕ, ◌+◌, ◌-◌, ◌<◌, ◌≡◌, refl, ap, true, false, List, [], ◌∷◌, ◌++◌, Option, some, arith, length,
  length-append, take-append, reverse,
}
use agh_so.Prelude.Int.{ℤ}
use agh_so.CText.Strings.{NoNul, c_string-append}
use agh_so.CText.{c_string, Text, codes, strtok, cut_token}
use agh_so.MsgServer.{MyMsgBuf, Server, Case, case_of, send, answer, handle}
use agh_so.MsgServer.Registry.{queue_of}
use agh_so.MsgServer.Mirror.{mirror_text-eq-reverse}
use agh_so.MsgServer.Session.{handle-request}
use agh_so.MsgClient.{
  cut_word, after_strtok, operation, Client, Event, line, sigint, message, perform, step, loop,
  finish,
}

NoNul-line : (t : Text) → NoNul t → NoNul (t ++ 10 ∷ [])
NoNul-line [] h = ((λ e. omega arith), tt)
NoNul-line (c ∷ t) (ne, h) = (ne, NoNul-line t h)

c_string-line : (t : Text) → NoNul t → c_string ((t ++ 10 ∷ []) ++ 0 ∷ []) ≡ some (t ++ 10 ∷ [])
c_string-line t h = c_string-append (t ++ 10 ∷ []) [] (NoNul-line t h)

message-line :
    (pid m_type : ℕ) (t : Text)
    → length t < 255
    → message pid m_type (t ++ 10 ∷ []) ≡ some (record { m_type = m_type; pid = pid; msg = t })
unfolding message
message-line pid m_type t h =
    let len : length (t ++ 10 ∷ []) ≡ length t + 1 = length-append t (10 ∷ []) in
    rw (len, take-append t (10 ∷ []) (length t + 1 - 1) (omega arith)) (ground arith)

-- What a request line sends: its text, without the newline.
abbrev pub Sends : ℕ → Client → Text → ℕ → Text → Type 0
Sends pid s word m_type t =
    step pid s (line (word ++ 32 ∷ t ++ 10 ∷ []))
    ≡ some (record s { send = 0 }, record { m_type = m_type; pid = pid; msg = t } ∷ [])

module _ (pid : ℕ) (s : Client) (t : Text) (nul : NoNul t) (h : length t < 255) where
  step-mirror : Sends pid s (codes "MIRROR") 2 t
  unfolding step perform operation after_strtok cut_word strtok cut_token
  step-mirror = rw (c_string-line t nul, message-line pid 2 t h) refl

  step-add : Sends pid s (codes "ADD") 3 t
  unfolding step perform operation after_strtok cut_word strtok cut_token
  step-add = rw (c_string-line t nul, message-line pid 3 t h) refl

  step-mul : Sends pid s (codes "MUL") 4 t
  unfolding step perform operation after_strtok cut_word strtok cut_token
  step-mul = rw (c_string-line t nul, message-line pid 4 t h) refl

  step-sub : Sends pid s (codes "SUB") 5 t
  unfolding step perform operation after_strtok cut_word strtok cut_token
  step-sub = rw (c_string-line t nul, message-line pid 5 t h) refl

  step-div : Sends pid s (codes "DIV") 6 t
  unfolding step perform operation after_strtok cut_word strtok cut_token
  step-div = rw (c_string-line t nul, message-line pid 6 t h) refl

-- A line of MIRROR, ADD, MUL, SUB or DIV with a text that fits is sent as one message of that type
-- with this text.
pub step-requests :
    (pid : ℕ) (s : Client) (t : Text)
    → NoNul t
    → length t < 255
    → Sends pid s (codes "MIRROR") 2 t
      × Sends pid s (codes "ADD") 3 t
      × Sends pid s (codes "MUL") 4 t
      × Sends pid s (codes "SUB") 5 t
      × Sends pid s (codes "DIV") 6 t
step-requests pid s t nul h = (
  step-mirror pid s t nul h,
  step-add pid s t nul h,
  step-mul pid s t nul h,
  step-sub pid s t nul h,
  step-div pid s t nul h,
)

mirror_type : case_of 2 ≡ Case.mirror
unfolding case_of
mirror_type = refl

-- A MIRROR line of a client that the server has registered: the client sends one message, and the
-- server answers it on the client's queue with the text of the line back to front.
pub handle-step_mirror :
    (quotient : ℤ → ℤ → Text) (clock : Text) (server : Server) (pid : ℕ) (q : Option ℤ) (s : Client)
    (t : Text)
    → NoNul t
    → length t < 255
    → queue_of server.client_msg_qs pid ≡ some q
    → (m : MyMsgBuf) × (step pid s (line (codes "MIRROR" ++ 32 ∷ t ++ 10 ∷ []))
        ≡ some (record s { send = 0 }, m ∷ []))
      × (handle quotient clock server m ≡ some (server, send q (record m { msg = reverse t }) ∷ []))
handle-step_mirror quotient clock server pid q s t nul h known =
    let m : MyMsgBuf = record { m_type = 2; pid = pid; msg = t } in
    (
      m,
      step-mirror pid s t nul h,
      handle-request quotient clock server m q (reverse t) (rw mirror_type tt) known
          (rw mirror_type (unfold answer in ap some (mirror_text-eq-reverse t))),
    )

pub message-blank :
    (pid m_type : ℕ)
    → message pid m_type (codes " ") ≡ some (record { m_type = m_type; pid = pid; msg = [] })
unfolding message
message-blank pid m_type = refl

-- A stopped client runs no round.
loop-stopped :
    (pid : ℕ) (s : Client) (es : List Event) → s.client_stop ≡ true → loop pid s es ≡ some (s, [])
unfolding loop
loop-stopped pid s [] e = refl
loop-stopped pid s (x ∷ es) e = simp (e) refl

step-end :
    (pid : ℕ) (s : Client)
    → step pid s (line (codes "END\n"))
      ≡ some
          (record { client_stop = true; send = 1 }, record { m_type = 8; pid = pid; msg = [] } ∷ [])
unfolding step perform operation after_strtok cut_word strtok cut_token
step-end pid s = rw (message-blank pid 8) refl

pub loop-last :
    (pid : ℕ) (s s' : Client) (e : Event) (es : List Event) (sent : List MyMsgBuf)
    → s.client_stop ≡ false
    → s'.client_stop ≡ true
    → step pid s e ≡ some (s', sent)
    → loop pid s (e ∷ es) ≡ some (s', sent)
unfolding loop
loop-last pid s s' e es sent running stopped is =
    simp (running, is, loop-stopped pid s' es stopped, append-nil sent) refl

pub step-sigint :
    (pid : ℕ) (s : Client) → step pid s sigint ≡ some (record s { client_stop = true }, [])
unfolding step
step-sigint pid s = refl

-- How a client that waits for input leaves: after SIGINT it reads no more and sends STOP, after a
-- line END it sends END and no STOP.
leave :
    (pid : ℕ) (s : Client) (es : List Event)
    → s.client_stop ≡ false
    → s.send ≡ 0
    → ((loop pid s (sigint ∷ es) ≡ some (record s { client_stop = true }, []))
        × (finish pid (record s { client_stop = true })
            ≡ some (record { m_type = 9; pid = pid; msg = [] } ∷ [])))
      × ((loop pid s (line (codes "END\n") ∷ es)
            ≡ some (
              record { client_stop = true; send = 1 },
              record { m_type = 8; pid = pid; msg = [] } ∷ [],
            ))
          × (finish pid (record { client_stop = true; send = 1 }) ≡ some []))
unfolding finish
leave pid s es running ready = (
  (
    loop-last pid s (record s { client_stop = true }) sigint es [] running refl (step-sigint pid s),
    simp (ready, message-blank pid 9) refl,
  ),
  (
    loop-last pid s (record { client_stop = true; send = 1 }) (line (codes "END\n")) es _ running
        refl (step-end pid s),
    refl,
  ),
)
