-- ===== src/MqClient/Whole.antt =====
-- A session of the client of cw06/zad2/client.c with the server of cw06/zad2/server.c.
use mathlib.Core.Path.{subst}
use agh_so.Prelude.{
  sym, ℕ_discrete, ℕ, ◌<◌, ◌≡◌, refl, ◌∙◌, ◌≢◌, List, [], ◌∷◌, ◌++◌, some, none, false, length,
  reverse, ap,
}
use agh_so.Prelude.Int.{ℤ, pos}
use agh_so.CText.{Text, codes, print_int}
use agh_so.MsgServer.{MyMsgBuf, Server, Case, case_of, Round, answer, max_no_of_clients}
use agh_so.MsgServer.Slots.{Taken}
use agh_so.MsgServer.Mirror.{mirror_text-eq-reverse}
use agh_so.MsgServer.Registry.{queue_of}
use agh_so.MsgServer.Invariant.{IsValid, registered}
use agh_so.MqServer.{Sent as Answer, priority_of, send, q_path, handle, round, serve}
use agh_so.MqServer.Session.{mq_handle-start, mq_handle-request, mq_handle-stop}
use agh_so.MsgClient.{Client, line, sigint, loop, finish, run}
use agh_so.MsgClient.Lines.{step-requests, step-sigint, message-blank}
use agh_so.CText.Strings.{NoNul}
use agh_so.MqClient.{Sent, mq_run}

-- The server receives a client's messages one after the other.
abbrev pub rounds_of : Text → List Sent → List Round
rounds_of clock [] = []
rounds_of clock ((m, priority) ∷ ms) =
    record { received = some m; clock = clock; server_stop = false } ∷ rounds_of clock ms

-- The messages of a client that mirrors one text and is stopped.
abbrev pub visit : ℕ → ℕ → Text → List Sent
visit pid d t =
    (record { m_type = 1; pid = pid; msg = print_int (pos d) }, 1)
    ∷ (record { m_type = 2; pid = pid; msg = t }, 1)
    ∷ (record { m_type = 9; pid = pid; msg = [] }, 1)
    ∷ []

mq_run-visit :
    (pid d : ℕ) (t : Text)
    → NoNul t
    → length t < 255
    → mq_run pid d (line (codes "MIRROR" ++ 32 ∷ t ++ 10 ∷ []) ∷ sigint ∷ []) ≡ some (visit pid d t)
unfolding mq_run run loop finish
mq_run-visit pid d t nul h =
    let s : Client = record { client_stop = false; send = 0 } in
    simp ((step-requests pid s t nul h).0, step-sigint pid s, message-blank pid 9) refl

start_label : case_of 1 ≡ Case.start
unfolding case_of
start_label = refl

mirror_label : case_of 2 ≡ Case.mirror
unfolding case_of
mirror_label = refl

mirror_priority : priority_of (case_of 2) ≡ 1
unfolding case_of priority_of
mirror_priority = refl

stop_label : case_of 9 ≡ Case.stop
unfolding case_of
stop_label = refl

module _ (mq_open : Text → ℤ) (quotient : ℤ → ℤ → Text) (clock : Text) where
  -- Three messages in a row.
  serve-three :
      (s s1 s2 s3 : Server) (a b c : MyMsgBuf) (x y z : List Answer)
      → s.server_end ≡ false
      → s1.server_end ≡ false
      → s2.server_end ≡ false
      → handle mq_open quotient clock s a ≡ some (s1, x)
      → handle mq_open quotient clock s1 b ≡ some (s2, y)
      → handle mq_open quotient clock s2 c ≡ some (s3, z)
      → serve mq_open quotient s (rounds_of clock ((a, 1) ∷ (b, 1) ∷ (c, 1) ∷ []))
        ≡ some (s3, x ++ (y ++ (z ++ [])))
  unfolding serve round
  serve-three s s1 s2 s3 a b c x y z e e1 e2 h h1 h2 = simp (e, h, e1, h1, e2, h2) refl

-- A client that mirrors one text and is stopped, on a server that has a free slot and does not know
-- it: the server answers START and MIRROR on the queue named by the client's pid, with the number of
-- a slot and the text back to front, and its registry is that of before.
pub serve-mq_run :
    (mq_open : Text → ℤ) (quotient : ℤ → ℤ → Text) (clock : Text) (s : Server) (pid d : ℕ)
    (t : Text)
    → IsValid s
    → s.server_end ≡ false
    → pid ≢ 0
    → queue_of s.client_msg_qs pid ≡ none
    → ¬ Taken s.client_msg_qs max_no_of_clients
    → NoNul t
    → length t < 255
    → let q = mq_open (q_path pid) in
      (ms : List Sent) × (mq_run pid d (line (codes "MIRROR" ++ 32 ∷ t ++ 10 ∷ []) ∷ sigint ∷ [])
        ≡ some ms)
      × (s' : Server) × (c : ℕ) × (serve mq_open quotient s (rounds_of clock ms)
          ≡ some (
            s',
            send (some q) (record { m_type = 1; pid = pid; msg = print_int (pos c) }) 1
                ∷ send (some q) (record { m_type = 2; pid = pid; msg = reverse t }) 1
                ∷ [],
          ))
      × (queue_of s'.client_msg_qs pid ≡ none)
      × ((p : ℕ) → p ≢ 0 → queue_of s'.client_msg_qs p ≡ queue_of s.client_msg_qs p)
serve-mq_run mq_open quotient clock s pid d t v running nz new room nul h =
    let q = mq_open (q_path pid) in
    let hello : MyMsgBuf = record { m_type = 1; pid = pid; msg = print_int (pos d) } in
    let text : MyMsgBuf = record { m_type = 2; pid = pid; msg = t } in
    let bye : MyMsgBuf = record { m_type = 9; pid = pid; msg = [] } in
    let (c, _, started, joined, valid) =
      mq_handle-start mq_open quotient clock s hello v start_label nz new room in
    let s1 = registered s hello c q in
    let mirrored =
      mq_handle-request mq_open quotient clock s1 text (some q) (reverse t) (rw mirror_label tt)
        joined.entry (rw mirror_label (unfold answer in ap some (mirror_text-eq-reverse t)))
      ∙ ap (λ k. some (s1, send (some q) (record text { msg = reverse t }) k ∷ []))
          mirror_priority in
    let (s2, stopped, gone, others, _) =
      mq_handle-stop mq_open quotient clock s1 bye (some q) valid stop_label nz joined.entry in
    (
      visit pid d t,
      mq_run-visit pid d t nul h,
      s2,
      c,
      serve-three mq_open quotient clock s s1 s1 s2 hello text bye _ _ _ running running running
          started mirrored stopped,
      gone,
      restored s s1 s2 new gone joined.others others,
    )
  where
    restored :
        (before after final : Server)
        → queue_of before.client_msg_qs pid ≡ none
        → queue_of final.client_msg_qs pid ≡ none
        → ((p : ℕ)
            → p ≢ 0
            → p ≢ pid
            → queue_of after.client_msg_qs p ≡ queue_of before.client_msg_qs p)
        → ((p : ℕ)
            → p ≢ 0
            → p ≢ pid
            → queue_of final.client_msg_qs p ≡ queue_of after.client_msg_qs p)
        → (p : ℕ) → p ≢ 0
        → queue_of final.client_msg_qs p ≡ queue_of before.client_msg_qs p
    restored before after final new gone one two p np = elim (ℕ_discrete p pid) [
      | yes same ↦
          subst (λ k. queue_of final.client_msg_qs k ≡ queue_of before.client_msg_qs k) (sym same)
            (gone ∙ sym new)
      | no other ↦ two p np other ∙ one p np other
    ]
