-- ===== src/MqServer/Tests.antt =====
-- Runs of the server of cw06/zad2/server.c on small inputs.
use agh_so.Prelude.{◌≡◌, refl, [], ◌∷◌, some, none, false, arith, replicate, inl, inr}
use agh_so.Prelude.Int.{ℤ, pos}
use agh_so.CText.{Text, codes}
use agh_so.MsgServer.{MyMsgBuf, Server, Case, case_of, no_client, fresh_server, answer}
use agh_so.MsgServer.Slots.{Taken}
use agh_so.MsgServer.Registry.{queue_of}
use agh_so.MsgServer.Invariant.{IsValid}
use agh_so.MsgServer.Session.{IsRequest}

abbrev quotient : ℤ → ℤ → Text
quotient a b = codes "0.500000"

-- Every queue can be opened, as descriptor 5.
abbrev mq_open : Text → ℤ
mq_open path = pos 5

abbrev hello : MyMsgBuf
hello = record { m_type = 1; pid = 70; msg = [] }

abbrev time_msg : MyMsgBuf
time_msg = record { m_type = 7; pid = 70; msg = [] }

abbrev mirror_msg : MyMsgBuf
mirror_msg = record { m_type = 2; pid = 70; msg = codes "abcd" }

abbrev stop_msg : MyMsgBuf
stop_msg = record { m_type = 9; pid = 70; msg = [] }

abbrev joined : Server
joined = record {
  client_msg_qs = record { pid = 70; q_id = some (pos 5) } ∷ replicate 9 no_client;
  client_no = 0;
  server_end = false;
}

joined-IsValid : IsValid joined
joined-IsValid = record {
  size = refl;
  in_range = omega arith;
  distinct = (
    inr refl,
    (
      inl refl,
      (
        inl refl,
        (inl refl, (inl refl, (inl refl, (inl refl, (inl refl, (inl refl, (inl refl, tt))))))),
      ),
    ),
  );
}

start_label : case_of 1 ≡ Case.start
unfolding case_of
start_label = refl

mirror_label : case_of 2 ≡ Case.mirror
unfolding case_of
mirror_label = refl

stop_label : case_of 9 ≡ Case.stop
unfolding case_of
stop_label = refl

time_IsRequest : IsRequest (case_of 7)
unfolding case_of
time_IsRequest = tt

has_none : queue_of fresh_server.client_msg_qs 70 ≡ none
unfolding fresh_server
has_none = refl

has_room : ¬ Taken fresh_server.client_msg_qs 10
unfolding fresh_server
has_room full = full 0 (omega arith) refl

time_answer : answer quotient (codes "now") (case_of 7) [] ≡ some (codes "now")
unfolding case_of answer
time_answer = refl
