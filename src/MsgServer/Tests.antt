-- ===== src/MsgServer/Tests.antt =====
-- Runs of the server on small inputs, and the theorems at them.
use agh_so.Prelude.{ℕ, ◌+◌, ◌*◌, inr, ◌≤◌, ◌≡◌, refl, ◌≢◌, [], ◌∷◌, some, none, false, arith}
use agh_so.Prelude.Int.{ℤ, pos, sub_ℕ, ◌+ℤ◌}
use agh_so.CText.{Text, codes, print_int, int_max, string_to_int, cut_token, strtok, int_of}
use agh_so.MsgServer.{
  MyMsgBuf, Server, Case, Round, send, fresh_server, handle, serve, mirror_text, mirror_from, reply,
  dispatch, round, two_args, handle_start, find_slot, slot_fuel, answer, case_of, no_client,
  find_client,
}
use agh_so.MsgServer.Slots.{Taken, Found, find_slot_lem}
use agh_so.MsgServer.Mirror.{mirror_text-eq-reverse}
use agh_so.MsgServer.Registry.{queue_of}
use agh_so.MsgServer.Invariant.{IsValid, fresh_server-IsValid, handle-IsValid}
use agh_so.MsgServer.Requests.{Answers, answer-operands}
use agh_so.MsgServer.Session.{IsRequest, handle-unregistered, start_then_mirror}

-- Stands for the float division.
abbrev quotient : ℤ → ℤ → Text
quotient a b = codes "0.500000"

abbrev hello : MyMsgBuf
hello = record { m_type = 1; pid = 70; msg = codes "65537" }

abbrev mirror_msg : MyMsgBuf
mirror_msg = record { m_type = 2; pid = 70; msg = codes "abcd" }

abbrev add_msg : MyMsgBuf
add_msg = record { m_type = 3; pid = 70; msg = codes "12 30" }

abbrev stop_msg : MyMsgBuf
stop_msg = record { m_type = 9; pid = 70; msg = [] }

abbrev end_msg : MyMsgBuf
end_msg = record { m_type = 8; pid = 70; msg = [] }

abbrev round_of : MyMsgBuf → Round
round_of m = record { received = some m; clock = codes "now"; server_stop = false }

-- The server after START of client 70.
abbrev joined : Server
joined = record {
  client_msg_qs =
      record { pid = 70; q_id = some (pos 65537) }
      ∷ no_client
      ∷ no_client
      ∷ no_client
      ∷ no_client
      ∷ no_client
      ∷ no_client
      ∷ no_client
      ∷ no_client
      ∷ no_client
      ∷ [];
  client_no = 0;
  server_end = false;
}

session_runs :
    serve quotient fresh_server (round_of hello ∷ round_of mirror_msg ∷ round_of add_msg ∷ [])
    ≡ some (
      joined,
      send (some (pos 65537)) (record hello { msg = codes "0" })
          ∷ send (some (pos 65537)) (record mirror_msg { msg = codes "dcba" })
          ∷ send (some (pos 65537)) (record add_msg { msg = codes "42" })
          ∷ [],
    )
unfolding serve round handle dispatch case_of find_client handle_start find_slot reply answer
    mirror_text mirror_from two_args strtok cut_token string_to_int print_int int_of ◌+ℤ◌
    fresh_server
session_runs = refl

start_runs :
    handle quotient (codes "now") fresh_server hello
    ≡ some (joined, send (some (pos 65537)) (record hello { msg = codes "0" }) ∷ [])
unfolding handle dispatch case_of find_client handle_start find_slot string_to_int print_int int_of
    ◌+ℤ◌ fresh_server
start_runs = refl

hello_is_start : case_of hello.m_type ≡ Case.start
unfolding case_of
hello_is_start = refl

fresh_has_none : queue_of fresh_server.client_msg_qs 70 ≡ none
unfolding fresh_server
fresh_has_none = refl

fresh_has_room : ¬ Taken fresh_server.client_msg_qs 10
unfolding fresh_server
fresh_has_room full = full 0 (omega arith) refl

reads_queue : string_to_int (codes "65537") ≡ some (pos 65537)
unfolding string_to_int int_of ◌+ℤ◌
reads_queue = refl

joined-IsValid : IsValid joined
joined-IsValid =
    handle-IsValid quotient (codes "now") fresh_server hello fresh_server-IsValid
      (λ _. fresh_has_none) start_runs

mirror_text-eq-reverse_example : mirror_text (codes "abcd") ≡ codes "dcba"
mirror_text-eq-reverse_example = mirror_text-eq-reverse (codes "abcd")

find_slot_lem_example :
    (c : ℕ) × (flag : ℕ) × (find_slot slot_fuel joined.client_msg_qs 0 0 ≡ some (c, flag))
    × Found joined.client_msg_qs c flag
find_slot_lem_example = find_slot_lem joined.client_msg_qs 0 refl (omega arith)

handle-IsValid_example : IsValid joined
handle-IsValid_example =
    handle-IsValid quotient (codes "now") fresh_server hello fresh_server-IsValid
      (λ _. fresh_has_none) start_runs

answer-operands_example :
    (12 + 30 ≤ int_max → Answers quotient Case.add 12 30 (print_int (pos (12 + 30))))
    × (12 * 30 ≤ int_max → Answers quotient Case.mul 12 30 (print_int (pos (12 * 30))))
    × Answers quotient Case.sub 12 30 (print_int (sub_ℕ 12 30))
    × (◌≢◌ {A = ℕ} 30 0 → Answers quotient Case.div 12 30 (quotient (pos 12) (pos 30)))
    × (◌≡◌ {A = ℕ} 30 0 → Answers quotient Case.div 12 30 (codes "Division by zero!"))
answer-operands_example = answer-operands quotient 12 30 (omega arith) (omega arith)

add-IsRequest : IsRequest (case_of 3)
unfolding case_of
add-IsRequest = tt

joined_has_client : queue_of joined.client_msg_qs 70 ≡ some (some (pos 65537))
joined_has_client = refl

add_answer : answer quotient (codes "now") (case_of 3) (codes "12 30") ≡ some (codes "42")
unfolding case_of answer two_args strtok cut_token string_to_int print_int int_of ◌+ℤ◌
add_answer = refl

stop_is_stop : case_of 9 ≡ Case.stop
unfolding case_of
stop_is_stop = refl

handle-unregistered_example : handle quotient (codes "now") fresh_server stop_msg ≡ none
handle-unregistered_example =
    handle-unregistered quotient (codes "now") fresh_server stop_msg (inr stop_is_stop)
      fresh_has_none

mirror_is_mirror : case_of 2 ≡ Case.mirror
unfolding case_of
mirror_is_mirror = refl

start_then_mirror_example :
    (s' : Server) × (c : ℕ) × (handle quotient (codes "now") fresh_server hello
      ≡ some (s', send (some (pos 65537)) (record hello { msg = print_int (pos c) }) ∷ []))
    × (handle quotient (codes "now") s' mirror_msg
        ≡ some (s', send (some (pos 65537)) (record mirror_msg { msg = codes "dcba" }) ∷ []))
start_then_mirror_example =
    start_then_mirror quotient (codes "now") fresh_server hello mirror_msg (pos 65537)
      fresh_server-IsValid hello_is_start (omega arith) fresh_has_none reads_queue fresh_has_room
      mirror_is_mirror refl

end_is_end : case_of 8 ≡ Case.end
unfolding case_of
end_is_end = refl
