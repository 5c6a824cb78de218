-- ===== src/MqClient/Tests.antt =====
-- A session of the client of cw06/zad2/client.c with a fresh server.
use agh_so.Prelude.{ℕ, ◌≡◌, refl, ◌≢◌, List, [], ◌∷◌, ◌++◌, some, none, false, arith, reverse}
use agh_so.Prelude.Int.{ℤ, pos}
use agh_so.CText.{Text, codes, print_int}
use agh_so.MsgServer.{Server, fresh_server}
use agh_so.MsgServer.Slots.{Taken}
use agh_so.MsgServer.Registry.{queue_of}
use agh_so.MsgServer.Invariant.{fresh_server-IsValid}
use agh_so.MqServer.{send, serve}
use agh_so.MsgClient.{line, sigint}
use agh_so.CText.Strings.{NoNul}
use agh_so.MqClient.{Sent, mq_run}
use agh_so.MqClient.Whole.{rounds_of, serve-mq_run}

abbrev quotient : ℤ → ℤ → Text
quotient a b = codes "0.500000"

abbrev mq_open : Text → ℤ
mq_open path = pos 5

ab_NoNul : NoNul (codes "ab")
ab_NoNul = ((λ e. absurd (omega arith)), ((λ e. absurd (omega arith)), tt))

fresh_goes_on : fresh_server.server_end ≡ false
unfolding fresh_server
fresh_goes_on = refl

fresh_has_none : queue_of fresh_server.client_msg_qs 70 ≡ none
unfolding fresh_server
fresh_has_none = refl

fresh_has_room : ¬ Taken fresh_server.client_msg_qs 10
unfolding fresh_server
fresh_has_room full = full 0 (omega arith) refl

serve-mq_run_example :
    (ms : List Sent) × (mq_run 70 4
        (line (codes "MIRROR" ++ 32 ∷ codes "ab" ++ 10 ∷ []) ∷ sigint ∷ [])
      ≡ some ms)
    × (s' : Server) × (c : ℕ) × (serve mq_open quotient fresh_server (rounds_of (codes "now") ms)
        ≡ some (
          s',
          send (some (pos 5)) (record { m_type = 1; pid = 70; msg = print_int (pos c) }) 1
              ∷ send (some (pos 5)) (record { m_type = 2; pid = 70; msg = reverse (codes "ab") }) 1
              ∷ [],
        ))
    × (queue_of s'.client_msg_qs 70 ≡ none)
    × ((p : ℕ) → p ≢ 0 → queue_of s'.client_msg_qs p ≡ queue_of fresh_server.client_msg_qs p)
serve-mq_run_example =
    serve-mq_run mq_open quotient (codes "now") fresh_server 70 4 (codes "ab") fresh_server-IsValid
      fresh_goes_on (omega arith) fresh_has_none fresh_has_room ab_NoNul (omega arith)
