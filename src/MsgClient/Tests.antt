-- ===== src/MsgClient/Tests.antt =====
-- Lines of the client of cw06/zad1/client.c.
use agh_so.Prelude.{◌≡◌, refl, false, [], ◌∷◌, some, none, arith, replicate}
use agh_so.Prelude.Int.{ℤ, pos}
use agh_so.CText.{c_string, Text, codes, strtok, cut_token}
use agh_so.MsgServer.{Server, no_client}
use agh_so.MsgClient.{
  Client, line, sigint, step, perform, operation, after_strtok, cut_word, loop, finish, run,
  message,
}
use agh_so.CText.Strings.{NoNul}

abbrev ready : Client
ready = record { client_stop = false; send = 0 }

abc_NoNul : NoNul (codes "abc")
abc_NoNul =
    ((λ e. absurd (omega arith)), ((λ e. absurd (omega arith)), ((λ e. absurd (omega arith)), tt)))

abbrev server : Server
server = record {
  client_msg_qs = record { pid = 70; q_id = some (pos 5) } ∷ replicate 9 no_client;
  client_no = 0;
  server_end = false;
}

abbrev quotient : ℤ → ℤ → Text
quotient a b = codes "0.500000"

-- An empty line has no word, and the text of a bare request starts behind its line.
empty_line : step 70 ready (line (codes "\n")) ≡ none
unfolding step strtok
empty_line = refl

bare_request : step 70 ready (line (codes "ADD\n")) ≡ none
unfolding step perform operation after_strtok cut_word strtok cut_token c_string message
bare_request = refl

session :
    run 70 (codes "5") (line (codes "ADD 1 2\n") ∷ line (codes "what\n") ∷ sigint ∷ [])
    ≡ some (
        record { m_type = 1; pid = 70; msg = codes "5" }
        ∷ record { m_type = 3; pid = 70; msg = codes "1 2" }
        ∷ record { m_type = 9; pid = 70; msg = [] }
        ∷ [])
unfolding run loop finish step perform operation after_strtok cut_word strtok cut_token c_string
    message
session = refl
