-- ===== src/MqClient.antt =====
-- cw06/zad2/client.c: the client of the POSIX server. It turns lines into messages as the client of
-- cw06/zad1/client.c does, with the same code, and sends each with priority 1.
pub mod Whole
mod Tests
use agh_so.Prelude.{ℕ, List, Option, some, map, ◌>>=◌}
use agh_so.Prelude.Int.{pos}
use agh_so.CText.{Text, print_int}
use agh_so.MsgServer.{MyMsgBuf}
use agh_so.MsgClient.{Client, Event, step, loop, finish, run}

-- A message and its priority.
abbrev pub Sent : Type 0
Sent = MyMsgBuf × ℕ

abbrev pub with_priority : MyMsgBuf → Sent
with_priority m = (m, 1)

-- All messages of a client, from START on; its START holds the descriptor of its queue.
unfoldable pub mq_run : ℕ → ℕ → List Event → Option (List Sent)
mq_run pid descriptor es = do
  sent ← run pid (print_int (pos descriptor)) es
  some (map with_priority sent)
