-- ===== src/MqServer.antt =====
-- cw06/zad2/server.c: the server of cw06/zad1/server.c over POSIX queues. The client slots, the
-- search for a free one and the texts of the answers are those of that server; it opens the queue of
-- a client by the client's pid, and sends whole messages with a priority. `mq_open` is a parameter.
pub mod Session
mod Tests
use agh_so.Prelude.{
  ℕ, true, List, [], ◌∷◌, ◌++◌, Option, none, some, ltb, ◌==◌, if◌then◌else◌, ◌>>=◌, ◌>>◌, guard,
  length, get_elem?, set,
}
use agh_so.Prelude.Int.{ℤ, pos}
use agh_so.CText.{Text, print_int}
use agh_so.MsgServer.{
  MyMsgBuf, Server, Case, case_of, no_client, Round, find_client, find_slot, slot_fuel, answer,
}
use agh_so.MsgServer.Case.{start, mirror, end, stop, unrecognised}

-- One `mq_send` of a whole `struct myMsgBuf`: the queue, the message and the priority.
pub record Sent : Type 0 where
  pub to : Option ℤ
  pub message : MyMsgBuf
  pub priority : ℕ

-- "/" and the pid.
unfoldable pub q_path : ℕ → Text
q_path pid = b'/' ∷ print_int (pos pid)

abbrev pub send : Option ℤ → MyMsgBuf → ℕ → Sent
send q m priority = record { to = q; message = m; priority = priority }

-- The priority that a request is answered with.
unfoldable pub priority_of : Case → ℕ
priority_of mirror = 1
priority_of request = 0

-- A read of slot 10 is out of bounds.
unfoldable pub reply : Server → ℕ → MyMsgBuf → ℕ → Text → Option (Server × List Sent)
reply s i m priority text = do
  c ← get_elem? s.client_msg_qs i
  some (s, send c.q_id (record m { msg = text }) priority ∷ [])

unfoldable pub handle_stop : Server → ℕ → Option (Server × List Sent)
handle_stop s i = do
  guard (ltb i (length s.client_msg_qs))
  some (record s { client_msg_qs = set s.client_msg_qs i no_client }, [])

-- `mq_open` gives a descriptor for a path, -1 if it fails; the client is registered all the same.
module _ (mq_open : Text → ℤ) where
  unfoldable pub handle_start : Server → MyMsgBuf → Option (Server × List Sent)
  handle_start s m = do
    (c, flag) ← find_slot slot_fuel s.client_msg_qs s.client_no 0
    let q = mq_open (q_path m.pid)
    let qs = set s.client_msg_qs c (record { pid = m.pid; q_id = some q })
    if flag == 2
        then some (record s { client_no = c }, [])
        else some (
          record s { client_msg_qs = qs; client_no = c },
          send (some q) (record m { msg = print_int (pos c) }) 1 ∷ [],
        )

  module _ (quotient : ℤ → ℤ → Text) where
    -- The `switch`, after the slot `i` of the sender has been looked up.
    unfoldable pub dispatch : Text → Server → ℕ → MyMsgBuf → Case → Option (Server × List Sent)
    dispatch clock s i m start = handle_start s m
    dispatch clock s i m end = some (record s { server_end = true }, [])
    dispatch clock s i m stop = handle_stop s i
    dispatch clock s i m unrecognised = some (s, [])
    dispatch clock s i m request = do
      text ← answer quotient clock request m.msg
      reply s i m (priority_of request) text

    unfoldable pub handle : Text → Server → MyMsgBuf → Option (Server × List Sent)
    handle clock s m = dispatch clock s (find_client s.client_msg_qs m.pid) m (case_of m.m_type)

    unfoldable pub round : Server → Round → Option (Server × List Sent)
    round s r = elim r.received [ none ↦ some (s, []) | some m ↦ handle r.clock s m ]

    -- `while (!SERVER_END)`, over the rounds that the environment offers.
    unfoldable pub serve : Server → List Round → Option (Server × List Sent)
    serve s [] = some (s, [])
    serve s (r ∷ rs) =
        let go_on = do
          (s', sent) ← round s r
          let last : Option (Server × List Sent) = some (s', sent)
          let more = do (s'', later) ← serve s' rs; some (s'', sent ++ later)
          if r.server_stop then last else more
        in if s.server_end then some (s, []) else go_on
