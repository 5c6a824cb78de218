-- ===== src/MsgClient.antt =====
-- cw06/zad1/client.c: the client of the message queue server. It turns lines of its input into
-- messages. `none` is undefined behaviour: a line without a word, or a text that is too long, that
-- has no character to cut off, or that starts behind the end of the line.
pub mod Lines
mod Tests
use agh_so.Prelude.{
  ℕ, zero, suc, ◌+◌, ◌-◌, Bool, true, false, ◌&&◌, List, [], ◌∷◌, ◌++◌, Option, none, some, ltb,
  ◌==◌, if◌then◌else◌, ◌>>=◌, ◌>>◌, guard, length, take, drop,
}
use agh_so.CText.{c_string, Text, codes, is_delimiter, strtok}
use agh_so.MsgServer.{MyMsgBuf}

-- What `strtok` leaves in its argument: a NUL in place of the delimiter behind the first word.
unfoldable pub cut_word : Text → Text
cut_word [] = []
cut_word (c ∷ s) = let rest = cut_word s in if is_delimiter c then 0 ∷ s else c ∷ rest

unfoldable pub after_strtok : Text → Text
after_strtok [] = []
after_strtok (c ∷ s) =
    let rest = after_strtok s in if is_delimiter c then c ∷ rest else cut_word (c ∷ s)

abbrev pub eq_text : Text → Text → Bool
eq_text [] [] = true
eq_text [] (y ∷ t) = false
eq_text (x ∷ s) [] = false
eq_text (x ∷ s) (y ∷ t) = (x == y) && eq_text s t

-- What a word asks for: a request with the text from an offset of the line, one with none, the end,
-- or nothing.
pub data Operation : Type 0 where
  with_text : (m_type : ℕ) → (offset : ℕ) → Operation
  ask_time send_end wrong : Operation

unfoldable pub operation : Text → Operation
operation w =
    if eq_text w (codes "MIRROR")
    then with_text 2 7
    else if eq_text w (codes "ADD")
    then with_text 3 4
    else if eq_text w (codes "MUL")
    then with_text 4 4
    else if eq_text w (codes "SUB")
    then with_text 5 4
    else if eq_text w (codes "DIV")
    then with_text 6 4
    else if eq_text w (codes "TIME")
    then ask_time
    else if eq_text w (codes "END")
    then send_end
    else wrong

-- `CLIENT_STOP` and `send`.
pub record Client : Type 0 where
  pub client_stop : Bool
  pub send : ℕ

-- A line of the input, or SIGINT.
pub data Event : Type 0 where
  line : Text → Event
  sigint : Event

-- `msg` of 256 bytes, with its last character cut off.
unfoldable pub message : ℕ → ℕ → Text → Option MyMsgBuf
message pid m_type text = do
  guard (ltb (length text) 256)
  guard (ltb 0 (length text))
  some (record { m_type = m_type; pid = pid; msg = take (length text - 1) text })

-- What is done for an operation, with the bytes of the line: `send` is set and counted down again.
unfoldable pub perform : ℕ → Client → Text → Operation → Option (Client × List MyMsgBuf)
perform pid s bytes (with_text m_type offset) = do
  text ← c_string (drop offset bytes)
  m ← message pid m_type text
  some (record s { send = 1 - 1 }, m ∷ [])
perform pid s bytes ask_time = do
  m ← message pid 7 (codes " ")
  some (record s { send = 1 - 1 }, m ∷ [])
perform pid s bytes send_end = do
  m ← message pid 8 (codes " ")
  some (record { client_stop = true; send = 2 - 1 }, m ∷ [])
perform pid s bytes wrong = some (record s { send = 0 }, [])

-- One round of the main loop.
unfoldable pub step : ℕ → Client → Event → Option (Client × List MyMsgBuf)
step pid s sigint = some (record s { client_stop = true }, [])
step pid s (line l) = do
  (word, _) ← strtok l
  perform pid s (after_strtok l ++ 0 ∷ []) (operation word)

-- `while (!CLIENT_STOP)`
unfoldable pub loop : ℕ → Client → List Event → Option (Client × List MyMsgBuf)
loop pid s [] = some (s, [])
loop pid s (e ∷ es) =
    let go_on = do
      (s', sent) ← step pid s e
      (s'', later) ← loop pid s' es
      some (s'', sent ++ later)
    in if s.client_stop then some (s, []) else go_on

-- After the loop: STOP, unless END has been sent.
unfoldable pub finish : ℕ → Client → Option (List MyMsgBuf)
finish pid s = if s.send == 0 then (do m ← message pid 9 (codes " "); some (m ∷ [])) else some []

-- All messages of a client: `queue` is the printed number of its queue.
unfoldable pub run : ℕ → Text → List Event → Option (List MyMsgBuf)
run pid queue es = do
  (s, sent) ← loop pid (record { client_stop = false; send = 0 }) es
  last ← finish pid s
  some (record { m_type = 1; pid = pid; msg = queue } ∷ sent ++ last)
