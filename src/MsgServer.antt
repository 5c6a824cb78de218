-- ===== src/MsgServer.antt =====
-- cw06/zad1/server.c with cw06/zad1/ipcutil.h: the server of the message queue exercise. It keeps
-- ten client slots; a client registers its queue by START, sends requests that are answered on that
-- queue, and leaves by STOP. Console output is left out. `none` is a run with undefined behaviour.
pub mod Slots
pub mod Mirror
pub mod Invariant
pub mod Registry
pub mod Requests
pub mod Session
mod Tests
use agh_so.Prelude.{
  ℕ, zero, suc, ◌+◌, ◌-◌, ◌/◌, Bool, true, false, List, [], ◌∷◌, Option, none, some, ltb, ◌==◌,
  if◌then◌else◌, ◌>>=◌, ◌>>◌, guard, length, get_elem?, get_or, set, replicate, ◌++◌,
}
use agh_so.Prelude.Int.{ℤ, pos, ◌+ℤ◌, ◌-ℤ◌, ◌*ℤ◌}
use agh_so.CText.{Text, codes, int_of, string_to_int, print_int, strtok}

-- `struct myMsgBuf`
pub record MyMsgBuf : Type 0 where
  pub m_type : ℕ
  pub pid : ℕ
  pub msg : Text

-- `struct clientInfo`; the queue of `noClient` is never initialised.
pub record ClientInfo : Type 0 where
  pub pid : ℕ
  pub q_id : Option ℤ

abbrev pub max_no_of_clients : ℕ
max_no_of_clients = 10

abbrev pub no_client : ClientInfo
no_client = record { pid = 0; q_id = none }

-- The local variables of `main` that live across messages.
pub record Server : Type 0 where
  pub client_msg_qs : List ClientInfo
  pub client_no : ℕ
  pub server_end : Bool

unfoldable pub fresh_server : Server
fresh_server = record {
  client_msg_qs = replicate max_no_of_clients no_client;
  client_no = 0;
  server_end = false;
}

-- One `msgsnd`: the queue, the message and the size given.
pub record Sent : Type 0 where
  pub to : Option ℤ
  pub message : MyMsgBuf
  pub size : ℕ

-- The labels of the `switch`.
pub data Case : Type 0 where
  start mirror add mul sub div time end stop unrecognised : Case

unfoldable pub case_of : ℕ → Case
case_of t =
    if t == 1
    then start
    else if t == 2
    then mirror
    else if t == 3
    then add
    else if t == 4
    then mul
    else if t == 5
    then sub
    else if t == 6
    then div
    else if t == 7
    then time
    else if t == 8
    then end
    else if t == 9
    then stop
    else unrecognised

-- The first slot with this pid; the number of slots if there is none.
unfoldable pub find_client : List ClientInfo → ℕ → ℕ
find_client [] p = 0
find_client (c ∷ cs) p = if c.pid == p then 0 else suc (find_client cs p)

-- The `while` of START: where it stops, with `flag`.
unfoldable pub find_slot : ℕ → List ClientInfo → ℕ → ℕ → Option (ℕ × ℕ)
find_slot zero qs client_no flag = none
find_slot (suc fuel) qs client_no flag = do
  c ← get_elem? qs client_no
  let wrap = client_no + 1 == max_no_of_clients
  let rest = find_slot fuel qs (if wrap then 0 else client_no + 1) (if wrap then flag + 1 else flag)
  if c.pid == 0 then some (client_no, flag) else if ltb flag 2 then rest else some (client_no, flag)

-- Two rounds over the slots and one more test.
abbrev pub slot_fuel : ℕ
slot_fuel = 21

abbrev pub send : Option ℤ → MyMsgBuf → Sent
send q m = record { to = q; message = m; size = 4 + length m.msg + 1 }

unfoldable pub handle_start : Server → MyMsgBuf → Option (Server × List Sent)
handle_start s m = do
  (c, flag) ← find_slot slot_fuel s.client_msg_qs s.client_no 0
  if flag == 2 then some (record s { client_no = c }, []) else do
    q ← string_to_int m.msg
    let qs = set s.client_msg_qs c (record { pid = m.pid; q_id = some q })
    some (
      record s { client_msg_qs = qs; client_no = c },
      send (some q) (record m { msg = print_int (pos c) }) ∷ [],
    )

abbrev pub swap_chars : Text → ℕ → ℕ → Text
swap_chars s j k = set (set s j (get_or s k 0)) k (get_or s j 0)

-- The `for` of MIRROR, with the rounds that are left.
unfoldable pub mirror_from : ℕ → ℕ → Text → Text
mirror_from zero j s = s
mirror_from (suc rounds) j s = mirror_from rounds (j + 1) (swap_chars s j (length s - j - 1))

unfoldable pub mirror_text : Text → Text
unfolding mirror_from
mirror_text s = mirror_from (length s / 2) 0 s

-- `a` and `b` of the arithmetic requests; a missing one is a call of `stringToInt(NULL)`.
unfoldable pub two_args : Text → Option (ℤ × ℤ)
two_args s = do
  (first, rest) ← strtok s
  a ← string_to_int first
  (second, _) ← strtok rest
  b ← string_to_int second
  some (a, b)

-- `quotient` is `sprintf("%f", a / b)` in `float`.
unfoldable pub div_text : (ℤ → ℤ → Text) → ℤ → ℤ → Text
div_text quotient a (pos zero) = codes "Division by zero!"
div_text quotient a b = quotient a b

-- The text that a request is answered with. `clock` is what `ctime` gives.
unfoldable pub answer : (ℤ → ℤ → Text) → Text → Case → Text → Option Text
answer quotient clock mirror s = some (mirror_text s)
answer quotient clock add s = do (a, b) ← two_args s; r ← int_of (a +ℤ b); some (print_int r)
answer quotient clock mul s = do (a, b) ← two_args s; r ← int_of (a *ℤ b); some (print_int r)
answer quotient clock sub s = do (a, b) ← two_args s; r ← int_of (a -ℤ b); some (print_int r)
answer quotient clock div s = do (a, b) ← two_args s; some (div_text quotient a b)
answer quotient clock time s = some clock
answer quotient clock _ s = none

-- The end of a request: `msgsnd(clientMsgQs[i].qID, ...)`. A read of slot 10 is out of bounds.
unfoldable pub reply : Server → ℕ → MyMsgBuf → Text → Option (Server × List Sent)
reply s i m text = do
  c ← get_elem? s.client_msg_qs i
  some (s, send c.q_id (record m { msg = text }) ∷ [])

unfoldable pub handle_stop : Server → ℕ → Option (Server × List Sent)
handle_stop s i = do
  guard (ltb i (length s.client_msg_qs))
  some (record s { client_msg_qs = set s.client_msg_qs i no_client }, [])

-- What one round of the main loop meets: a message or none, the time, and `SERVER_STOP` after it.
pub record Round : Type 0 where
  pub received : Option MyMsgBuf
  pub clock : Text
  pub server_stop : Bool

module _ (quotient : ℤ → ℤ → Text) where
  -- The `switch`, after the slot `i` of the sender has been looked up.
  unfoldable pub dispatch : Text → Server → ℕ → MyMsgBuf → Case → Option (Server × List Sent)
  dispatch clock s i m start = handle_start s m
  dispatch clock s i m end = some (record s { server_end = true }, [])
  dispatch clock s i m stop = handle_stop s i
  dispatch clock s i m unrecognised = some (s, [])
  dispatch clock s i m request = do text ← answer quotient clock request m.msg; reply s i m text

  unfoldable pub handle : Text → Server → MyMsgBuf → Option (Server × List Sent)
  handle clock s m = dispatch clock s (find_client s.client_msg_qs m.pid) m (case_of m.m_type)

  unfoldable pub round : Server → Round → Option (Server × List Sent)
  round s r = elim r.received [ none ↦ some (s, []) | some m ↦ handle r.clock s m ]

  -- `while (!SERVER_END)`, over the rounds that the environment offers.
  unfoldable pub serve : Server → List Round → Option (Server × List Sent)
  serve s [] = some (s, [])
  serve s (r ∷ rs) =
      let go_on = do
        (s', sent) ← round s r
        let last : Option (Server × List Sent) = some (s', sent)
        let more = do (s'', later) ← serve s' rs; some (s'', sent ++ later)
        if r.server_stop then last else more
      in if s.server_end then some (s, []) else go_on
