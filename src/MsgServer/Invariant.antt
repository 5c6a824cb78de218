-- ===== src/MsgServer/Invariant.antt =====
-- What every message leaves intact in the slots of cw06/zad1/server.c.
use agh_so.Prelude.{
  ℕ, ◌<◌, ◌≡◌, refl, ◌⊎◌, inl, inr, List, [], ◌∷◌, Option, some, none, true, arith, length,
  length-set, set, ◌>>=◌, ◌∙◌,
}
use agh_so.Prelude.Int.{ℤ, pos}
use mathlib.Core.Path.{subst}
use agh_so.CText.{Text, string_to_int, print_int}
use agh_so.MsgServer.{
  MyMsgBuf, Server, Sent, Case, case_of, max_no_of_clients, fresh_server, no_client, send,
  find_client, handle_start, handle_stop, reply, answer, dispatch, handle,
}
use agh_so.MsgServer.Slots.{find_slot_lem, Taken, slot_pid}
use agh_so.MsgServer.Registry.{queue_of, Distinct, Distinct-set_free, Distinct-clear}

-- Ten slots, `client_no` among them, and no client in two of them.
pub record IsValid (s : Server) : Type 0 where
  pub size : length s.client_msg_qs ≡ max_no_of_clients
  pub in_range : s.client_no < max_no_of_clients
  pub distinct : Distinct s.client_msg_qs

pub fresh_server-IsValid : IsValid fresh_server
unfolding fresh_server
fresh_server-IsValid = record { size = refl; in_range = omega arith; distinct = omega arith }

-- A client that sends START is not registered yet.
abbrev pub IsNew : Server → MyMsgBuf → Type 0
IsNew s m = queue_of s.client_msg_qs m.pid ≡ none

-- The slots after a START that is granted slot `c`.
abbrev pub registered : Server → MyMsgBuf → ℕ → ℤ → Server
registered s m c q = record s {
  client_msg_qs = set s.client_msg_qs c (record { pid = m.pid; q_id = some q });
  client_no = c;
}

-- START with all slots taken: nothing is sent, and only `client_no` moves.
pub record Refused (s : Server) (m : MyMsgBuf) : Type 0 where
  pub at : ℕ
  pub in_range : at < max_no_of_clients
  pub full : Taken s.client_msg_qs max_no_of_clients
  pub result : handle_start s m ≡ some (record s { client_no = at }, [])

-- START with a free slot: it is granted, and its number is sent to the queue that the message names.
pub record Granted (s : Server) (m : MyMsgBuf) : Type 0 where
  pub at : ℕ
  pub in_range : at < max_no_of_clients
  pub free : slot_pid s.client_msg_qs at ≡ 0
  pub result :
      (q : ℤ)
      → string_to_int m.msg ≡ some q
      → handle_start s m
        ≡ some (registered s m at q, send (some q) (record m { msg = print_int (pos at) }) ∷ [])
  pub no_number : string_to_int m.msg ≡ none → handle_start s m ≡ none

pub handle_start_cases : (s : Server) (m : MyMsgBuf) → IsValid s → Refused s m ⊎ Granted s m
unfolding handle_start
handle_start_cases s m v =
    let (c, flag, here, found) = find_slot_lem s.client_msg_qs s.client_no v.size v.in_range in
    elim found.outcome [
      | inl (some_left, free) ↦ inr (record {
        at = c;
        in_range = found.in_range;
        free = free;
        result = λ q e. rw here (ground (arith, some_left, e));
        no_number = λ e. rw here (ground (arith, some_left, e));
      })
      | inr (two, full) ↦ inl (record {
        at = c;
        in_range = found.in_range;
        full = full;
        result = rw here (ground (arith, two));
      })
    ]

registered-IsValid :
    (s : Server) (m : MyMsgBuf) (c : ℕ) (q : ℤ)
    → IsValid s
    → IsNew s m
    → c < max_no_of_clients
    → slot_pid s.client_msg_qs c ≡ 0
    → IsValid (registered s m c q)
registered-IsValid s m c q v new h free = record {
  size = length-set s.client_msg_qs c _ ∙ v.size;
  in_range = h;
  distinct = Distinct-set_free s.client_msg_qs c m.pid (some q) free new v.distinct;
}

Granted-IsValid :
    (s : Server) (m : MyMsgBuf) {s' : Server} {out : List Sent}
    → IsValid s
    → IsNew s m
    → (g : Granted s m) (n : Option ℤ) → string_to_int m.msg ≡ n
    → handle_start s m ≡ some (s', out)
    → IsValid s'
Granted-IsValid s m v new g none e h = absurd (cc (g.no_number e))
Granted-IsValid s m {s'} v new g (some q) e h =
    let same : registered s m g.at q ≡ s' = cc (g.result q e) in
    subst IsValid same (registered-IsValid s m g.at q v new g.in_range g.free)

pub handle_start-IsValid :
    (s : Server) (m : MyMsgBuf) {s' : Server} {out : List Sent}
    → IsValid s
    → IsNew s m
    → handle_start s m ≡ some (s', out)
    → IsValid s'
handle_start-IsValid s m {s'} v new h = elim (handle_start_cases s m v) [
  | inl refused ↦
      let same : record s { client_no = refused.at } ≡ s' = cc (refused.result) in
      subst IsValid same
        (record { size = v.size; in_range = refused.in_range; distinct = v.distinct })
  | inr g ↦ Granted-IsValid s m v new g (string_to_int m.msg) refl h
]

pub handle_stop-IsValid :
    (s : Server) (i : ℕ) {s' : Server} {out : List Sent}
    → IsValid s
    → handle_stop s i ≡ some (s', out)
    → IsValid s'
unfolding handle_stop
handle_stop-IsValid s i {s'} v h =
    let same : record s { client_msg_qs = set s.client_msg_qs i no_client } ≡ s' = ground arith in
    subst IsValid same (record {
      size = length-set s.client_msg_qs i no_client ∙ v.size;
      in_range = v.in_range;
      distinct = Distinct-clear s.client_msg_qs i v.distinct;
    })

-- A reply leaves the server as it is.
reply-same :
    (s : Server) (i : ℕ) (m : MyMsgBuf) (text : Option Text) {s' : Server} {out : List Sent}
    → (text >>= reply s i m) ≡ some (s', out)
    → s ≡ s'
unfolding reply
reply-same s i m text h = ground arith

module _ (quotient : ℤ → ℤ → Text) where
  dispatch-IsValid :
      (clock : Text) (s : Server) (i : ℕ) (m : MyMsgBuf) (k : Case) {s' : Server} {out : List Sent}
      → IsValid s
      → (k ≡ Case.start → IsNew s m)
      → dispatch quotient clock s i m k ≡ some (s', out)
      → IsValid s'
  unfolding dispatch
  dispatch-IsValid clock s i m Case.start v new h = handle_start-IsValid s m v (new refl) h
  dispatch-IsValid clock s i m Case.end {s'} v new h =
      let same : record s { server_end = true } ≡ s' = cc in
      subst IsValid same (record { size = v.size; in_range = v.in_range; distinct = v.distinct })
  dispatch-IsValid clock s i m Case.stop v new h = handle_stop-IsValid s i v h
  dispatch-IsValid clock s i m Case.unrecognised {s'} v new h =
      let same : s ≡ s' = cc in subst IsValid same v
  dispatch-IsValid clock s i m k v new h =
      subst IsValid (reply-same s i m (answer quotient clock k m.msg) h) v

  -- Every message that runs without undefined behaviour keeps the slots valid, if START comes from
  -- clients that are not registered.
  pub handle-IsValid :
      (clock : Text) (s : Server) (m : MyMsgBuf) {s' : Server} {out : List Sent}
      → IsValid s
      → (case_of m.m_type ≡ Case.start → IsNew s m)
      → handle quotient clock s m ≡ some (s', out)
      → IsValid s'
  unfolding handle
  handle-IsValid clock s m v new h =
      dispatch-IsValid clock s (find_client s.client_msg_qs m.pid) m (case_of m.m_type) v new h
