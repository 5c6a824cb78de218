-- ===== src/MqServer/Session.antt =====
-- A client's session with the server of cw06/zad2/server.c.
use agh_so.Prelude.{
  ℕ, ◌≡◌, refl, ◌≢◌, inl, inr, [], ◌∷◌, Option, some, none, arith, set, length-set, reverse, lt→ltb,
  ◌∙◌, ap,
}
use agh_so.Prelude.Int.{ℤ, pos}
use agh_so.CText.{Text, print_int}
use agh_so.MsgServer.{
  MyMsgBuf, Server, Case, case_of, max_no_of_clients, no_client, find_client, answer,
}
use agh_so.MsgServer.Slots.{Taken, slot_pid, find_slot_lem}
use agh_so.MsgServer.Mirror.{mirror_text-eq-reverse}
use agh_so.MsgServer.Registry.{
  queue_of, find_client-queue_of, queue_of-set_free, queue_of-set_found, Distinct-set_free,
  Distinct-clear,
}
use agh_so.MsgServer.Invariant.{IsValid, IsNew, registered}
use agh_so.MsgServer.Session.{Joined, IsRequest}
use agh_so.MqServer.{send, q_path, priority_of, reply, handle_stop, handle_start, dispatch, handle}

module _ (mq_open : Text → ℤ) (quotient : ℤ → ℤ → Text) (clock : Text) where
  -- START of a new client, with a slot free, opens the queue that is named by the client's pid,
  -- registers it in a free slot and answers on it with the slot's number and priority 1. The entries
  -- of the other clients stay, and the slots stay well formed.
  pub mq_handle-start :
      (s : Server) (m : MyMsgBuf)
      → IsValid s
      → case_of m.m_type ≡ Case.start
      → m.pid ≢ 0
      → IsNew s m
      → ¬ Taken s.client_msg_qs max_no_of_clients
      → let q = mq_open (q_path m.pid) in
        (c : ℕ) × (slot_pid s.client_msg_qs c ≡ 0)
        × (handle mq_open quotient clock s m
            ≡ some
                (registered s m c q, send (some q) (record m { msg = print_int (pos c) }) 1 ∷ []))
        × Joined s (registered s m c q) m q
        × IsValid (registered s m c q)
  unfolding handle dispatch handle_start
  mq_handle-start s m v is nz new room =
      let q = mq_open (q_path m.pid) in
      let (c, flag, here, found) = find_slot_lem s.client_msg_qs s.client_no v.size v.in_range in
      elim found.outcome [
        | inr (two, full) ↦ absurd (room full)
        | inl (some_left, free) ↦
            let (entry, others) =
              queue_of-set_free s.client_msg_qs c m.pid (some q) free
                (omega (arith, found.in_range, v.size)) new nz in
            (
              c,
              free,
              rw (is, here) (ground (arith, some_left)),
              record { entry = entry; others = others },
              record {
                size = length-set s.client_msg_qs c _ ∙ v.size;
                in_range = found.in_range;
                distinct = Distinct-set_free s.client_msg_qs c m.pid (some q) free new v.distinct;
              },
            )
      ]

  -- A request of a registered client that has an answer is answered on the queue of that client with
  -- the priority of the request, and changes nothing.
  pub mq_handle-request :
      (s : Server) (m : MyMsgBuf) (q : Option ℤ) (text : Text)
      → IsRequest (case_of m.m_type)
      → queue_of s.client_msg_qs m.pid ≡ some q
      → answer quotient clock (case_of m.m_type) m.msg ≡ some text
      → handle mq_open quotient clock s m
        ≡ some (s, send q (record m { msg = text }) (priority_of (case_of m.m_type)) ∷ [])
  unfolding handle
  mq_handle-request s m q text = go (case_of m.m_type)
    where
      go :
          (k : Case)
          → IsRequest k
          → queue_of s.client_msg_qs m.pid ≡ some q
          → answer quotient clock k m.msg ≡ some text
          → dispatch mq_open quotient clock s (find_client s.client_msg_qs m.pid) m k
            ≡ some (s, send q (record m { msg = text }) (priority_of k) ∷ [])
      go Case.start r h e = absurd r
      go Case.end r h e = absurd r
      go Case.stop r h e = absurd r
      go Case.unrecognised r h e = absurd r
      go k r h e =
          unfold dispatch reply in rw (e, (find_client-queue_of s.client_msg_qs m.pid q h).1)

  -- STOP of a registered client is not answered, takes its entry away and leaves the others, and the
  -- slots stay well formed.
  pub mq_handle-stop :
      (s : Server) (m : MyMsgBuf) (q : Option ℤ)
      → IsValid s
      → case_of m.m_type ≡ Case.stop
      → m.pid ≢ 0
      → queue_of s.client_msg_qs m.pid ≡ some q
      → (s' : Server) × (handle mq_open quotient clock s m ≡ some (s', []))
        × (queue_of s'.client_msg_qs m.pid ≡ none)
        × ((p : ℕ) → p ≢ 0 → p ≢ m.pid → queue_of s'.client_msg_qs p ≡ queue_of s.client_msg_qs p)
        × IsValid s'
  unfolding handle dispatch handle_stop
  mq_handle-stop s m q v is nz h =
      let (gone, others) = queue_of-set_found s.client_msg_qs m.pid v.distinct nz in
      (
        record s {
          client_msg_qs = set s.client_msg_qs (find_client s.client_msg_qs m.pid) no_client;
        },
        rw (is, lt→ltb _ _ (find_client-queue_of s.client_msg_qs m.pid q h).0),
        gone,
        others,
        record {
          size = length-set s.client_msg_qs _ _ ∙ v.size;
          in_range = v.in_range;
          distinct = Distinct-clear s.client_msg_qs _ v.distinct;
        },
      )

  -- After a START that is granted, a MIRROR of the same client is answered with its text back to
  -- front on the queue that was opened by the client's pid.
  mq_start_then_mirror :
      (s : Server) (m n : MyMsgBuf)
      → IsValid s
      → case_of m.m_type ≡ Case.start
      → m.pid ≢ 0
      → IsNew s m
      → ¬ Taken s.client_msg_qs max_no_of_clients
      → case_of n.m_type ≡ Case.mirror
      → n.pid ≡ m.pid
      → let q = mq_open (q_path m.pid) in
        (s' : Server) × (c : ℕ) × (handle mq_open quotient clock s m
          ≡ some (s', send (some q) (record m { msg = print_int (pos c) }) 1 ∷ []))
        × (handle mq_open quotient clock s' n
            ≡ some (s', send (some q) (record n { msg = reverse n.msg }) 1 ∷ []))
  mq_start_then_mirror s m n v is nz new room is' same =
      let q = mq_open (q_path m.pid) in
      let (c, _, started, joined, _) = mq_handle-start s m v is nz new room in
      (
        registered s m c q,
        c,
        started,
        mq_handle-request (registered s m c q) n (some q) (reverse n.msg) (rw is' tt)
              (rw same joined.entry)
              (rw is' (unfold answer in ap some (mirror_text-eq-reverse n.msg)))
            ∙ (rw is' (unfold priority_of in refl)),
      )
