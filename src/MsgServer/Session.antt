-- ===== src/MsgServer/Session.antt =====
-- A client's session with the server of cw06/zad1/server.c: START, requests, STOP, and the end of
-- the main loop.
use agh_so.Prelude.{
  ℕ, ◌≡◌, refl, ◌≢◌, ◌⊎◌, inl, inr, List, [], ◌∷◌, Option, some, none, true, false, arith, length,
  get_elem?, set, reverse, lt→ltb, Bool-cases, ◌>>=◌, ap,
}
use agh_so.Prelude.Int.{ℤ, pos}
use agh_so.CText.{Text, string_to_int, print_int}
use agh_so.MsgServer.{
  MyMsgBuf, Server, Case, case_of, max_no_of_clients, no_client, send, find_client, handle_stop,
  reply, answer, dispatch, handle, Round, round, serve,
}
use agh_so.MsgServer.Slots.{Taken, slot_pid}
use agh_so.MsgServer.Mirror.{mirror_text-eq-reverse}
use agh_so.MsgServer.Registry.{
  queue_of, find_client-queue_of, find_client-none, queue_of-set_free, queue_of-set_found,
}
use agh_so.MsgServer.Invariant.{IsValid, IsNew, registered, handle_start_cases}

get_elem?-length : {A : Type 0} (xs : List A) → get_elem? xs (length xs) ≡ none
get_elem?-length [] = refl
get_elem?-length (x ∷ xs) = get_elem?-length xs

>>=-none : {A B : Type 0} (o : Option A) → ◌≡◌ {A = Option B} (o >>= λ _. none) none
>>=-none none = refl
>>=-none (some a) = refl

>>=-some : {A : Type 0} (o : Option A) → (o >>= λ x. some x) ≡ o
>>=-some none = refl
>>=-some (some a) = refl

-- The requests that are answered, and STOP, which all use the sender's slot.
abbrev pub IsRequest : Case → Type 0
IsRequest Case.start = ⊥
IsRequest Case.end = ⊥
IsRequest Case.stop = ⊥
IsRequest Case.unrecognised = ⊥
IsRequest _ = Unit

-- What a granted START does to the registry.
pub record Joined (s s' : Server) (m : MyMsgBuf) (q : ℤ) : Type 0 where
  pub entry : queue_of s'.client_msg_qs m.pid ≡ some (some q)
  pub others :
      (p : ℕ) → p ≢ 0 → p ≢ m.pid → queue_of s'.client_msg_qs p ≡ queue_of s.client_msg_qs p

module _ (quotient : ℤ → ℤ → Text) (clock : Text) where
  -- START of a new client, with a slot free, registers the queue that the message names, answers on
  -- it with the number of a slot that was free, and leaves the entries of the other clients.
  pub handle-start :
      (s : Server) (m : MyMsgBuf) (q : ℤ)
      → IsValid s
      → case_of m.m_type ≡ Case.start
      → m.pid ≢ 0
      → IsNew s m
      → string_to_int m.msg ≡ some q
      → ¬ Taken s.client_msg_qs max_no_of_clients
      → (c : ℕ) × (slot_pid s.client_msg_qs c ≡ 0)
        × (handle quotient clock s m
            ≡ some (registered s m c q, send (some q) (record m { msg = print_int (pos c) }) ∷ []))
        × Joined s (registered s m c q) m q
  unfolding handle dispatch
  handle-start s m q v is nz new e room = elim (handle_start_cases s m v) [
    | inl refused ↦ absurd (room refused.full)
    | inr g ↦
        let (entry, others) =
          queue_of-set_free s.client_msg_qs g.at m.pid (some q) g.free
            (omega (arith, g.in_range, v.size)) new nz in
        (g.at, g.free, rw is (g.result q e), record { entry = entry; others = others })
  ]

  -- START with every slot taken is not answered, and registers nobody.
  pub handle-start_full :
      (s : Server) (m : MyMsgBuf)
      → IsValid s
      → case_of m.m_type ≡ Case.start
      → Taken s.client_msg_qs max_no_of_clients
      → (c : ℕ) × (handle quotient clock s m ≡ some (record s { client_no = c }, []))
  unfolding handle dispatch
  handle-start_full s m v is full = elim (handle_start_cases s m v) [
    | inl refused ↦ (refused.at, rw is refused.result)
    | inr g ↦ absurd (full g.at g.in_range g.free)
  ]

  -- A request of a registered client that has an answer is answered on the queue of that client,
  -- and changes nothing.
  pub handle-request :
      (s : Server) (m : MyMsgBuf) (q : Option ℤ) (text : Text)
      → IsRequest (case_of m.m_type)
      → queue_of s.client_msg_qs m.pid ≡ some q
      → answer quotient clock (case_of m.m_type) m.msg ≡ some text
      → handle quotient clock s m ≡ some (s, send q (record m { msg = text }) ∷ [])
  unfolding handle
  handle-request s m q text = go (case_of m.m_type)
    where
      go :
          (k : Case)
          → IsRequest k
          → queue_of s.client_msg_qs m.pid ≡ some q
          → answer quotient clock k m.msg ≡ some text
          → dispatch quotient clock s (find_client s.client_msg_qs m.pid) m k
            ≡ some (s, send q (record m { msg = text }) ∷ [])
      go Case.start r h e = absurd r
      go Case.end r h e = absurd r
      go Case.stop r h e = absurd r
      go Case.unrecognised r h e = absurd r
      go k r h e =
          unfold dispatch reply in rw (e, (find_client-queue_of s.client_msg_qs m.pid q h).1)

  -- STOP of a registered client is not answered, takes its entry away and leaves the others.
  pub handle-stop :
      (s : Server) (m : MyMsgBuf) (q : Option ℤ)
      → IsValid s
      → case_of m.m_type ≡ Case.stop
      → m.pid ≢ 0
      → queue_of s.client_msg_qs m.pid ≡ some q
      → (s' : Server) × (handle quotient clock s m ≡ some (s', []))
        × (queue_of s'.client_msg_qs m.pid ≡ none)
        × ((p : ℕ) → p ≢ 0 → p ≢ m.pid → queue_of s'.client_msg_qs p ≡ queue_of s.client_msg_qs p)
  unfolding handle dispatch handle_stop
  handle-stop s m q v is nz h =
      let (gone, others) = queue_of-set_found s.client_msg_qs m.pid v.distinct nz in
      (
        record s {
          client_msg_qs = set s.client_msg_qs (find_client s.client_msg_qs m.pid) no_client;
        },
        rw (is, lt→ltb _ _ (find_client-queue_of s.client_msg_qs m.pid q h).0),
        gone,
        others,
      )

  -- A request or STOP of a client that is not registered uses slot 10 of ten: undefined behaviour.
  pub handle-unregistered :
      (s : Server) (m : MyMsgBuf)
      → IsRequest (case_of m.m_type) ⊎ (case_of m.m_type ≡ Case.stop)
      → IsNew s m
      → handle quotient clock s m ≡ none
  unfolding handle
  handle-unregistered s m = go (case_of m.m_type)
    where
      past : IsNew s m → find_client s.client_msg_qs m.pid ≡ length s.client_msg_qs
      past = find_client-none s.client_msg_qs m.pid

      go :
          (k : Case)
          → IsRequest k ⊎ (k ≡ Case.stop)
          → IsNew s m
          → dispatch quotient clock s (find_client s.client_msg_qs m.pid) m k ≡ none
      go Case.start (inl r) new = absurd r
      go Case.start (inr e) new = absurd (cc)
      go Case.end (inl r) new = absurd r
      go Case.end (inr e) new = absurd (cc)
      go Case.stop r new = unfold dispatch handle_stop in rw (past new) (ground arith)
      go Case.unrecognised (inl r) new = absurd r
      go Case.unrecognised (inr e) new = absurd (cc)
      go k r new =
          unfold dispatch reply in
          rw (past new, get_elem?-length s.client_msg_qs) (>>=-none (answer quotient clock k m.msg))

  -- Once a START has been granted, a MIRROR of the same client is answered on its queue with its
  -- text back to front.
  pub start_then_mirror :
      (s : Server) (m n : MyMsgBuf) (q : ℤ)
      → IsValid s
      → case_of m.m_type ≡ Case.start
      → m.pid ≢ 0
      → IsNew s m
      → string_to_int m.msg ≡ some q
      → ¬ Taken s.client_msg_qs max_no_of_clients
      → case_of n.m_type ≡ Case.mirror
      → n.pid ≡ m.pid
      → (s' : Server) × (c : ℕ) × (handle quotient clock s m
          ≡ some (s', send (some q) (record m { msg = print_int (pos c) }) ∷ []))
        × (handle quotient clock s' n
            ≡ some (s', send (some q) (record n { msg = reverse n.msg }) ∷ []))
  start_then_mirror s m n q v is nz new e room is' same =
      let (c, _, started, joined) = handle-start s m q v is nz new e room in
      (
        registered s m c q,
        c,
        started,
        handle-request (registered s m c q) n (some q) (reverse n.msg) (rw is' tt)
            (rw same joined.entry)
            (rw is' (unfold answer in ap some (mirror_text-eq-reverse n.msg))),
      )

module _ (quotient : ℤ → ℤ → Text) where
  serve-ended :
      (s : Server) (rs : List Round) → s.server_end ≡ true → serve quotient s rs ≡ some (s, [])
  unfolding serve
  serve-ended s [] e = refl
  serve-ended s (r ∷ rs) e = rw e

  round-end :
      (s : Server) (r : Round) (m : MyMsgBuf)
      → r.received ≡ some m
      → case_of m.m_type ≡ Case.end
      → round quotient s r ≡ some (record s { server_end = true }, [])
  unfolding round handle dispatch
  round-end s r m got is = rw (got, is)

  -- The main loop ends with END: the rounds after it are not run, and nothing is sent for it.
  serve-end :
      (s : Server) (r : Round) (rs : List Round) (m : MyMsgBuf)
      → s.server_end ≡ false
      → r.received ≡ some m
      → case_of m.m_type ≡ Case.end
      → serve quotient s (r ∷ rs) ≡ some (record s { server_end = true }, [])
  unfolding serve
  serve-end s r rs m running got is =
      let ended : Server = record s { server_end = true } in
      elim (Bool-cases r.server_stop) [
        | inl stopped ↦ simp (running, round-end s r m got is, stopped)
        | inr on ↦ simp (running, round-end s r m got is, on, serve-ended ended rs refl)
      ]

  -- `SERVER_STOP` ends the loop after the round in which it is set.
  pub serve-stop :
      (s : Server) (r : Round) (rs : List Round)
      → s.server_end ≡ false
      → r.server_stop ≡ true
      → serve quotient s (r ∷ rs) ≡ round quotient s r
  unfolding serve
  serve-stop s r rs running stopped = simp (running, stopped) (>>=-some (round quotient s r))
