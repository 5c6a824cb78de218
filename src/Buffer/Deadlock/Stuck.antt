-- ===== src/Buffer/Deadlock/Stuck.antt =====
-- The state of cw09/zad1/zad1.c and cw09/zad2/zad2.c in which the producers have returned and a
-- consumer still waits.
use agh_so.Prelude.{ℕ, arith}
use agh_so.Buffer.Thread.{Config, State, ProducerMove, ConsumerMove}
use agh_so.Buffer.Deadlock.Quiet.{IsWaiting}

module _ {c : Config} {d : ℕ} {s : State} (w : IsWaiting c 0 d s) where
  open w use {writer, reader, producers, leaving}

  pub no_ProducerMove : {t : State} → ¬ ProducerMove c s t
  no_ProducerMove (ProducerMove.lock_write k e e') = absurd (omega (arith, producers, e'))
  no_ProducerMove (ProducerMove.lock_cell e _) = cc (writer, e)
  no_ProducerMove (ProducerMove.lock_again e _) = cc (writer, e)
  no_ProducerMove (ProducerMove.wait_full x e _) = cc (writer, e)
  no_ProducerMove (ProducerMove.get_line x xs e _ _) = cc (writer, e)
  no_ProducerMove (ProducerMove.get_eof e _ _) = cc (writer, e)
  no_ProducerMove (ProducerMove.unlock_cell e) = cc (writer, e)
  no_ProducerMove (ProducerMove.advance e) = cc (writer, e)
  no_ProducerMove (ProducerMove.unlock_write e) = cc (writer, e)
  no_ProducerMove (ProducerMove.eof_unlock_cell e) = cc (writer, e)
  no_ProducerMove (ProducerMove.eof_unlock_write e) = cc (writer, e)
  no_ProducerMove (ProducerMove.set_end k e) = absurd (omega (arith, leaving, e))

  pub no_ConsumerMove : {t : State} → ¬ ConsumerMove c s t
  no_ConsumerMove (ConsumerMove.lock_read k e e') = cc (reader, e)
  no_ConsumerMove (ConsumerMove.lock_cell e _) = cc (reader, e)
  no_ConsumerMove (ConsumerMove.lock_again e _) = cc (reader, e)
  no_ConsumerMove (ConsumerMove.wait_empty e _ _) = cc (reader, e)
  no_ConsumerMove (ConsumerMove.end_cell e _ _) = cc (reader, e)
  no_ConsumerMove (ConsumerMove.take_line x e _) = cc (reader, e)
  no_ConsumerMove (ConsumerMove.unlock_cell e) = cc (reader, e)
  no_ConsumerMove (ConsumerMove.advance e) = cc (reader, e)
  no_ConsumerMove (ConsumerMove.unlock_read e) = cc (reader, e)
  no_ConsumerMove (ConsumerMove.end_read e) = cc (reader, e)
