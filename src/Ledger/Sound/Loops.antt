-- ===== src/Ledger/Sound/Loops.antt =====
-- The invariant and `requeue_blocked` and `recover` of image_processor/ledger/ledger.py.
use image_processor.Base.{ℕ, suc, ◌≡◌, true, Option, some, []}
use image_processor.Table.{find}
use image_processor.Types.{Text, ready}
use image_processor.Ledger.Schema.{JobRow, Db}
use image_processor.Ledger.Store.{Ledger}
use image_processor.Ledger.Jobs.{put_state}
use image_processor.Ledger.Recovery.{requeue_blocked_txn, requeue_blocked, recover_txn, recover}
use image_processor.Ledger.Recovery.Loops.{
  is_restartable, requeue_blocked_txn-Ends, recover_txn-Ends,
}
use image_processor.Ledger.Sound.{IsSound, Sound}
use image_processor.Ledger.Sound.Restarts.{restartable_facts, back_to_ready-IsSound}
use image_processor.Ledger.Sound.Transactions.{write-Sound}

restart-IsSound :
    {budget : ℕ} (ident : Text) (now : ℕ) (row : JobRow) (d : Db)
    → find ident d.jobs ≡ some row
    → is_restartable (some row.state) ≡ true
    → IsSound budget d
    → IsSound budget (put_state ident ready [] now d)
restart-IsSound ident now row d found h s =
    let (running, clean, early) = restartable_facts row.state h in
    back_to_ready-IsSound ident [] now row d found running clean
      (s.unprepared ident (rw found early)) s

pub requeue_blocked-Sound :
    (route_id : Option Text) (l : Ledger) → Sound l → Sound (requeue_blocked route_id l).1
unfolding requeue_blocked
requeue_blocked-Sound route_id l s =
    write-Sound (requeue_blocked_txn route_id) l
      (requeue_blocked_txn-Ends (IsSound l.reserve_budget_bytes) restart-IsSound route_id l s.keyed
        s)
      s

pub recover-Sound : (l : Ledger) → Sound l → Sound (recover l).1
unfolding recover
recover-Sound l s =
    write-Sound (recover_txn (l.clock l.readings)) (record l { readings = suc l.readings })
      (recover_txn-Ends (IsSound l.reserve_budget_bytes) restart-IsSound (l.clock l.readings)
        (record l { readings = suc l.readings }) s.keyed s)
      s
