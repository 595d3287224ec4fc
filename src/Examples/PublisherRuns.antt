-- ===== src/Examples/PublisherRuns.antt =====
-- A pass of the publisher over one pending message, and the theorems about it.
use image_processor.Base.{sort_by, ℕ, zero, suc, ◌≡◌, refl, Bool, false, Option, none, some, take}
use image_processor.Types.{Text, Bytes, JobState-discrete, is_terminal}
use image_processor.Table.{find, insert, update, sum, count_where}
use image_processor.Ledger.Schema.{is_legal}
use image_processor.Ledger.Store.{Ledger, ok, write}
use image_processor.Ledger.Jobs.{admit, admit_txn, transition, set_state, any_unknown}
use image_processor.Ledger.Outbox.{
  mark_published, mark_published_txn, row_to_outbox, insert_outbox_row, commit_result,
  commit_result_txn,
}
use image_processor.Ledger.Sound.{Sound}
use image_processor.Ledger.History.{open_new, run, step}
use image_processor.Ledger.History.Invariant.{run-open_new-Sound}
use image_processor.Publisher.{OutboxPublisher, new_publisher, drain_once}
use image_processor.Publisher.Order.{Drained, drain_once-Drained}
use image_processor.Examples.LedgerRuns.{clock, digest, life}

-- The ledger whose job waits for the confirmation of its message.
abbrev waiting : Ledger
waiting = run digest (open_new 1000 clock) (take 5 life)

waiting-Sound : Sound waiting
waiting-Sound =
    run-open_new-Sound digest 1000 clock (take 5 life)
      (tt, ((λ e. cc), ((λ e. cc), ((λ e. cc), (tt, tt)))))

-- A transport that refuses its first message.
abbrev flaky : ℕ → Text → Bytes → Option Text
flaky zero topic bytes = some 77
flaky (suc n) topic bytes = none

abbrev accepting : ℕ → Text → Bytes → Option Text
accepting n topic bytes = none

abbrev running : ℕ → Bool
running n = false

abbrev publisher : OutboxPublisher
publisher = new_publisher waiting 100 32

one_confirmed : (drain_once accepting running publisher).0 ≡ ok 1
unfolding drain_once mark_published mark_published_txn run step commit_result commit_result_txn
    write transition admit JobState-discrete admit_txn find sum set_state any_unknown insert
    is_legal is_terminal update insert_outbox_row count_where sort_by row_to_outbox
one_confirmed = refl

drain_once-Drained_example : Drained publisher (drain_once flaky running publisher)
drain_once-Drained_example = drain_once-Drained flaky running publisher
