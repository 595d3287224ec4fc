-- ===== src/Examples/LedgerRuns.antt =====
-- One job through its whole life, and the ledger's theorems at it.
use image_processor.Base.{ℕ, ◌+◌, ◌≡◌, refl, pos, true, none, some, List, [], ◌∷◌}
use image_processor.Types.{
  Text, Bytes, is_terminal, ModelRef, SourceIdentity, Job, CleanupIntent, spool, archive,
  JobState-discrete, ready, claimed, waiting_model, inferencing, completed,
}
use image_processor.Table.{find, insert, update, upsert, delete, count_where, sum}
use image_processor.Ledger.Schema.{is_legal}
use image_processor.Ledger.Store.{write}
use image_processor.Ledger.Jobs.{admit, admit_txn, transition, set_state, any_unknown}
use image_processor.Ledger.Jobs.Moves.{status}
use image_processor.Ledger.Outbox.{
  OutboxRow, insert_outbox_row, commit_result, commit_result_txn, mark_published,
  mark_published_txn,
}
use image_processor.Ledger.Cleanup.{
  record_cleanup_intent, record_cleanup_intent_txn, completing_edge, complete_cleanup,
  complete_cleanup_txn,
}
use image_processor.Ledger.Sound.{Sound}
use image_processor.Ledger.History.{
  Call, admits, transitions, commits, confirms, intends, completes, open_new, step, run,
}
use image_processor.Ledger.History.Invariant.{run-open_new-Sound}

abbrev model : ModelRef
model = record { id = 1; version = 2; digest = 3 }

abbrev source : SourceIdentity
source = record {
  kind = spool;
  route_id = 7;
  relative_path = 40;
  bytes = 512;
  sha256 = 41;
  capture_id = none;
  camera_id = none;
  correlation_id = none;
  reply_to = none;
  captured_at_ms = none;
}

abbrev pub job : Job
job = record {
  inference_id = 5;
  route_id = 7;
  source = source;
  model = model;
  transform_version = 1;
  state = ready;
  attempts = 0;
  next_attempt_at_ms = none;
  staged_path = none;
  config_generation = 0;
}

abbrev pub message : OutboxRow
message = record {
  id = none;
  inference_id = 5;
  topic = 60;
  encoded_bytes = 1 ∷ 2 ∷ [];
  attempts = 0;
  gating = true;
  last_error = none;
}

abbrev pub intent : CleanupIntent
intent = record {
  inference_id = 5;
  action = archive;
  source_path = 70;
  source_sha256 = 41;
  target_path = some 71;
  members = [];
}

abbrev pub clock : ℕ → ℕ
clock n = 1000 + n

abbrev pub digest : Bytes → Text
digest b = 9

abbrev pub life : List Call
life =
    admits job (pos 100)
    ∷ transitions 5 ready claimed []
    ∷ transitions 5 claimed waiting_model []
    ∷ transitions 5 waiting_model inferencing []
    ∷ commits 5 (8 ∷ []) none (message ∷ [])
    ∷ confirms 1
    ∷ intends intent
    ∷ completes 5 80
    ∷ []

-- The job ends COMPLETED, and its reservation is gone.
life-completed : status 5 (run digest (open_new 1000 clock) life).db ≡ some completed
unfolding run step admit admit_txn transition commit_result commit_result_txn mark_published
    mark_published_txn record_cleanup_intent record_cleanup_intent_txn complete_cleanup
    complete_cleanup_txn write set_state any_unknown is_legal is_terminal completing_edge insert
    update upsert find delete count_where sum insert_outbox_row JobState-discrete
life-completed = refl

run-open_new-Sound_example : Sound (run digest (open_new 1000 clock) life)
run-open_new-Sound_example =
    run-open_new-Sound digest 1000 clock life
      (tt, ((λ e. cc), ((λ e. cc), ((λ e. cc), (tt, (tt, (tt, (tt, tt))))))))
