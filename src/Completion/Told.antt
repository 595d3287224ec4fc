-- ===== src/Completion/Told.antt =====
-- How `apply` of image_processor/completion/actions.py ends.
use image_processor.Base.{ℕ, ◌≡◌, refl, true, false, Option, some}
use image_processor.Types.{JobState, is_terminal, Job, CleanupIntent}
use image_processor.Ledger.Store.{Ledger, Result, ok, err}
use image_processor.Ledger.Store.Rules.{Ends}
use image_processor.Ledger.Jobs.Moves.{status}
use image_processor.Ledger.Cleanup.{record_cleanup_intent, complete_cleanup, fail_cleanup}
use image_processor.Completion.{Failure, CollisionPolicy}
use image_processor.Completion.Disk.{Fault, Disk, Outcome, done, failed}
use image_processor.Completion.Install.{Observed}
use image_processor.Completion.Apply.{
  Completer, Reply, returned, raised, from_ledger, from_cleanup, Codec, executed, completed_reply,
  failed_reply, apply_outcome, apply_recorded, apply,
}
use image_processor.Completion.Settled.{
  IsWorking, IsSettled, IsOpen, Reads, record_cleanup_intent-Ends, complete_cleanup-Ends,
  fail_cleanup-Ends,
}
use image_processor.Completion.Replies.{is_done}

module _ (faults : ℕ → Fault) (codec : Codec) (i : CleanupIntent)
    (on_collision : Option CollisionPolicy) where
  -- How `apply` ended.
  abbrev pub Told : Outcome Observed × Disk → Reply (Unit {0}) × Completer → Type 0
  Told r (returned _, c') =
      (c'.disk ≡ r.1)
      × (is_done r.0 ≡ true)
      × ((s : JobState) × (status i.inference_id c'.ledger.db ≡ some s) × (is_terminal s ≡ true))
  Told r (raised (from_cleanup e), c') =
      (r ≡ (failed e, c'.disk))
      × ((s : JobState) × (status i.inference_id c'.ledger.db ≡ some s) × (is_terminal s ≡ false))
  Told r (raised (from_ledger e), c') = Unit

  completed_reply-Told :
      (c : Completer) (observed : Observed) (d : Disk) (x : Result Job × Ledger)
      → Ends (λ job l'. Reads i.inference_id IsSettled job l'.db) x
      → Told (done observed, d) (completed_reply faults codec (λ _. tt) (record c { disk = d }) x)
  completed_reply-Told c observed d (ok job, l) h = (refl, refl, (job.state, h.0, h.1))
  completed_reply-Told c observed d (err e, l) h = tt

  failed_reply-Told :
      (c : Completer) (e : Failure) (d : Disk) (x : Result Job × Ledger)
      → Ends (λ job l'. Reads i.inference_id IsOpen job l'.db) x
      → Told (failed e, d) (failed_reply faults codec e (record c { disk = d }) x)
  failed_reply-Told c e d (ok job, l) h = (refl, (job.state, h.0, h.1))
  failed_reply-Told c e d (err x, l) h = tt

  apply_outcome-Told :
      (c : Completer) (s : JobState) (r : Outcome Observed × Disk)
      → status i.inference_id c.ledger.db ≡ some s
      → IsWorking s
      → Told r (apply_outcome faults codec i c r)
  unfolding apply_outcome
  apply_outcome-Told c s (done observed, d) at w =
      completed_reply-Told c observed d
        (complete_cleanup i.inference_id (codec.observed_text observed) c.ledger)
        (complete_cleanup-Ends i.inference_id (codec.observed_text observed) c.ledger)
  apply_outcome-Told c s (failed e, d) at w =
      failed_reply-Told c e d (fail_cleanup i.inference_id (codec.failure_text e) c.ledger)
        (fail_cleanup-Ends i.inference_id (codec.failure_text e) s c.ledger at w)

  -- What `apply` does, by what the ledger answers to the intent.
  abbrev pub Begun : Completer → Result Job × Ledger → Reply (Unit {0}) × Completer → Type 0
  Begun c (ok job, l) out =
      Told (executed faults codec i on_collision (record c { ledger = l })) out
  Begun c (err e, l) out = out ≡ (raised (from_ledger e), record c { ledger = l })

  apply_recorded-Begun :
      (c : Completer) (x : Result Job × Ledger)
      → Ends (λ job l'. Reads i.inference_id IsWorking job l'.db) x
      → Begun c x (apply_recorded faults codec i on_collision c x)
  unfolding apply_recorded
  apply_recorded-Begun c (ok job, l) h =
      apply_outcome-Told (record c { ledger = l }) job.state
        (executed faults codec i on_collision (record c { ledger = l })) h.0 h.1
  apply_recorded-Begun c (err e, l) h = refl

  -- `apply` records its intent first: when the ledger refuses it, that error is raised and no file
  -- is touched. Otherwise, when `apply` returns, the execution on the disk succeeded and the job is
  -- in a terminal state; when it raises CleanupError, the execution failed with that error and the
  -- job is in a state that is not terminal.
  pub apply-Begun :
      (c : Completer)
      → Begun c (record_cleanup_intent i c.ledger) (apply faults codec i on_collision c)
  unfolding apply
  apply-Begun c =
      apply_recorded-Begun c (record_cleanup_intent i c.ledger)
        (record_cleanup_intent-Ends i c.ledger)
