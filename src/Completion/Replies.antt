-- ===== src/Completion/Replies.antt =====
-- What `apply` and `reconcile` of image_processor/completion/actions.py tell their caller.
use image_processor.Base.{ℕ, ◌≡◌, refl, subst, Bool, true, false, Option, none, some, if◌then◌else◌}
use image_processor.Table.{find}
use image_processor.Types.{Text, JobState, is_terminal, Job, CleanupIntent}
use image_processor.Ledger.Schema.{JobRow, Db, row_to_job}
use image_processor.Ledger.Store.{Ledger, Result, ok, err, programming_error}
use image_processor.Ledger.Store.Rules.{Ends}
use image_processor.Ledger.Jobs.{stored_job, get}
use image_processor.Ledger.Jobs.Moves.{status, state_of}
use image_processor.Ledger.Cleanup.{record_cleanup_intent, complete_cleanup, fail_cleanup}
use image_processor.Completion.{CollisionPolicy}
use image_processor.Completion.Disk.{Fault, Disk, Outcome, done, failed}
use image_processor.Completion.Install.{Observed}
use image_processor.Completion.Apply.{
  Completer, Reply, returned, raised, from_ledger, from_cleanup, Codec, executed, completed_reply,
  reconcile_outcome, reconcile_recorded, reconcile_open, settled, reconcile_from, reconcile_read,
  reconcile,
}
use image_processor.Completion.Settled.{
  IsWorking, Reads, record_cleanup_intent-Ends, complete_cleanup-Ends, fail_cleanup-Ends,
}

abbrev pub is_done : {A : Type 0} → Outcome A → Bool
is_done (done _) = true
is_done (failed _) = false

-- The test of `reconcile`, on the state of the row.
abbrev pub settled_state : Option JobState → Option JobState
settled_state none = none
settled_state (some s) = if is_terminal s then some s else none

settled-stored_job :
    (ident : Text) (d : Db) → settled (stored_job ident d) ≡ settled_state (status ident d)
unfolding settled row_to_job
settled-stored_job ident d = go (find ident d.jobs)
  where
    go :
        (o : Option JobRow)
        → settled (elim o [ none ↦ none | some r ↦ some (row_to_job ident r) ])
          ≡ settled_state (state_of o)
    go none = refl
    go (some r) = refl

module _ (faults : ℕ → Fault) (codec : Codec) (i : CleanupIntent)
    (on_collision : Option CollisionPolicy) where
  -- The execution that follows the recorded intent.
  abbrev pub attempt : Completer → Outcome Observed × Disk
  attempt c =
      executed faults codec i on_collision
        (record c { ledger = (record_cleanup_intent i c.ledger).1 })

  -- A reply of `reconcile`: the state that the job is in, a terminal one exactly if the execution
  -- succeeded, over the disk that the execution left. It does not raise CleanupError.
  abbrev pub Shown : Outcome Observed × Disk → Reply JobState × Completer → Type 0
  Shown r (returned s, c') =
      (status i.inference_id c'.ledger.db ≡ some s)
      × (c'.disk ≡ r.1)
      × (is_terminal s ≡ is_done r.0)
  Shown r (raised (from_ledger e), c') = Unit
  Shown r (raised (from_cleanup e), c') = ⊥

  completed_reply-Shown :
      (c : Completer) (o : Outcome Observed) (d : Disk) (x : Result Job × Ledger)
      → Ends (λ job l'. Reads i.inference_id (λ s. is_terminal s ≡ is_done o) job l'.db) x
      → Shown (o, d) (completed_reply faults codec (λ job. job.state) (record c { disk = d }) x)
  completed_reply-Shown c o d (ok job, l) h = (h.0, refl, h.1)
  completed_reply-Shown c o d (err e, l) h = tt

  reconcile_outcome-Shown :
      (c : Completer) (s : JobState) (r : Outcome Observed × Disk)
      → status i.inference_id c.ledger.db ≡ some s
      → IsWorking s
      → Shown r (reconcile_outcome faults codec i c r)
  unfolding reconcile_outcome
  reconcile_outcome-Shown c s (done observed, d) at w =
      completed_reply-Shown c (done observed) d
        (complete_cleanup i.inference_id (codec.observed_text observed) c.ledger)
        (complete_cleanup-Ends i.inference_id (codec.observed_text observed) c.ledger)
  reconcile_outcome-Shown c s (failed e, d) at w =
      completed_reply-Shown c (failed e) d
        (fail_cleanup i.inference_id (codec.failure_text e) c.ledger)
        (fail_cleanup-Ends i.inference_id (codec.failure_text e) s c.ledger at w)

  reconcile_recorded-Shown :
      (c : Completer) (x : Result Job × Ledger)
      → Ends (λ job l'. Reads i.inference_id IsWorking job l'.db) x
      → Shown
          (executed faults codec i on_collision (record c { ledger = x.1 }))
          (reconcile_recorded faults codec i on_collision c x)
  unfolding reconcile_recorded
  reconcile_recorded-Shown c (ok job, l) h =
      reconcile_outcome-Shown (record c { ledger = l }) job.state
        (executed faults codec i on_collision (record c { ledger = l })) h.0 h.1
  reconcile_recorded-Shown c (err e, l) h = tt

  -- A reply of `reconcile` to a job whose state is settled, or not.
  abbrev pub Reported : Completer → Option JobState → Reply JobState × Completer → Type 0
  Reported c (some s) out = out ≡ (returned s, c)
  Reported c none out = Shown (attempt c) out

  reconcile_from-Reported :
      (c : Completer) (o : Option JobState)
      → Reported c o (reconcile_from faults codec i on_collision c o)
  unfolding reconcile_from reconcile_open
  reconcile_from-Reported c (some s) = refl
  reconcile_from-Reported c none =
      reconcile_recorded-Shown c (record_cleanup_intent i c.ledger)
        (record_cleanup_intent-Ends i c.ledger)

  -- A reply of `reconcile` on a closed ledger, or on an open one.
  abbrev pub Answered : Bool → Completer → Reply JobState × Completer → Type 0
  Answered true c out = out ≡ (raised (from_ledger programming_error), c)
  Answered false c out = Reported c (settled_state (status i.inference_id c.ledger.db)) out

  -- On an open ledger a job in a terminal state is reported as it stands, and neither the ledger nor
  -- a file is touched. For any other job, what `reconcile` returns is the state that the job is then
  -- in, which is terminal exactly if the execution on the disk succeeded; and it raises no
  -- CleanupError. On a closed ledger it raises sqlite3.ProgrammingError and touches nothing.
  pub reconcile-Reported :
      (c : Completer) → Answered c.ledger.closed c (reconcile faults codec i on_collision c)
  unfolding reconcile reconcile_read get
  reconcile-Reported c = go c.ledger.closed
    where
      go :
          (b : Bool)
          → Answered b c (
              reconcile_read faults codec i on_collision c
                (if b then err programming_error else ok (stored_job i.inference_id c.ledger.db)))
      go true = refl
      go false =
          subst
            (λ o. Reported c o (
              reconcile_from faults codec i on_collision c
                (settled (stored_job i.inference_id c.ledger.db))))
            (settled-stored_job i.inference_id c.ledger.db)
            (reconcile_from-Reported c (settled (stored_job i.inference_id c.ledger.db)))
