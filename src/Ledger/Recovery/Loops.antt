-- ===== src/Ledger/Recovery/Loops.antt =====
-- The loops of `requeue_blocked` and `recover` in image_processor/ledger/ledger.py, for a property
-- of the database that one restart of a job preserves.
use image_processor.Base.{
  ℕ, suc, ◌≡◌, sym, subst, inl, inr, Bool, true, false, Option, none, some, List, [], ◌∷◌, map,
  arith, Bool-cases, Option-cases, All, All-map, All-sort_by, All-select, length,
}
use image_processor.Table.{Table, IsKeyed, find}
use image_processor.Table.Laws.{find-update-none, All-find}
use image_processor.Types.{
  Text, Job, JobState, is_in, ready, claimed, waiting_model, inferencing, blocked_configuration,
  retry_wait,
}
use image_processor.Ledger.Schema.{JobRow, Db, is_recovery_edge}
use image_processor.Ledger.Store.{Ledger, pure}
use image_processor.Ledger.Store.Rules.{Ends, Ends-bind}
use image_processor.Ledger.Jobs.{Field, any_unknown, put_state, fetch_job, before}
use image_processor.Ledger.Jobs.Moves.{status, status-put_state, fetch_job-Ends}
use image_processor.Ledger.Recovery.{
  RecoveryMove, restart_target, plan_recovery, force_state, rows_in, force_all, requeue_blocked_txn,
  mid_flight, recovery_row, apply_moves, report, recover_txn,
}

-- A job with neither messages nor an intent, from which a job may go back to READY.
abbrev pub is_restartable : Option JobState → Bool
is_restartable none = false
is_restartable (some s) =
    is_in s
      (inferencing ∷ claimed ∷ waiting_model ∷ retry_wait ∷ blocked_configuration ∷ ready ∷ [])

-- What cannot be found is not read back either.
fetch_job-missing :
    (P : Job → Ledger → Type 0) (ident : Text) (fields : List Field) (now : ℕ) (l : Ledger)
    → find ident l.db.jobs ≡ none
    → Ends P (fetch_job ident (record l { db = put_state ident ready fields now l.db }))
unfolding fetch_job put_state
fetch_job-missing P ident fields now l e = rw (find-update-none ident _ l.db.jobs e) tt

-- The ledger after a recovery edge to READY.
abbrev pub restarted : Text → List Field → Ledger → Ledger
restarted ident fields l = record l {
  readings = suc l.readings;
  db = put_state ident ready fields (l.clock l.readings) l.db;
}

-- A recovery edge that is taken has found its job.
pub force_state-Ends :
    (P : Job → Ledger → Type 0) (ident : Text) (current : JobState) (fields : List Field)
    (l : Ledger)
    → ((row : JobRow)
        → find ident l.db.jobs ≡ some row
        → (j : Job) → P j (restarted ident fields l))
    → Ends P (force_state ident current ready fields l)
unfolding force_state
force_state-Ends P ident current fields l h = elim (Bool-cases (is_recovery_edge current ready)) [
  | inr e ↦ rw e tt
  | inl e ↦ rw e (elim (Bool-cases (any_unknown fields)) [
    | inl e ↦ rw e tt
    | inr e ↦ rw e (elim (Option-cases (find ident l.db.jobs)) [
      | inl e ↦
          fetch_job-missing P ident fields (l.clock l.readings)
            (record l { readings = suc l.readings }) e
      | inr (row, e) ↦ fetch_job-Ends P ident (restarted ident fields l) (h row e)
    ])
  ])
]

restartable-put_state :
    (ident : Text) (fields : List Field) (now : ℕ) (d : Db) (k : Text)
    → is_restartable (status k d) ≡ true
    → is_restartable (status k (put_state ident ready fields now d)) ≡ true
restartable-put_state ident fields now d k h =
    rw (status-put_state ident ready fields now d k) (ground arith)

-- A planned move goes to READY, from a state that allows it.
abbrev Planned : Ledger → RecoveryMove → Type 0
Planned l m = (m.new ≡ ready) × (is_restartable (status m.inference_id l.db) ≡ true)

-- Each row that a query by states returns is the one that a lookup finds.
pub rows_in-found :
    (states : List JobState) (route_id : Option Text) (jobs : Table JobRow)
    → IsKeyed jobs
    → All
        (λ row. (is_in row.1.state states ≡ true) × (find row.0 jobs ≡ some row.1))
        (rows_in states route_id jobs)
rows_in-found states route_id jobs h = All-sort_by before _ _ (
    All-map _ _ _ (λ row p. (ground (arith, p.0), p.1))
      (All-select _ _ jobs (All-find jobs jobs (λ k v e. e) h)))

restart_target-ready :
    (state : JobState) (next : Option ℕ) (now : ℕ) (new : JobState)
    → restart_target state next now ≡ some new
    → new ≡ ready
unfolding restart_target
restart_target-ready state next now new h = ground arith

mid_flight-restartable :
    (state : JobState) → is_in state mid_flight ≡ true → is_restartable (some state) ≡ true
mid_flight-restartable state h = ground arith

plan-Planned :
    (rows : List (Text × JobRow)) (now : ℕ) (l : Ledger)
    → All (λ row. (is_in row.1.state mid_flight ≡ true) × (find row.0 l.db.jobs ≡ some row.1)) rows
    → All (Planned l) (plan_recovery (map recovery_row rows) now)
unfolding plan_recovery
plan-Planned [] now l h = tt
plan-Planned ((ident, r) ∷ rows) now l h =
    elim (Option-cases (restart_target r.state r.next_attempt_at_ms now)) [
      | inl e ↦ rw e (plan-Planned rows now l h.1)
      | inr (new, e) ↦ rw e (
        (
          restart_target-ready r.state r.next_attempt_at_ms now new e,
          rw h.0.1 (mid_flight-restartable r.state h.0.0),
        ),
        plan-Planned rows now l h.1,
      )
    ]

blocked-restartable :
    (rows : List (Text × JobRow)) (l : Ledger)
    → All
        (λ row.
          (is_in row.1.state (blocked_configuration ∷ []) ≡ true)
          × (find row.0 l.db.jobs ≡ some row.1))
        rows
    → All (λ row. is_restartable (status row.0 l.db) ≡ true) rows
blocked-restartable [] l h = tt
blocked-restartable (row ∷ rows) l h = (ground (arith, h.0), blocked-restartable rows l h.1)

-- A property of the database that survives each restart of a job that may be restarted.
module _ (P : Db → Type 0)
    (survives : (ident : Text) (now : ℕ) (row : JobRow) (d : Db)
      → find ident d.jobs ≡ some row
      → is_restartable (some row.state) ≡ true
      → P d
      → P (put_state ident ready [] now d)) where
  survives-restarted :
      (ident : Text) (row : JobRow) (l : Ledger)
      → find ident l.db.jobs ≡ some row
      → is_restartable (status ident l.db) ≡ true
      → P l.db
      → P (restarted ident [] l).db
  survives-restarted ident row l found h s =
      survives ident (l.clock l.readings) row l.db found (rw found at h) s

  force_all-Ends :
      (rows : List (Text × JobRow)) (current : JobState) (l : Ledger)
      → All (λ row. is_restartable (status row.0 l.db) ≡ true) rows
      → P l.db
      → Ends (λ _ l'. P l'.db) (force_all rows current l)
  unfolding force_all
  force_all-Ends [] current l h s = s
  force_all-Ends ((ident, _) ∷ rows) current l h s =
      Ends-bind (λ _ l'. P l'.db) (force_state ident current ready []) (λ _. force_all rows current)
        l
        (force_state-Ends (λ _ l'. Ends (λ _ l''. P l''.db) (force_all rows current l')) ident
          current [] l
          λ row found _.
            force_all-Ends rows current (restarted ident [] l)
              (All-map _ _ rows (λ r. restartable-put_state ident [] (l.clock l.readings) l.db r.0)
                h.1)
              (survives-restarted ident row l found h.0 s))

  apply_moves-Ends :
      (moves : List RecoveryMove) (l : Ledger)
      → All (Planned l) moves
      → P l.db
      → Ends (λ _ l'. P l'.db) (apply_moves moves l)
  unfolding apply_moves
  apply_moves-Ends [] l h s = s
  apply_moves-Ends (m ∷ moves) l h s =
      Ends-bind (λ _ l'. P l'.db) (force_state m.inference_id m.current m.new [])
        (λ _. apply_moves moves) l
        (subst
          (λ n.
            Ends (λ _ l'. Ends (λ _ l''. P l''.db) (apply_moves moves l'))
              (force_state m.inference_id m.current n [] l))
          (sym h.0.0)
          (force_state-Ends (λ _ l'. Ends (λ _ l''. P l''.db) (apply_moves moves l')) m.inference_id
            m.current [] l
            λ row found _.
              apply_moves-Ends moves (restarted m.inference_id [] l)
                (All-map _ _ moves
                  (λ n p. (
                    p.0,
                    restartable-put_state m.inference_id [] (l.clock l.readings) l.db n.inference_id
                        p.1,
                  ))
                  h.1)
                (survives-restarted m.inference_id row l found h.0.1 s)))

  pub requeue_blocked_txn-Ends :
      (route_id : Option Text) (l : Ledger)
      → IsKeyed l.db.jobs
      → P l.db
      → Ends (λ _ l'. P l'.db) (requeue_blocked_txn route_id l)
  unfolding requeue_blocked_txn
  requeue_blocked_txn-Ends route_id l keyed s =
      let rows = rows_in (blocked_configuration ∷ []) route_id l.db.jobs in
      Ends-bind (λ _ l'. P l'.db) (force_all rows blocked_configuration) (λ _. pure (length rows)) l
        (force_all-Ends rows blocked_configuration l
          (blocked-restartable rows l
            (rows_in-found (blocked_configuration ∷ []) route_id l.db.jobs keyed))
          s)

  pub recover_txn-Ends :
      (now : ℕ) (l : Ledger)
      → IsKeyed l.db.jobs
      → P l.db
      → Ends (λ _ l'. P l'.db) (recover_txn now l)
  unfolding recover_txn
  recover_txn-Ends now l keyed s =
      let rows = rows_in mid_flight none l.db.jobs in
      let moves = plan_recovery (map recovery_row rows) now in
      Ends-bind (λ _ l'. P l'.db) (apply_moves moves) (report moves) l
        (apply_moves-Ends moves l
          (plan-Planned rows now l (rows_in-found mid_flight none l.db.jobs keyed)) s)
