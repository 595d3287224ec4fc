-- ===== src/Ledger/Sound/Cleanups.antt =====
-- The invariant and `record_cleanup_intent`, `complete_cleanup` and `fail_cleanup` of
-- image_processor/ledger/ledger.py.
use image_processor.Base.{
  ℕ, suc, ◌≡◌, refl, ◌≢◌, inl, inr, true, false, Option, none, some, [], ◌∷◌, arith, ◌==◌,
  if◌then◌else◌, Bool-cases, Option-cases,
}
use image_processor.Table.{find, upsert}
use image_processor.Table.Laws.{find-update, find-insert}
use image_processor.Types.{
  Text, JobState, is, is_in, CleanupIntent, input_invalid, processing_exhausted, published,
  cleanup_pending, cleanup_failed,
}
use image_processor.Ledger.Schema.{JobRow, Db}
use image_processor.Ledger.Store.{Ledger}
use image_processor.Ledger.Store.Rules.{Ends}
use image_processor.Ledger.Jobs.{last_error, set_state}
use image_processor.Ledger.Jobs.Moves.{status, fetch_job-Ends}
use image_processor.Ledger.Cleanup.{
  put_intent, intent_row, record_cleanup_intent_txn, record_cleanup_intent, completing_edge,
  observe, complete_cleanup_txn, complete_cleanup, fail_cleanup_txn, fail_cleanup,
}
use image_processor.Ledger.Outbox.{outstanding}
use image_processor.Ledger.Sound.{
  IsSound, IsSoundBut, Sound, is_past, is_early, is_cleaning, has_intent, rows_of,
}
use image_processor.Ledger.Sound.Moves.{frame-IsSound}
use image_processor.Ledger.Sound.Transactions.{write-Sound, set_state-repairs, set_state-IsSound}

-- Recording an outcome against an intent adds none.
has_intent-observe :
    (ident k : Text) (observed : Option Text) (d : Db)
    → has_intent k (observe ident observed d) ≡ has_intent k d
unfolding observe
has_intent-observe ident k observed d = elim (Option-cases (find k d.cleanup_intents)) [
  | inl e ↦ rw (find-update k ident _ d.cleanup_intents, e) (ground arith)
  | inr (r, e) ↦ rw (find-update k ident _ d.cleanup_intents, e) (ground arith)
]

has_intent-put_intent :
    (i : CleanupIntent) (now : ℕ) (k : Text) (d : Db)
    → (i.inference_id == k) ≡ false
    → has_intent k (put_intent i now d) ≡ has_intent k d
unfolding put_intent upsert
has_intent-put_intent i now k d ne = ground (
  arith,
  find-update k i.inference_id (λ _. intent_row i now) d.cleanup_intents,
  find-insert k i.inference_id (intent_row i now) d.cleanup_intents,
)

stay_cleaning :
    (i : CleanupIntent) (row : JobRow) (l : Ledger)
    → find i.inference_id l.db.jobs ≡ some row
    → is_in row.state (input_invalid ∷ processing_exhausted ∷ cleanup_pending ∷ []) ≡ true
    → is_cleaning (status i.inference_id l.db) ≡ true
unfolding is_cleaning
stay_cleaning i row l found e = ground arith

completing_edge-ne-published : (a b : JobState) → completing_edge a ≡ some b → b ≢ published
unfolding completing_edge
completing_edge-ne-published a b h p = ground arith

module _ {budget : ℕ} where
  observe-IsSound :
      (ident : Text) (observed : Option Text) (d : Db)
      → IsSound budget d
      → IsSound budget (observe ident observed d)
  unfolding observe outstanding rows_of
  observe-IsSound ident observed d s =
      frame-IsSound d (observe ident observed d) s.keyed (λ k. refl) refl (λ k. omega arith)
        (λ k. omega arith) (λ k. has_intent-observe ident k observed d) s

  put_intent-But :
      (i : CleanupIntent) (now : ℕ) (d : Db)
      → IsSound budget d
      → IsSoundBut i.inference_id budget (put_intent i now d)
  unfolding put_intent outstanding rows_of
  put_intent-But i now d s = record {
    keyed = s.keyed;
    reserved = s.reserved;
    within = s.within;
    confirmed = λ k _. s.confirmed k;
    unprepared = λ k _. s.unprepared k;
    intended = λ k ne h. s.intended k (rw (has_intent-put_intent i now k d ne) at h);
  }

  -- An intent of a job that is under cleanup already fits the state.
  put_intent-IsSound :
      (i : CleanupIntent) (now : ℕ) (d : Db)
      → is_cleaning (status i.inference_id d) ≡ true
      → IsSound budget d
      → IsSound budget (put_intent i now d)
  unfolding put_intent outstanding rows_of
  put_intent-IsSound i now d c s = record {
    keyed = s.keyed;
    reserved = s.reserved;
    within = s.within;
    confirmed = s.confirmed;
    unprepared = s.unprepared;
    intended = λ k h. elim (Bool-cases (i.inference_id == k)) [
      | inl e ↦ ground (arith, c)
      | inr ne ↦ s.intended k (rw (has_intent-put_intent i now k d ne) at h)
    ];
  }

  -- A confirmed job enters cleanup with its new intent.
  enter_cleanup-IsSound :
      (i : CleanupIntent) (row : JobRow) (l : Ledger)
      → find i.inference_id l.db.jobs ≡ some row
      → is_in row.state (published ∷ cleanup_failed ∷ []) ≡ true
      → IsSound budget l.db
      → Ends
          (λ _ l'. IsSound budget l'.db)
          (set_state i.inference_id
            (some row.state)
            cleanup_pending
            []
            (record l { readings = suc l.readings; db = put_intent i (l.clock l.readings) l.db }))
  unfolding put_intent outstanding is_past is_early is_cleaning
  enter_cleanup-IsSound i row l found e s =
      set_state-repairs i.inference_id (some row.state) cleanup_pending []
        (record l { readings = suc l.readings; db = put_intent i (l.clock l.readings) l.db })
        (λ _. refl) (λ _. ground (arith, s.confirmed i.inference_id)) (λ h. cc)
        (put_intent-But i (l.clock l.readings) l.db s)

  record_cleanup_intent_txn-IsSound :
      (i : CleanupIntent) (l : Ledger)
      → IsSound budget l.db
      → Ends (λ _ l'. IsSound budget l'.db) (record_cleanup_intent_txn i l)
  unfolding record_cleanup_intent_txn
  record_cleanup_intent_txn-IsSound i l s = elim (Option-cases (find i.inference_id l.db.jobs)) [
    | inl e ↦ rw e tt
    | inr (row, found) ↦
        let after : Ledger = record l {
          readings = suc l.readings;
          db = put_intent i (l.clock l.readings) l.db;
        } in
        rw found (elim (Bool-cases (is_in row.state (published ∷ cleanup_failed ∷ []))) [
          | inl e ↦ rw e (enter_cleanup-IsSound i row l found e s)
          | inr e ↦
              rw e
                (elim (Bool-cases
                  (is_in row.state (input_invalid ∷ processing_exhausted ∷ cleanup_pending ∷ []))) [
                    | inl e ↦ rw e (
                        fetch_job-Ends (λ _ l'. IsSound budget l'.db) i.inference_id after
                          λ _.
                            put_intent-IsSound i (l.clock l.readings) l.db
                              (stay_cleaning i row l found e) s)
                    | inr e ↦ rw e tt
                  ])
        ])
  ]

  failed_quiet :
      (ident : Text) (row : JobRow) (d : Db)
      → find ident d.jobs ≡ some row
      → IsSound budget d
      → (if is row.state cleanup_pending then cleanup_failed else row.state) ≡ published
      → outstanding ident (observe ident none d) ≡ 0
  unfolding observe outstanding is_past
  failed_quiet ident row d found s h = ground (arith, s.confirmed ident)

  complete_cleanup_txn-IsSound :
      (ident observed : Text) (l : Ledger)
      → IsSound budget l.db
      → Ends (λ _ l'. IsSound budget l'.db) (complete_cleanup_txn ident observed l)
  unfolding complete_cleanup_txn
  complete_cleanup_txn-IsSound ident observed l s = elim (Option-cases (find ident l.db.jobs)) [
    | inl e ↦ rw e tt
    | inr (row, found) ↦ rw found (elim (Option-cases (completing_edge row.state)) [
      | inl e ↦ rw e tt
      | inr (target, e) ↦ rw e (
          set_state-IsSound ident (some row.state) target []
            (record l { db = observe ident (some observed) l.db })
            (λ p. absurd (completing_edge-ne-published row.state target e p))
            (observe-IsSound ident (some observed) l.db s))
    ])
  ]

  fail_cleanup_txn-IsSound :
      (ident error : Text) (l : Ledger)
      → IsSound budget l.db
      → Ends (λ _ l'. IsSound budget l'.db) (fail_cleanup_txn ident error l)
  unfolding fail_cleanup_txn
  fail_cleanup_txn-IsSound ident error l s = elim (Option-cases (find ident l.db.jobs)) [
    | inl e ↦ rw e tt
    | inr (row, found) ↦ rw found (
        set_state-IsSound ident (some row.state)
          (if is row.state cleanup_pending then cleanup_failed else row.state)
          (last_error (some error) ∷ []) (record l { db = observe ident none l.db })
          (failed_quiet ident row l.db found s) (observe-IsSound ident none l.db s))
  ]

pub record_cleanup_intent-Sound :
    (i : CleanupIntent) (l : Ledger) → Sound l → Sound (record_cleanup_intent i l).1
unfolding record_cleanup_intent
record_cleanup_intent-Sound i l s =
    write-Sound (record_cleanup_intent_txn i) l (record_cleanup_intent_txn-IsSound i l s) s

pub complete_cleanup-Sound :
    (ident observed : Text) (l : Ledger) → Sound l → Sound (complete_cleanup ident observed l).1
unfolding complete_cleanup
complete_cleanup-Sound ident observed l s =
    write-Sound (complete_cleanup_txn ident observed) l
      (complete_cleanup_txn-IsSound ident observed l s) s

pub fail_cleanup-Sound :
    (ident error : Text) (l : Ledger) → Sound l → Sound (fail_cleanup ident error l).1
unfolding fail_cleanup
fail_cleanup-Sound ident error l s =
    write-Sound (fail_cleanup_txn ident error) l (fail_cleanup_txn-IsSound ident error l s) s
