-- ===== src/Ledger/Lifecycle/Restarts.antt =====
-- The lifecycle and the recovery calls of image_processor/ledger/ledger.py.
use image_processor.Base.{
  ℕ, suc, ◌≡◌, ◌⊎◌, inl, inr, true, false, Option, some, [], ◌∷◌, arith, Bool-cases, Option-cases,
}
use image_processor.Table.{find}
use image_processor.Table.Laws.{find-update}
use image_processor.Types.{Text, JobState, ready}
use image_processor.Ledger.Schema.{JobRow, Db, is_legal, is_recovery_edge}
use image_processor.Ledger.Store.{Ledger}
use image_processor.Ledger.Store.Rules.{Ends}
use image_processor.Ledger.Jobs.{put_state, last_error}
use image_processor.Ledger.Jobs.Moves.{status, is_refused}
use image_processor.Ledger.Recovery.{
  is_invalidatable, clear_result, drop_result, requeue_for_reinference_txn, requeue_for_reinference,
  requeue_blocked_txn, requeue_blocked, recover_txn, recover,
}
use image_processor.Ledger.Recovery.Loops.{
  is_restartable, force_state-Ends, requeue_blocked_txn-Ends, recover_txn-Ends,
}
use image_processor.Ledger.Sound.{Sound}
use image_processor.Ledger.Sound.Restarts.{drop_result-state}
use image_processor.Ledger.Lifecycle.{
  Edge, restart, legal, Follows, same_states, put_state-Follows, write-Follows,
}

restart_edges :
    (s : JobState)
    → is_restartable (some s) ≡ true
    → (is_recovery_edge s ready ≡ true) ⊎ (is_refused s ready ≡ false)
unfolding is_recovery_edge is_legal
restart_edges s h = ground arith

restart-Edge : (s : JobState) → is_restartable (some s) ≡ true → Edge (some s) (some ready)
restart-Edge s h = elim (restart_edges s h) [ inl e ↦ restart e | inr e ↦ legal e ]

invalid-Edge : (s : JobState) → is_invalidatable s ≡ true → is_recovery_edge s ready ≡ true
unfolding is_recovery_edge
invalid-Edge s h = ground arith

status-drop_result :
    (ident : Text) (d : Db) (k : Text) → status k (drop_result ident d) ≡ status k d
unfolding drop_result
status-drop_result ident d k = elim (Option-cases (find k d.jobs)) [
  | inl e ↦ rw (find-update k ident clear_result d.jobs, e) (ground arith)
  | inr (r, e) ↦ rw (find-update k ident clear_result d.jobs, e) (ground arith)
]

module _ (d0 : Db) where
  restart-Follows :
      (ident : Text) (now : ℕ) (row : JobRow) (d : Db)
      → find ident d.jobs ≡ some row
      → is_restartable (some row.state) ≡ true
      → Follows d0 d
      → Follows d0 (put_state ident ready [] now d)
  restart-Follows ident now row d found h f =
      put_state-Follows d0 ident ready [] now row d found (restart-Edge row.state h) f

  requeue_for_reinference_txn-Follows :
      (ident reason : Text) (l : Ledger)
      → Follows d0 l.db
      → Ends (λ _ l'. Follows d0 l'.db) (requeue_for_reinference_txn ident reason l)
  unfolding requeue_for_reinference_txn
  requeue_for_reinference_txn-Follows ident reason l f =
      elim (Option-cases (find ident l.db.jobs)) [
        | inl e ↦ rw e tt
        | inr (row, found) ↦ rw found (elim (Bool-cases (is_invalidatable row.state)) [
          | inr e ↦ rw e tt
          | inl e ↦ rw e (
              force_state-Ends (λ _ l'. Follows d0 l'.db) ident row.state
                (last_error (some reason) ∷ []) (record l { db = drop_result ident l.db })
                λ r at _.
                  let same = drop_result-state ident row l.db found r at in
                  put_state-Follows d0 ident ready (last_error (some reason) ∷ [])
                    (l.clock l.readings) r (drop_result ident l.db) at
                    (restart (rw same (invalid-Edge row.state e)))
                    (same_states d0 l.db (drop_result ident l.db) (status-drop_result ident l.db)
                      f))
        ])
      ]

  pub requeue_for_reinference-Follows :
      (ident reason : Text) (l : Ledger)
      → Follows d0 l.db
      → Follows d0 (requeue_for_reinference ident reason l).1.db
  unfolding requeue_for_reinference
  requeue_for_reinference-Follows ident reason l f =
      write-Follows d0 (requeue_for_reinference_txn ident reason) l
        (requeue_for_reinference_txn-Follows ident reason l f) f

  pub requeue_blocked-Follows :
      (route_id : Option Text) (l : Ledger)
      → Sound l
      → Follows d0 l.db
      → Follows d0 (requeue_blocked route_id l).1.db
  unfolding requeue_blocked
  requeue_blocked-Follows route_id l s f =
      write-Follows d0 (requeue_blocked_txn route_id) l
        (requeue_blocked_txn-Ends (Follows d0) restart-Follows route_id l s.keyed f) f

  pub recover-Follows : (l : Ledger) → Sound l → Follows d0 l.db → Follows d0 (recover l).1.db
  unfolding recover
  recover-Follows l s f =
      write-Follows d0 (recover_txn (l.clock l.readings)) (record l { readings = suc l.readings })
        (recover_txn-Ends (Follows d0) restart-Follows (l.clock l.readings)
          (record l { readings = suc l.readings }) s.keyed f)
        f
