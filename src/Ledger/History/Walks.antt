-- ===== src/Ledger/History/Walks.antt =====
-- The lifecycle over histories of calls (image_processor/ledger/ledger.py).
use image_processor.Base.{◌≡◌, subst, true, some, List, [], ◌∷◌, All}
use image_processor.Types.{Text, Bytes, JobState, is_terminal}
use image_processor.Ledger.Schema.{Db}
use image_processor.Ledger.Store.{Ledger, close}
use image_processor.Ledger.Jobs.Moves.{status}
use image_processor.Ledger.Lifecycle.{Walk, stay, Follows, Walk-terminal}
use image_processor.Ledger.Lifecycle.Publication.{
  transition-Follows, commit_result-Follows, mark_published-Follows, mark_publish_attempt-Follows,
  exhaust_publish-Follows, retry_publication-Follows,
}
use image_processor.Ledger.Lifecycle.Cleanups.{
  admit-Follows, record_cleanup_intent-Follows, complete_cleanup-Follows, fail_cleanup-Follows,
  set_route_generation-Follows, kv_set-Follows,
}
use image_processor.Ledger.Lifecycle.Restarts.{
  requeue_for_reinference-Follows, requeue_blocked-Follows, recover-Follows,
}
use image_processor.Ledger.Sound.{Sound}
use image_processor.Ledger.History.{
  Call, admits, transitions, commits, confirms, attempts, exhausts, retries, intends, completes,
  fails, reinfers, unblocks, recovers, closes, generates, sets, IsCallerEdge, step, run,
}
use image_processor.Ledger.History.Invariant.{step-Sound}

module _ (sha256 : Bytes → Text) where
  step-Follows :
      (d0 : Db) (l : Ledger) (c : Call)
      → Sound l
      → Follows d0 l.db
      → Follows d0 (step sha256 l c).db
  unfolding step close
  step-Follows d0 l (admits job reserve) s f = admit-Follows d0 job reserve l f
  step-Follows d0 l (transitions ident expected new fields) s f =
      transition-Follows d0 ident expected new fields l f
  step-Follows d0 l (commits ident result sidecar rows) s f =
      commit_result-Follows d0 sha256 ident result sidecar rows l f
  step-Follows d0 l (confirms outbox_id) s f = mark_published-Follows d0 outbox_id l f
  step-Follows d0 l (attempts outbox_id error) s f =
      mark_publish_attempt-Follows d0 outbox_id error l f
  step-Follows d0 l (exhausts ident) s f = exhaust_publish-Follows d0 ident l f
  step-Follows d0 l (retries ident) s f = retry_publication-Follows d0 ident l f
  step-Follows d0 l (intends intent) s f = record_cleanup_intent-Follows d0 intent l f
  step-Follows d0 l (completes ident observed) s f = complete_cleanup-Follows d0 ident observed l f
  step-Follows d0 l (fails ident error) s f = fail_cleanup-Follows d0 ident error l f
  step-Follows d0 l (reinfers ident reason) s f =
      requeue_for_reinference-Follows d0 ident reason l f
  step-Follows d0 l (unblocks route_id) s f = requeue_blocked-Follows d0 route_id l s f
  step-Follows d0 l recovers s f = recover-Follows d0 l s f
  step-Follows d0 l closes s f = f
  step-Follows d0 l (generates route_id desired active) s f =
      set_route_generation-Follows d0 route_id desired active l f
  step-Follows d0 l (sets key value) s f = kv_set-Follows d0 key value l f

  runs-Follows :
      (d0 : Db) (l : Ledger) (cs : List Call)
      → All IsCallerEdge cs
      → Sound l
      → Follows d0 l.db
      → Follows d0 (run sha256 l cs).db
  unfolding run
  runs-Follows d0 l [] e s f = f
  runs-Follows d0 l (c ∷ cs) e s f =
      runs-Follows d0 (step sha256 l c) cs e.1 (step-Sound sha256 l c e.0 s)
        (step-Follows d0 l c s f)

  -- In a ledger whose database is sound, the states of a job before and after a sequence of calls
  -- are joined by a walk of lifecycle edges: admission into an initial state, the edges of
  -- TRANSITIONS, and those of RECOVERY_EDGES; if no direct `transition` of the sequence names
  -- PUBLISHED as its target.
  run-Follows :
      (l : Ledger) (cs : List Call)
      → All IsCallerEdge cs
      → Sound l
      → Follows l.db (run sha256 l cs).db
  run-Follows l cs e s = runs-Follows l.db l cs e s (λ k. stay)

  -- In a ledger whose database is sound, a job that is COMPLETED, QUARANTINED or RETAINED_FAILED is
  -- so after any sequence of calls, if no direct `transition` of the sequence names PUBLISHED as its
  -- target.
  pub run-terminal :
      (l : Ledger) (cs : List Call) (ident : Text) (s : JobState)
      → All IsCallerEdge cs
      → Sound l
      → is_terminal s ≡ true
      → status ident l.db ≡ some s
      → status ident (run sha256 l cs).db ≡ some s
  run-terminal l cs ident s e sound ended at =
      Walk-terminal s _ ended (
        subst (λ o. Walk o (status ident (run sha256 l cs).db)) at (run-Follows l cs e sound ident))
