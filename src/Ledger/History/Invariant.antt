-- ===== src/Ledger/History/Invariant.antt =====
-- The invariant of the state database over histories of calls (image_processor/ledger/ledger.py).
use image_processor.Base.{ℕ, refl, List, [], ◌∷◌, All, arith}
use image_processor.Table.{find, sum, count_where}
use image_processor.Types.{Text, Bytes}
use image_processor.Ledger.Store.{Ledger, close}
use image_processor.Ledger.Outbox.{outstanding}
use image_processor.Ledger.Sound.{IsSound, Sound, is_open, is_past, is_cleaning, rows_of}
use image_processor.Ledger.Sound.Transactions.{transition-Sound}
use image_processor.Ledger.Sound.Results.{
  commit_result-Sound, mark_published-Sound, mark_publish_attempt-Sound, exhaust_publish-Sound,
  retry_publication-Sound,
}
use image_processor.Ledger.Sound.Cleanups.{
  record_cleanup_intent-Sound, complete_cleanup-Sound, fail_cleanup-Sound,
}
use image_processor.Ledger.Sound.Restarts.{requeue_for_reinference-Sound}
use image_processor.Ledger.Sound.Loops.{requeue_blocked-Sound, recover-Sound}
use image_processor.Ledger.Sound.Admission.{admit-Sound, set_route_generation-Sound, kv_set-Sound}
use image_processor.Ledger.History.{
  Call, admits, transitions, commits, confirms, attempts, exhausts, retries, intends, completes,
  fails, reinfers, unblocks, recovers, closes, generates, sets, empty, open_new, IsCallerEdge, step,
  run,
}

new-IsSound : (budget : ℕ) → IsSound budget empty
unfolding find sum count_where outstanding rows_of is_open is_past is_cleaning
new-IsSound budget = record {
  keyed = tt;
  reserved = λ k. refl;
  within = omega arith;
  confirmed = λ k h. refl;
  unprepared = λ k h. refl;
  intended = λ k h. cc;
}

module _ (sha256 : Bytes → Text) where
  -- Every call keeps the database sound, whether it returns or raises, if a direct `transition`
  -- does not name PUBLISHED as its target.
  pub step-Sound : (l : Ledger) (c : Call) → IsCallerEdge c → Sound l → Sound (step sha256 l c)
  unfolding step close
  step-Sound l (admits job reserve) e s = admit-Sound job reserve l s
  step-Sound l (transitions ident expected new fields) e s =
      transition-Sound ident expected new fields l e s
  step-Sound l (commits ident result sidecar rows) e s =
      commit_result-Sound sha256 ident result sidecar rows l s
  step-Sound l (confirms outbox_id) e s = mark_published-Sound outbox_id l s
  step-Sound l (attempts outbox_id error) e s = mark_publish_attempt-Sound outbox_id error l s
  step-Sound l (exhausts ident) e s = exhaust_publish-Sound ident l s
  step-Sound l (retries ident) e s = retry_publication-Sound ident l s
  step-Sound l (intends intent) e s = record_cleanup_intent-Sound intent l s
  step-Sound l (completes ident observed) e s = complete_cleanup-Sound ident observed l s
  step-Sound l (fails ident error) e s = fail_cleanup-Sound ident error l s
  step-Sound l (reinfers ident reason) e s = requeue_for_reinference-Sound ident reason l s
  step-Sound l (unblocks route_id) e s = requeue_blocked-Sound route_id l s
  step-Sound l recovers e s = recover-Sound l s
  step-Sound l closes e s = s
  step-Sound l (generates route_id desired active) e s =
      set_route_generation-Sound route_id desired active l s
  step-Sound l (sets key value) e s = kv_set-Sound key value l s

  run-Sound :
      (l : Ledger) (cs : List Call) → All IsCallerEdge cs → Sound l → Sound (run sha256 l cs)
  unfolding run
  run-Sound l [] e s = s
  run-Sound l (c ∷ cs) e s = run-Sound (step sha256 l c) cs e.1 (step-Sound l c e.0 s)

  -- A new database is sound, and stays so through every history of calls in which no direct
  -- `transition` names PUBLISHED as its target: the jobs have distinct keys, exactly the open jobs
  -- hold a reservation, the reservations fit the budget, no job beyond publication has a gating
  -- message unconfirmed, no job without a result has a message, and only a job under cleanup has
  -- an intent.
  pub run-open_new-Sound :
      (budget : ℕ) (clock : ℕ → ℕ) (cs : List Call)
      → All IsCallerEdge cs
      → Sound (run sha256 (open_new budget clock) cs)
  run-open_new-Sound budget clock cs e = run-Sound (open_new budget clock) cs e (new-IsSound budget)
