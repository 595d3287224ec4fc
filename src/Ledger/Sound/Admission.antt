-- ===== src/Ledger/Sound/Admission.antt =====
-- The invariant and `admit`, `set_route_generation` and `kv_set` of
-- image_processor/ledger/ledger.py.
use image_processor.Base.{
  ℕ, ◌+◌, ◌≤◌, ◌≡◌, refl, inl, inr, ℤ, pos, negsuc, true, Option, none, some, arith, ◌==◌, ltb,
  if◌then◌else◌, Bool-cases, Option-cases,
}
use image_processor.Table.{IsKeyed, find, sum}
use image_processor.Table.Laws.{find-insert, insert-IsKeyed, sum-insert}
use image_processor.Types.{Text, Job}
use image_processor.Ledger.Schema.{Db, is_initial}
use image_processor.Ledger.Store.{Ledger}
use image_processor.Ledger.Store.Rules.{Ends}
use image_processor.Ledger.Jobs.{new_row, insert_job, admit_txn, admit}
use image_processor.Ledger.Jobs.Moves.{status}
use image_processor.Ledger.Outbox.{outstanding}
use image_processor.Ledger.Values.{set_route_generation, kv_set}
use image_processor.Ledger.Sound.{
  IsSound, Sound, is_open, is_past, is_early, is_cleaning, held, rows_of,
}
use image_processor.Ledger.Sound.Moves.{frame-IsSound}
use image_processor.Ledger.Sound.Transactions.{write-Sound}

module _ (job : Job) (reserve now : ℕ) (d : Db) (absent : find job.inference_id d.jobs ≡ none) where
  abbrev admitted : Db
  admitted = insert_job job reserve now d

  pub status-admitted :
      (k : Text)
      → status k admitted ≡ (if job.inference_id == k then some job.state else status k d)
  unfolding insert_job
  status-admitted k =
      ground (arith, absent, find-insert k job.inference_id (new_row job now) d.jobs)

  held-admitted : (k : Text) → held k admitted ≡ (if job.inference_id == k then true else held k d)
  unfolding insert_job
  held-admitted k = ground (arith, find-insert k job.inference_id reserve d.reservations)

  same_rest : (admitted.outbox ≡ d.outbox) × (admitted.cleanup_intents ≡ d.cleanup_intents)
  unfolding insert_job
  same_rest = (refl, refl)

  outstanding-admitted : (k : Text) → outstanding k admitted ≡ outstanding k d
  unfolding outstanding insert_job
  outstanding-admitted k = refl

  rows_of-admitted : (k : Text) → rows_of k admitted ≡ rows_of k d
  unfolding rows_of insert_job
  rows_of-admitted k = refl

  IsKeyed-admitted : IsKeyed d.jobs → IsKeyed admitted.jobs
  unfolding insert_job
  IsKeyed-admitted h = insert-IsKeyed job.inference_id (new_row job now) d.jobs absent h

  sum-admitted : sum admitted.reservations ≡ sum d.reservations + reserve
  unfolding insert_job
  sum-admitted = sum-insert job.inference_id reserve d.reservations

  insert_job-IsSound :
      {budget : ℕ}
      → is_initial job.state ≡ true
      → sum d.reservations + reserve ≤ budget
      → IsSound budget d
      → IsSound budget admitted
  unfolding is_open is_past is_early is_cleaning
  insert_job-IsSound fresh fits s = record {
    keyed = IsKeyed-admitted s.keyed;
    reserved = λ k. ground (arith, status-admitted k, held-admitted k, s.reserved k);
    within = omega (arith, sum-admitted);
    confirmed = λ k h. ground (arith, status-admitted k, outstanding-admitted k, s.confirmed k);
    unprepared =
        λ k h. ground (arith, absent, status-admitted k, rows_of-admitted k, s.unprepared k);
    intended = λ k h. ground (arith, absent, status-admitted k, same_rest.1, s.intended k);
  }

admit_txn-IsSound :
    {budget : ℕ} (job : Job) (reserve : ℕ) (l : Ledger)
    → is_initial job.state ≡ true
    → l.reserve_budget_bytes ≡ budget
    → IsSound budget l.db
    → Ends (λ _ l'. IsSound budget l'.db) (admit_txn job reserve l)
unfolding admit_txn
admit_txn-IsSound job reserve l fresh e s = elim (Option-cases (find job.inference_id l.db.jobs)) [
  | inr (row, found) ↦ rw found s
  | inl absent ↦
      rw absent (elim (Bool-cases (ltb l.reserve_budget_bytes (sum l.db.reservations + reserve))) [
        | inl over ↦ rw over s
        | inr fits ↦
            rw fits (
              insert_job-IsSound job reserve (l.clock l.readings) l.db absent fresh (ground arith)
                s)
      ])
]

pub admit-Sound : (job : Job) (reserve : ℤ) (l : Ledger) → Sound l → Sound (admit job reserve l).1
unfolding admit
admit-Sound job (negsuc _) l s = elim (Bool-cases (is_initial job.state)) [
  | inl e ↦ rw e s
  | inr e ↦ rw e s
]
admit-Sound job (pos reserve) l s = elim (Bool-cases (is_initial job.state)) [
  | inl e ↦
      rw e (write-Sound (admit_txn job reserve) l (admit_txn-IsSound job reserve l e refl s) s)
  | inr e ↦ rw e s
]

pub set_route_generation-Sound :
    (route_id desired : Text) (active : Option Text) (l : Ledger)
    → Sound l
    → Sound (set_route_generation route_id desired active l).1
unfolding set_route_generation outstanding rows_of
set_route_generation-Sound route_id desired active l s =
    write-Sound _ l
      (frame-IsSound l.db _ s.keyed (λ k. refl) refl (λ k. omega arith) (λ k. omega arith)
        (λ k. refl) s)
      s

pub kv_set-Sound :
    (key : Text) (value : Option Text) (l : Ledger) → Sound l → Sound (kv_set key value l).1
unfolding kv_set outstanding rows_of
kv_set-Sound key value l s =
    write-Sound _ l
      (frame-IsSound l.db _ s.keyed (λ k. refl) refl (λ k. omega arith) (λ k. omega arith)
        (λ k. refl) s)
      s
