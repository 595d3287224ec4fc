-- ===== src/Ledger/Jobs/Admission.antt =====
-- The tables after `admit` of image_processor/ledger/ledger.py.
use image_processor.Ledger.Columns.{encode_source, decode_source, encode_model, decode_model}
use image_processor.Base.{
  ℕ, ◌+◌, ◌≡◌, refl, ap, subst, ◌∙◌, inl, inr, pos, true, false, if◌then◌else◌, none, some, arith,
  ltb, Bool-cases, Option-cases,
}
use image_processor.Table.{find, sum}
use image_processor.Table.Laws.{find-insert, sum-insert}
use image_processor.Types.{Text, Job}
use image_processor.Ledger.Schema.{JobRow, Db, is_initial, row_to_job}
use image_processor.Ledger.Store.{Ledger, Result, ok, err, programming_error, Txn, finish, write}
use image_processor.Ledger.Store.Rules.{Ends}
use image_processor.Ledger.Jobs.{
  new_row, insert_job, admit_txn, admit, stored_job, get, reserved_bytes,
}

-- What holds of the tables when the closure returns holds of them after the transaction.
pub write-Ends :
    {A : Type 0} (P : A → Db → Type 0) (fn : Txn A) (l : Ledger)
    → Ends (λ a l'. P a l'.db) (fn l)
    → Ends (λ a l'. P a l'.db) (write fn l)
unfolding write
write-Ends {A} P fn l h = elim (Bool-cases l.closed) [
  | inl e ↦ simp e tt
  | inr e ↦ simp e (go (fn l) h)
]
  where
    go :
        (r : Result A × Ledger) → Ends (λ a l'. P a l'.db) r → Ends (λ a l'. P a l'.db) (finish l r)
    go (ok a, l') h = h
    go (err e, l') h = tt

-- The tables hold the job as it was given, with its reservation on top of the others.
abbrev pub Stored : Job → ℕ → Db → Db → Type 0
Stored job reserve before after =
    ((row : JobRow) × (find job.inference_id after.jobs ≡ some row)
      × (row_to_job job.inference_id row ≡ job))
    × (sum after.reservations ≡ sum before.reservations + reserve)

insert_job-Stored :
    (job : Job) (reserve now : ℕ) (d : Db)
    → find job.inference_id d.jobs ≡ none
    → Stored job reserve d (insert_job job reserve now d)
unfolding insert_job row_to_job new_row encode_source decode_source encode_model decode_model
insert_job-Stored job reserve now d absent = (
  (
    new_row job now,
    rw (find-insert job.inference_id job.inference_id (new_row job now) d.jobs, absent)
        (ground arith),
    refl,
  ),
  sum-insert job.inference_id reserve d.reservations,
)

admit_txn-Stored :
    (job : Job) (reserve : ℕ) (l : Ledger)
    → Ends (λ b l'. b ≡ true → Stored job reserve l.db l'.db) (admit_txn job reserve l)
unfolding admit_txn
admit_txn-Stored job reserve l = elim (Option-cases (find job.inference_id l.db.jobs)) [
  | inr (row, found) ↦ rw found (λ e. cc)
  | inl absent ↦
      rw absent (elim (Bool-cases (ltb l.reserve_budget_bytes (sum l.db.reservations + reserve))) [
        | inl over ↦ rw over (λ e. cc)
        | inr fits ↦ rw fits (λ _. insert_job-Stored job reserve (l.clock l.readings) l.db absent)
      ])
]

admit-Ends :
    (job : Job) (reserve : ℕ) (l : Ledger)
    → Ends (λ b l'. b ≡ true → Stored job reserve l.db l'.db) (admit job (pos reserve) l)
unfolding admit
admit-Ends job reserve l = elim (Bool-cases (is_initial job.state)) [
  | inl e ↦ rw e (
      write-Ends (λ b d. b ≡ true → Stored job reserve l.db d) (admit_txn job reserve) l
        (admit_txn-Stored job reserve l))
  | inr e ↦ rw e tt
]

Ends-ok :
    {A : Type 0} (P : A → Ledger → Type 0) (a : A) (r : Result A × Ledger)
    → r.0 ≡ ok a
    → Ends P r
    → P a r.1
Ends-ok P a (ok b, l) e h = let same : b ≡ a = cc in subst (λ c. P c l) same h
Ends-ok P a (err d, l) e h = cc

get-found :
    (ident : Text) (row : JobRow) (job : Job) (l : Ledger)
    → l.closed ≡ false
    → find ident l.db.jobs ≡ some row
    → row_to_job ident row ≡ job
    → get ident l ≡ ok (some job)
unfolding get
get-found ident row job l opened found same =
    ap (λ b. if b then err programming_error else ok (stored_job ident l.db)) opened
    ∙ ap (λ o. ok (elim o [ none ↦ none | some r ↦ some (row_to_job ident r) ])) found
    ∙ ap (λ j. ok (some j)) same

reserved_bytes-open :
    (l : Ledger) → l.closed ≡ false → reserved_bytes l ≡ ok (sum l.db.reservations)
unfolding reserved_bytes
reserved_bytes-open l opened =
    ap (λ b. if b then err programming_error else ok (sum l.db.reservations)) opened

-- A transaction that returns was run on an open ledger, and leaves it open.
write-open : {A : Type 0} (fn : Txn A) (l : Ledger) → Ends (λ _ l'. l'.closed ≡ false) (write fn l)
unfolding write
write-open {A} fn l = elim (Bool-cases l.closed) [
  | inl e ↦ simp e tt
  | inr e ↦ simp e (go (fn l) e)
]
  where
    go : (r : Result A × Ledger) → l.closed ≡ false → Ends (λ _ l'. l'.closed ≡ false) (finish l r)
    go (ok a, l') e = e
    go (err d, l') e = tt

admit-open :
    (job : Job) (reserve : ℕ) (l : Ledger)
    → Ends (λ _ l'. l'.closed ≡ false) (admit job (pos reserve) l)
unfolding admit
admit-open job reserve l = elim (Bool-cases (is_initial job.state)) [
  | inl e ↦ rw e (write-open (admit_txn job reserve) l)
  | inr e ↦ rw e tt
]

-- An admission that answers True has stored the job: `get` then gives it back, field for field as
-- it was given, out of the columns that it was encoded into, and the bytes reserved by all jobs
-- have grown by exactly its reservation.
pub admit-Stored :
    (job : Job) (reserve : ℕ) (l : Ledger)
    → (admit job (pos reserve) l).0 ≡ ok true
    → (get job.inference_id (admit job (pos reserve) l).1 ≡ ok (some job))
      × (reserved_bytes (admit job (pos reserve) l).1 ≡ ok (sum l.db.reservations + reserve))
admit-Stored job reserve l h =
    let after = (admit job (pos reserve) l).1 in
    let ((row, found, same), grown) =
      Ends-ok (λ b l'. b ≡ true → Stored job reserve l.db l'.db) true (admit job (pos reserve) l) h
        (admit-Ends job reserve l) refl in
    let opened =
      Ends-ok (λ _ l'. l'.closed ≡ false) true (admit job (pos reserve) l) h
        (admit-open job reserve l) in
    (
      get-found job.inference_id row job after opened found same,
      reserved_bytes-open after opened ∙ ap ok grown,
    )
