-- ===== src/Ledger/Jobs/Moves.antt =====
-- The effect of the compare-and-set of image_processor/ledger/ledger.py on the jobs.
use image_processor.Base.{
  ℕ, suc, ◌≡◌, refl, sym, ◌∙◌, inl, inr, Bool, false, not, ◌&&◌, Option, none, some, List, [], ◌∷◌,
  arith, ◌==◌, if◌then◌else◌, Bool-cases, Option-cases,
}
use image_processor.Table.{find}
use image_processor.Table.Laws.{find-update}
use image_processor.Types.{Text, JobState, is, is_terminal, Job}
use image_processor.Ledger.Schema.{JobRow, Db, is_legal, row_to_job}
use image_processor.Ledger.Store.{Ledger}
use image_processor.Ledger.Store.Rules.{Ends}
use image_processor.Ledger.Jobs.{
  Field, attempts, config_generation, next_attempt_at_ms, staged_path, last_error, other,
  any_unknown, assign, put_state, release, fetch_job, is_unexpected, set_state,
}

abbrev pub state_of : Option JobRow → Option JobState
state_of none = none
state_of (some r) = some r.state

-- The state of a job, if it was admitted.
abbrev pub status : Text → Db → Option JobState
status ident d = state_of (find ident d.jobs)

pub assign-state : (fs : List Field) (r : JobRow) → (assign fs r).state ≡ r.state
unfolding assign
assign-state [] r = refl
assign-state (attempts n ∷ fs) r = assign-state fs (record r { attempts = n })
assign-state (config_generation n ∷ fs) r = assign-state fs (record r { config_generation = n })
assign-state (next_attempt_at_ms t ∷ fs) r = assign-state fs (record r { next_attempt_at_ms = t })
assign-state (staged_path p ∷ fs) r = assign-state fs (record r { staged_path = p })
assign-state (last_error e ∷ fs) r = assign-state fs (record r { last_error = e })
assign-state (other _ ∷ fs) r = assign-state fs r

-- The edges that `_set_state` refuses.
abbrev pub is_refused : JobState → JobState → Bool
is_refused current new = not (is current new) && not (is_legal current new)

-- The ledger after a compare-and-set that went through.
abbrev pub moved : Text → JobState → List Field → Ledger → Ledger
moved ident new fields l = record l {
  db = release ident new (put_state ident new fields (l.clock l.readings) l.db);
  readings = suc l.readings;
}

-- Whether a compare-and-set changes the state that a job reads.
abbrev pub after_move : Text → JobState → Text → Db → Option JobState
after_move ident new k d =
    if ident == k then elim (status k d) [ none ↦ none | some _ ↦ some new ] else status k d

pub status-put_state :
    (ident : Text) (new : JobState) (fields : List Field) (now : ℕ) (d : Db) (k : Text)
    → status k (put_state ident new fields now d) ≡ after_move ident new k d
unfolding put_state
status-put_state ident new fields now d k = elim (Option-cases (find k d.jobs)) [
  | inl e ↦ rw (find-update k ident _ d.jobs, e) (ground arith)
  | inr (r, e) ↦
      rw (find-update k ident _ d.jobs, e)
        (ground (arith, assign-state fields (record r { state = new; updated_at_ms = now })))
]

pub status-release :
    (ident : Text) (new : JobState) (d : Db) (k : Text)
    → status k (release ident new d) ≡ status k d
unfolding release
status-release ident new d k = elim (Bool-cases (is_terminal new)) [
  | inl e ↦ rw e refl
  | inr e ↦ rw e refl
]

-- Reading the job back gives its state.
pub fetch_job-reads :
    (P : Job → Ledger → Type 0) (ident : Text) (l : Ledger)
    → ((j : Job) → status ident l.db ≡ some j.state → P j l)
    → Ends P (fetch_job ident l)
unfolding fetch_job row_to_job
fetch_job-reads P ident l h = elim (Option-cases (find ident l.db.jobs)) [
  | inl e ↦ rw e tt
  | inr (row, e) ↦ rw e (h _ (rw e refl))
]

pub fetch_job-Ends :
    (P : Job → Ledger → Type 0) (ident : Text) (l : Ledger)
    → ((j : Job) → P j l)
    → Ends P (fetch_job ident l)
fetch_job-Ends P ident l h = fetch_job-reads P ident l λ j _. h j

-- A compare-and-set that returns has found the job in the expected state, moved it along an edge,
-- and read it back.
pub set_state-reads :
    (P : Job → Ledger → Type 0) (ident : Text) (expected : Option JobState) (new : JobState)
    (fields : List Field) (l : Ledger)
    → ((row : JobRow)
        → find ident l.db.jobs ≡ some row
        → is_unexpected expected row.state ≡ false
        → is_refused row.state new ≡ false
        → (j : Job) → status ident (moved ident new fields l).db ≡ some j.state
        → P j (moved ident new fields l))
    → Ends P (set_state ident expected new fields l)
unfolding set_state
set_state-reads P ident expected new fields l h = elim (Bool-cases (any_unknown fields)) [
  | inl e ↦ rw e tt
  | inr known ↦ rw known (elim (Option-cases (find ident l.db.jobs)) [
    | inl e ↦ rw e tt
    | inr (row, found) ↦ rw found (elim (Bool-cases (is_unexpected expected row.state)) [
      | inl e ↦ rw e tt
      | inr fits ↦ rw fits (elim (Bool-cases (is_refused row.state new)) [
        | inl e ↦ rw e tt
        | inr legal ↦
            rw legal (fetch_job-reads P ident (moved ident new fields l) (h row found fits legal))
      ])
    ])
  ])
]

-- A compare-and-set that returns has found the job in the expected state and moved it along an edge.
pub set_state-Ends :
    (P : Job → Ledger → Type 0) (ident : Text) (expected : Option JobState) (new : JobState)
    (fields : List Field) (l : Ledger)
    → ((row : JobRow)
        → find ident l.db.jobs ≡ some row
        → is_unexpected expected row.state ≡ false
        → is_refused row.state new ≡ false
        → (j : Job) → P j (moved ident new fields l))
    → Ends P (set_state ident expected new fields l)
set_state-Ends P ident expected new fields l h =
    set_state-reads P ident expected new fields l
      λ row found fits legal j _. h row found fits legal j

-- A compare-and-set that returns leaves the job in the new state, and hands it back so.
pub set_state-At :
    (ident : Text) (expected : Option JobState) (new : JobState) (fields : List Field) (l : Ledger)
    → Ends
        (λ j l'. (status ident l'.db ≡ some new) × (j.state ≡ new))
        (set_state ident expected new fields l)
set_state-At ident expected new fields l =
    set_state-reads _ ident expected new fields l λ row found fits legal j at.
      let d = put_state ident new fields (l.clock l.readings) l.db in
      let there : status ident (moved ident new fields l).db ≡ some new =
        status-release ident new d ident
        ∙ status-put_state ident new fields (l.clock l.readings) l.db ident
        ∙ rw found (ground arith) in
      let k : some j.state ≡ some new = sym at ∙ there in (there, cc)
