-- ===== src/Ledger/Lifecycle.antt =====
-- The lifecycle of a job as a step relation (`TRANSITIONS` of image_processor/ledger/schema.py and
-- `RECOVERY_EDGES` of image_processor/ledger/recovery.py), and the compare-and-set on it.
pub mod Publication
pub mod Cleanups
pub mod Restarts
use image_processor.Base.{
  ℕ, ◌≡◌, refl, sym, ◌∙◌, subst, inl, inr, Bool, true, false, not, ◌&&◌, Option, none, some, List,
  arith, ◌==◌, ==_iff, Bool-cases,
}
use image_processor.Table.{find}
use image_processor.Types.{Text, JobState, is_terminal, ready}
use image_processor.Ledger.Schema.{JobRow, Db, is_initial, is_legal, is_recovery_edge}
use image_processor.Ledger.Store.{Ledger, Txn, Result, ok, err, finish, write}
use image_processor.Ledger.Store.Rules.{Ends}
use image_processor.Ledger.Jobs.{Field, put_state, release, set_state}
use image_processor.Ledger.Jobs.Moves.{
  status, is_refused, moved, after_move, status-put_state, status-release, set_state-Ends,
}

-- One edge of the lifecycle: admission, an edge of TRANSITIONS (or the state again), or an edge of
-- RECOVERY_EDGES.
pub data Edge : Option JobState → Option JobState → Type 0 where
  admission : {s : JobState} → is_initial s ≡ true → Edge none (some s)
  legal : {s t : JobState} → is_refused s t ≡ false → Edge (some s) (some t)
  restart : {s t : JobState} → is_recovery_edge s t ≡ true → Edge (some s) (some t)

-- Any number of edges, one after the other.
pub data Walk (a : Option JobState) : Option JobState → Type 0 where
  stay : Walk a a
  go_on : {b c : Option JobState} → Walk a b → Edge b c → Walk a c

-- Every job of a later database is where a walk from the earlier one leads.
abbrev pub Follows : Db → Db → Type 0
Follows d0 d = (k : Text) → Walk (status k d0) (status k d)

pub same_states :
    (d0 d d' : Db) → ((k : Text) → status k d' ≡ status k d) → Follows d0 d → Follows d0 d'
same_states d0 d d' h f k = subst (Walk (status k d0)) (sym (h k)) (f k)

-- One job moves along an edge.
Walk-move :
    (a : Option JobState) (ident : Text) (s new : JobState) (k : Text) (d : Db)
    → status ident d ≡ some s
    → Edge (some s) (some new)
    → Walk a (status k d)
    → Walk a (after_move ident new k d)
Walk-move a ident s new k d at e w = elim (Bool-cases (ident == k)) [
  | inr other ↦ rw other w
  | inl same ↦
      let at_k : status k d ≡ some s =
        subst (λ j. status j d ≡ some s) ((==_iff ident k).0 same) at in
      rw (same, at_k) (go_on (subst (Walk a) at_k w) e)
]

pub put_state-Follows :
    (d0 : Db) (ident : Text) (new : JobState) (fields : List Field) (now : ℕ) (row : JobRow)
    (d : Db)
    → find ident d.jobs ≡ some row
    → Edge (some row.state) (some new)
    → Follows d0 d
    → Follows d0 (put_state ident new fields now d)
put_state-Follows d0 ident new fields now row d found e f k =
    subst (Walk (status k d0)) (sym (status-put_state ident new fields now d k))
      (Walk-move (status k d0) ident row.state new k d (rw found refl) e (f k))

-- The compare-and-set takes an edge.
pub set_state-Follows :
    (d0 : Db) (ident : Text) (expected : Option JobState) (new : JobState) (fields : List Field)
    (l : Ledger)
    → Follows d0 l.db
    → Ends (λ _ l'. Follows d0 l'.db) (set_state ident expected new fields l)
set_state-Follows d0 ident expected new fields l f =
    set_state-Ends (λ _ l'. Follows d0 l'.db) ident expected new fields l
      λ row found _ fits _.
        let d = put_state ident new fields (l.clock l.readings) l.db in
        same_states d0 d (release ident new d) (status-release ident new d)
          (put_state-Follows d0 ident new fields (l.clock l.readings) row l.db found (legal fits) f)

finish-Follows :
    {A : Type 0} (d0 : Db) (l : Ledger) (r : Result A × Ledger)
    → Ends (λ _ l'. Follows d0 l'.db) r
    → Follows d0 l.db
    → Follows d0 (finish l r).1.db
finish-Follows d0 l (ok a, l') h f = h
finish-Follows d0 l (err e, l') h f = f

pub write-Follows :
    {A : Type 0} (d0 : Db) (fn : Txn A) (l : Ledger)
    → Ends (λ _ l'. Follows d0 l'.db) (fn l)
    → Follows d0 l.db
    → Follows d0 (write fn l).1.db
unfolding write
write-Follows d0 fn l h f = elim (Bool-cases l.closed) [
  | inl e ↦ simp e f
  | inr e ↦ simp e (finish-Follows d0 l (fn l) h f)
]

-- No edge leaves a terminal state.
pub Edge-terminal :
    (s : JobState) (b : Option JobState) → is_terminal s ≡ true → Edge (some s) b → b ≡ some s
unfolding is_terminal is_legal is_recovery_edge
Edge-terminal s b h (legal {t} e) = ground arith
Edge-terminal s b h (restart {t} e) = ground arith

pub Walk-terminal :
    (s : JobState) (b : Option JobState) → is_terminal s ≡ true → Walk (some s) b → b ≡ some s
Walk-terminal s b h stay = refl
Walk-terminal s b h (go_on {b = c} w e) =
    Edge-terminal s b h (subst (λ o. Edge o b) (Walk-terminal s c h w) e)
