-- ===== src/Ledger/Outbox/Queries.antt =====
-- The queries over the outbox and the jobs (`pending_outbox` and `claimable` of
-- image_processor/ledger/ledger.py).
use image_processor.Base.{
  ℕ, ◌≤◌, ◌<◌, ◌≡◌, refl, ◌⊎◌, inl, inr, Bool, true, false, ◌&&◌, Option, none, some, arith, ltb,
  test, is_none, Bool-cases, Answers, query-Answers,
}
use image_processor.Table.{Table, find}
use image_processor.Types.{Text, JobState-discrete, is, ready, publish_pending}
use image_processor.Ledger.Schema.{JobRow, OutboxEntry, Db}
use image_processor.Ledger.Jobs.{before, is_due, on_route, is_claimable, claimable_rows}
use image_processor.Ledger.Outbox.{is_pending, is_publishing, by_id, pending_rows}

by_id_total : (a b : ℕ × OutboxEntry) → by_id a b ≡ false → by_id b a ≡ true
by_id_total a b h = ground arith

by_id_trans : (a b c : ℕ × OutboxEntry) → by_id a b ≡ true → by_id b c ≡ true → by_id a c ≡ true
by_id_trans a b c h g = ground arith

before_total : (a b : Text × JobRow) → before a b ≡ false → before b a ≡ true
before_total a b h = ground arith

before_trans : (a b c : Text × JobRow) → before a b ≡ true → before b c ≡ true → before a c ≡ true
before_trans a b c h g = ground arith

test-holds : {P : Type 0} (d : Dec P) → test d ≡ true → P
test-holds (yes h) e = h
test-holds (no h) e = absurd cc

holds-test : {P : Type 0} (d : Dec P) → P → test d ≡ true
holds-test (yes h) p = refl
holds-test (no h) p = absurd (h p)

both : (a b : Bool) → a && b ≡ true → (a ≡ true) × (b ≡ true)
both true b h = (refl, h)
both false b h = absurd cc

-- A message that is unconfirmed, of a job in PUBLISH_PENDING.
abbrev pub Unsent : Table JobRow → ℕ × OutboxEntry → Type 0
Unsent jobs (_, e) =
    (e.published_at_ms ≡ none)
    × ((r : JobRow) × (find e.inference_id jobs ≡ some r) × (r.state ≡ publish_pending))

-- By the key, the one that AUTOINCREMENT gave out first standing first.
abbrev pub Older : ℕ × OutboxEntry → ℕ × OutboxEntry → Type 0
Older a b = a.0 ≤ b.0

is_pending-Unsent :
    (jobs : Table JobRow) (row : ℕ × OutboxEntry) → is_pending jobs row ≡ true → Unsent jobs row
is_pending-Unsent jobs (i, e) h = go e.published_at_ms (find e.inference_id jobs) h
  where
    go :
        (t : Option ℕ) (o : Option JobRow)
        → is_none t && is_publishing o ≡ true
        → (t ≡ none) × ((r : JobRow) × (o ≡ some r) × (r.state ≡ publish_pending))
    go none none h = absurd cc
    go (some t) o h = absurd cc
    go none (some r) h = (refl, (r, refl, test-holds (JobState-discrete r.state publish_pending) h))

Unsent-is_pending :
    (jobs : Table JobRow) (row : ℕ × OutboxEntry) → Unsent jobs row → is_pending jobs row ≡ true
Unsent-is_pending jobs (i, e) (unsent, (r, found, at)) =
    rw (unsent, found) (holds-test (JobState-discrete r.state publish_pending) at)

-- The outbox hands out messages that are unconfirmed and belong to a job in PUBLISH_PENDING, in the
-- order of their keys and at most `limit`. Every row of the table is accounted for: one that is not
-- handed out is not such a message, or comes after all that are, which are then `limit` many.
pub pending_rows-Answers :
    (limit : ℕ) (d : Db) → Answers (Unsent d.jobs) Older limit d.outbox (pending_rows limit d)
unfolding pending_rows
pending_rows-Answers limit d =
    query-Answers (Unsent d.jobs) Older (is_pending d.jobs) by_id (is_pending-Unsent d.jobs)
      (Unsent-is_pending d.jobs) (λ a b h. ground arith) by_id_total by_id_trans limit d.outbox

-- A job that is READY, whose retry is due, if it has one to wait for, and which is on the route
-- asked for, if one is.
abbrev pub OnRoute : Option Text → JobRow → Type 0
OnRoute none r = Unit
OnRoute (some route_id) r = r.route_id ≡ route_id

abbrev pub Due : ℕ → Option ℕ → Type 0
Due now none = Unit
Due now (some at) = at ≤ now

abbrev pub Claimable : Option Text → ℕ → Text × JobRow → Type 0
Claimable route_id now (_, r) =
    (r.state ≡ ready) × Due now r.next_attempt_at_ms × OnRoute route_id r

-- The one that was admitted earlier, or at the same time with the smaller identity, stands first.
abbrev pub Earlier : Text × JobRow → Text × JobRow → Type 0
Earlier (i, r) (j, s) =
    (r.created_at_ms < s.created_at_ms) ⊎ (r.created_at_ms ≡ s.created_at_ms) × (i ≤ j)

before-Earlier : (a b : Text × JobRow) → before a b ≡ true → Earlier a b
before-Earlier (i, r) (j, s) h = elim (Bool-cases (ltb r.created_at_ms s.created_at_ms)) [
  | inl e ↦ inl (ground arith)
  | inr e ↦ inr (ground arith)
]

is_due-Due : (now : ℕ) (o : Option ℕ) → is_due now o ≡ true → Due now o
is_due-Due now none h = tt
is_due-Due now (some at) h = ground arith

Due-is_due : (now : ℕ) (o : Option ℕ) → Due now o → is_due now o ≡ true
Due-is_due now none h = refl
Due-is_due now (some at) h = ground arith

on_route-OnRoute : (o : Option Text) (r : JobRow) → on_route o r ≡ true → OnRoute o r
on_route-OnRoute none r h = tt
on_route-OnRoute (some route_id) r h = ground arith

OnRoute-on_route : (o : Option Text) (r : JobRow) → OnRoute o r → on_route o r ≡ true
OnRoute-on_route none r h = refl
OnRoute-on_route (some route_id) r h = ground arith

is_claimable-Claimable :
    (o : Option Text) (now : ℕ) (row : Text × JobRow)
    → is_claimable o now row ≡ true
    → Claimable o now row
is_claimable-Claimable o now (i, r) h =
    let first = both (is r.state ready && is_due now r.next_attempt_at_ms) (on_route o r) h in
    let second = both (is r.state ready) (is_due now r.next_attempt_at_ms) first.0 in
    (
      test-holds (JobState-discrete r.state ready) second.0,
      is_due-Due now r.next_attempt_at_ms second.1,
      on_route-OnRoute o r first.1,
    )

Claimable-is_claimable :
    (o : Option Text) (now : ℕ) (row : Text × JobRow)
    → Claimable o now row
    → is_claimable o now row ≡ true
Claimable-is_claimable o now (i, r) (here, due, on) =
    rw
      (
        holds-test (JobState-discrete r.state ready) here,
        Due-is_due now r.next_attempt_at_ms due,
        OnRoute-on_route o r on,
      )
      refl

-- The jobs handed out to claim are READY, due and on the route asked for, the oldest first and at
-- most `limit`. Every job of the table is accounted for: one that is not handed out is not such a
-- job, or comes after all that are, which are then `limit` many.
pub claimable_rows-Answers :
    (route_id : Option Text) (limit now : ℕ) (jobs : Table JobRow)
    → Answers (Claimable route_id now) Earlier limit jobs (claimable_rows route_id limit now jobs)
unfolding claimable_rows
claimable_rows-Answers route_id limit now jobs =
    query-Answers (Claimable route_id now) Earlier (is_claimable route_id now) before
      (is_claimable-Claimable route_id now) (Claimable-is_claimable route_id now) before-Earlier
      before_total before_trans limit jobs
