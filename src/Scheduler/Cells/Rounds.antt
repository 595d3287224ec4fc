-- ===== src/Scheduler/Cells/Rounds.antt =====
-- `run_once` and `_collect` of image_processor/engine/scheduler.py: one pass over the cells.
use image_processor.Base.{
  ℕ, Bool, true, false, Option, none, some, List, [], ◌∷◌, length, if◌then◌else◌, is_some, suc,
}
use image_processor.Types.{Text, inferencing}
use image_processor.Table.{find, delete}
use image_processor.Ledger.Store.{ok}
use image_processor.Ledger.Jobs.{last_error}
use image_processor.Residency.{store}
use image_processor.Scheduler.{Queued, drain_inbox, promote_retries, transition_entry, requeue}
use image_processor.Scheduler.Answers.{
  Answer, Effect, delivers, recycles, Run, apply_answer, back_in_lane, ◌>>=◌ as bind_run,
}
use image_processor.Scheduler.Cells.{
  Cell, Outside, Pass, Step, ◌>>=◌, ◌>>◌, pure, modify, ask, queues, emits, recycle_and_forget,
}
use image_processor.Scheduler.Cells.Loading.{Codes, device_key}
use image_processor.Scheduler.Cells.Dispatch.{dispatch_one}

-- One entry of `pending`.
pub record Pending : Type 0 where
  pub cell : Cell
  pub digest : Text
  pub entry : Queued

-- What the dispatch to a cell adds to `pending`.
abbrev pub add_pending : Cell → Option (Text × Queued) → List Pending → List Pending
add_pending cell none rest = rest
add_pending cell (some (digest, entry)) rest =
    record { cell = cell; digest = digest; entry = entry } ∷ rest

abbrev pub has_recycled : List Effect → Bool
has_recycled [] = false
has_recycled (recycles ∷ effects) = true
has_recycled (delivers job answer ∷ effects) = has_recycled effects

-- A job that was lost with its cell goes back to the head of its lane.
abbrev pub lost_job : Text → Queued → Text → Run (List Effect)
lost_job digest entry error =
    bind_run (transition_entry entry inferencing inferencing (last_error (some error) ∷ []))
      (back_in_lane digest entry [])

module _ {F : Type 0} (out : Outside F) (codes : Codes) where
  -- `class _Pass`, at its start
  abbrev pub new_pass : ℕ → Pass F → Pass F
  new_pass now p = record p { now_ms = now; free = []; total = []; loads_left = [] }

  -- `state.loads_left.setdefault(cell.device or "cpu", self.load_concurrency_per_gpu)`
  abbrev pub allow_load : Cell → Pass F → Pass F
  allow_load cell p =
      if is_some (find (device_key out codes cell) p.loads_left) then p else record p {
        loads_left = store (device_key out codes cell) out.load_concurrency_per_gpu p.loads_left;
      }

  unfoldable pub allow_loads : List Cell → Pass F → Pass F
  unfolding find
  allow_loads [] p = p
  allow_loads (cell ∷ cells) p = allow_loads cells (allow_load cell p)

  abbrev pub living : ℕ → List Cell → List Cell
  living n [] = []
  living n (cell ∷ cells) = if out.is_alive n cell then cell ∷ living n cells else living n cells

  -- The dispatches of `run_once`
  unfoldable pub dispatch_all : List Cell → Step F (List Pending)
  unfolding dispatch_one
  dispatch_all [] = pure []
  dispatch_all (cell ∷ cells) = dispatch_one out codes cell >>= λ given.
      dispatch_all cells >>= λ rest. pure (add_pending cell given rest)

  -- The answer's effects. A cell that is recycled holds nothing.
  abbrev pub settle : Cell → List Effect → Step F (Unit {0})
  settle cell effects p =
      (emits effects
          >> modify λ q.
            (if has_recycled effects
              then record q { resident = delete cell.cell_id q.resident; recycled = suc q.recycled }
              else q))
        p

  -- `_collect`, of what the cell sent; the texts are `str(exc)`, UNEXPECTED_REPLY and the detail of
  -- a failure without one
  abbrev pub collected : Text → Text → Text → Pending → ℕ → Option Answer → Step F (Unit {0})
  collected error unexpected_reply no_detail job now none =
      recycle_and_forget job.cell >> queues (lost_job job.digest job.entry error) >>= emits
  collected error unexpected_reply no_detail job now (some answer) =
      (λ p.
        queues
          (apply_answer now (out.backoff p.calls) unexpected_reply no_detail job.digest job.entry
            answer)
          p)
      >>= settle job.cell

  unfoldable pub collect : Text → Text → Text → Pending → Step F (Unit {0})
  unfolding recycle_and_forget transition_entry requeue apply_answer delete
  collect error unexpected_reply no_detail job = ask (λ n. out.receives n job.cell) >>= λ answer.
      ask out.clock >>= λ now. collected error unexpected_reply no_detail job now answer

  unfoldable pub collect_all : Text → Text → Text → List Pending → Step F (Unit {0})
  unfolding collect
  collect_all error unexpected_reply no_detail [] = pure tt
  collect_all error unexpected_reply no_detail (job ∷ pending) =
      collect error unexpected_reply no_detail job
      >> collect_all error unexpected_reply no_detail pending

  -- `return len(pending)`, once the answers are collected
  abbrev pub count_collected : Text → Text → Text → List Pending → Step F ℕ
  count_collected error unexpected_reply no_detail pending =
      collect_all error unexpected_reply no_detail pending >> pure (length pending)

  -- The rest of `run_once`, for the cells that are alive.
  abbrev pub serve_cells : Text → Text → Text → List Cell → Step F ℕ
  serve_cells error unexpected_reply no_detail cells =
      modify (allow_loads cells)
      >> dispatch_all cells
      >>= count_collected error unexpected_reply no_detail

  abbrev pub unless_paused : Text → Text → Text → Step F ℕ
  unless_paused error unexpected_reply no_detail p =
      (if p.paused
          then pure 0
          else ask (λ n. living n out.cells) >>= serve_cells error unexpected_reply no_detail)
        p

  -- `run_once`
  unfoldable pub run_once : Text → Text → Text → Step F ℕ
  unfolding drain_inbox promote_retries allow_loads dispatch_all collect_all
  run_once error unexpected_reply no_detail = ask out.clock >>= λ now.
      modify (new_pass now)
      >> queues (λ s. (ok tt, drain_inbox now s))
      >> queues (promote_retries now)
      >> unless_paused error unexpected_reply no_detail
