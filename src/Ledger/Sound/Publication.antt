-- ===== src/Ledger/Sound/Publication.antt =====
-- The invariant and the writes of the outbox calls of image_processor/ledger/ledger.py.
use image_processor.Base.{ℕ, ◌≡◌, refl, inl, inr, Option, some, List, [], ◌∷◌, arith, Option-cases}
use image_processor.Table.{find}
use image_processor.Table.Laws.{
  find-update, update-IsKeyed, count_where-insert, count_where-update_le,
  count_where-update_where_le,
}
use image_processor.Types.{Text, Bytes, result_committed, publish_pending}
use image_processor.Ledger.Schema.{Db}
use image_processor.Ledger.Store.{Ledger, pure}
use image_processor.Ledger.Store.Rules.{Ends, Ends-bind}
use image_processor.Ledger.Jobs.{set_state}
use image_processor.Ledger.Outbox.{
  OutboxRow, insert_outbox_row, insert_outbox_rows, store_result, advance_if_rows, is_outstanding,
  outstanding, confirm, count_attempt, reset_attempts,
}
use image_processor.Ledger.Sound.{IsSound, IsSoundBut, is_row_of, rows_of}
use image_processor.Ledger.Sound.Transactions.{set_state-IsSound}
use image_processor.Ledger.Sound.Moves.{frame-IsSound}

-- Storing a result changes no state and no message.
pub store_result-IsSound :
    {budget : ℕ} (ident : Text) (result : Bytes) (digest : Text) (sidecar : Option (Text × Text))
    (now : ℕ) (d : Db)
    → IsSound budget d
    → IsSound budget (store_result ident result digest sidecar now d)
unfolding store_result outstanding rows_of
store_result-IsSound ident result digest sidecar now d s =
    frame-IsSound d (store_result ident result digest sidecar now d)
      (update-IsKeyed ident _ d.jobs s.keyed)
      (λ k. elim (Option-cases (find k d.jobs)) [
        | inl e ↦ rw (find-update k ident _ d.jobs, e) (ground arith)
        | inr (r, e) ↦ rw (find-update k ident _ d.jobs, e) (ground arith)
      ])
      refl (λ k. omega arith) (λ k. omega arith) (λ k. refl) s

-- A new message counts for its own job alone.
insert_row-But :
    {budget : ℕ} (ident : Text) (row : OutboxRow) (d : Db)
    → IsSoundBut ident budget d
    → IsSoundBut ident budget (insert_outbox_row ident row d)
unfolding insert_outbox_row outstanding rows_of
insert_row-But ident row d s = record {
  keyed = s.keyed;
  reserved = s.reserved;
  within = s.within;
  confirmed = λ k ne h. rw count_where-insert (ground (arith, s.confirmed k ne h, ne));
  unprepared = λ k ne h. rw count_where-insert (ground (arith, s.unprepared k ne h, ne));
  intended = s.intended;
}

pub insert_rows-But :
    {budget : ℕ} (ident : Text) (rows : List OutboxRow) (d : Db)
    → IsSoundBut ident budget d
    → IsSoundBut ident budget (insert_outbox_rows ident rows d)
unfolding insert_outbox_rows
insert_rows-But ident [] d s = s
insert_rows-But ident (row ∷ rows) d s =
    insert_rows-But ident rows (insert_outbox_row ident row d) (insert_row-But ident row d s)

-- Storing a result and its messages leaves the intents alone.
pub intents-insert_rows :
    (ident : Text) (rows : List OutboxRow) (d : Db)
    → (insert_outbox_rows ident rows d).cleanup_intents ≡ d.cleanup_intents
unfolding insert_outbox_rows insert_outbox_row
intents-insert_rows ident [] d = refl
intents-insert_rows ident (row ∷ rows) d =
    intents-insert_rows ident rows (insert_outbox_row ident row d)

pub intents-store_result :
    (ident : Text) (result : Bytes) (digest : Text) (sidecar : Option (Text × Text)) (now : ℕ)
    (d : Db)
    → (store_result ident result digest sidecar now d).cleanup_intents ≡ d.cleanup_intents
unfolding store_result
intents-store_result ident result digest sidecar now d = refl

pub advance_if_rows-IsSound :
    {budget : ℕ} (ident : Text) (rows : List OutboxRow) (l : Ledger)
    → IsSound budget l.db
    → Ends (λ _ l'. IsSound budget l'.db) (advance_if_rows ident rows l)
advance_if_rows-IsSound ident [] l s = s
advance_if_rows-IsSound {budget} ident (_ ∷ _) l s =
    Ends-bind (λ _ l'. IsSound budget l'.db)
      (set_state ident (some result_committed) publish_pending []) (λ _. pure tt) l
      (set_state-IsSound ident (some result_committed) publish_pending [] l (λ e. cc) s)

pub confirm-IsSound :
    {budget : ℕ} (outbox_id now : ℕ) (d : Db)
    → IsSound budget d
    → IsSound budget (confirm outbox_id now d)
unfolding confirm outstanding rows_of
confirm-IsSound outbox_id now d s =
    frame-IsSound d (confirm outbox_id now d) s.keyed (λ k. refl) refl
      (λ k. count_where-update_le (is_outstanding k) outbox_id _ d.outbox (λ e h. ground arith))
      (λ k. count_where-update_le (is_row_of k) outbox_id _ d.outbox (λ e h. ground arith))
      (λ k. refl) s

pub count_attempt-IsSound :
    {budget : ℕ} (outbox_id : ℕ) (error : Text) (d : Db)
    → IsSound budget d
    → IsSound budget (count_attempt outbox_id error d)
unfolding count_attempt outstanding rows_of
count_attempt-IsSound outbox_id error d s =
    frame-IsSound d (count_attempt outbox_id error d) s.keyed (λ k. refl) refl
      (λ k. count_where-update_le (is_outstanding k) outbox_id _ d.outbox (λ e h. ground arith))
      (λ k. count_where-update_le (is_row_of k) outbox_id _ d.outbox (λ e h. ground arith))
      (λ k. refl) s

pub reset_attempts-IsSound :
    {budget : ℕ} (ident : Text) (d : Db)
    → IsSound budget d
    → IsSound budget (reset_attempts ident d)
unfolding reset_attempts outstanding rows_of
reset_attempts-IsSound ident d s =
    frame-IsSound d (reset_attempts ident d) s.keyed (λ k. refl) refl
      (λ k. count_where-update_where_le (is_outstanding k) _ _ d.outbox (λ e h. ground arith))
      (λ k. count_where-update_where_le (is_row_of k) _ _ d.outbox (λ e h. ground arith))
      (λ k. refl) s
