-- ===== src/Tests/Runs.antt =====
-- A push followed by a reset of base amounts, as a run of the server, and what the push merges
-- (app/api/v1/sync.py, app/services/fx/recompute.py).
use voice_spend.Prelude.{ℕ, ◌≡◌, ◌≢◌, ◌<◌, refl, false, none, some, List, [], ok, All, arith}
use voice_spend.Models.{Uuid, Expense}
use voice_spend.Http.{World}
use voice_spend.Prelude.Int.{pos}
use voice_spend.Sync.Upsert.{
  Proposed, inserted_row, find_row, put_row, upsert_found, upsert_row, to_values,
}
use voice_spend.Sync.Upsert.Sequence.{IsSequenced}
use voice_spend.Sync.Upsert.Merge.{view_of}
use voice_spend.Sync.Batch.{empty_batch, read_records}
use voice_spend.Sync.Push.Inversion.{checked}
use voice_spend.Sync.Push.Merges.{merge_all, push_sync-merge_all}
use voice_spend.Sync.Pull.{insert_by_seq, rows_after, last_seq, page}
use voice_spend.Sync.Overlap.{execute, commit, overlapped, IsPassed, overlap-missed}
use voice_spend.Fx.Recompute.{null_amount_base_for_user}
use voice_spend.Fx.Tasks.{Message, Worker, run_recompute, handle_base_currency_changed}
use voice_spend.Fx.Tasks.Denomination.{IsDenominated, handle_base_currency_changed-IsDenominated}
use voice_spend.System.{Reach, here, next, push, reset}
use voice_spend.System.Runs.{Survives, Reach-delivered}
use voice_spend.Tests.Data.{small_pydantic, alice, start, today, batch}
use voice_spend.Tests.Pushes.{first_response, after_first, first_push, start-IsSequenced}

push_sync-merge_all_example :
    (vs : List Proposed) × (to_values
        (checked alice (read_records small_pydantic batch empty_batch) start).valid
      ≡ some vs)
    × ((j : Uuid)
        → view_of (find_row j after_first.db.expenses.rows)
          ≡ merge_all j vs (view_of (find_row j start.db.expenses.rows)))
push_sync-merge_all_example =
    push_sync-merge_all small_pydantic 10 today alice batch start after_first first_response
      first_push

abbrev after_reset : World
after_reset = record after_first { db = (null_amount_base_for_user 6000 2 after_first.db).1 }

pushed_and_reset : Reach small_pydantic start after_reset
pushed_and_reset =
    next (next here (push 10 today alice batch (ok first_response) first_push)) (reset 6000 2 refl)

Reach-delivered_example :
    IsSequenced after_reset.db.expenses
    × ((j : Uuid)
        → Survives (find_row j start.db.expenses.rows) (find_row j after_reset.db.expenses.rows))
    × ((j : Uuid) (e : Expense) (since : ℕ)
        → find_row j after_reset.db.expenses.rows ≡ some e
        → find_row j start.db.expenses.rows ≢ some e
        → since < 2
        → find_row j (rows_after e.user_id since after_reset.db.expenses.rows) ≡ some e)
Reach-delivered_example =
    Reach-delivered small_pydantic start after_reset pushed_and_reset start-IsSequenced

abbrev worker : Worker
worker = record { db = after_first.db; queue = []; metrics = [] }

abbrev changed : Worker
changed = (handle_base_currency_changed 6000 1 worker).1

abbrev everyone : Message
everyone = record { user_id = none; limit = none }

handle_base_currency_changed-IsDenominated_example :
    All (IsDenominated 1 "EUR") changed.db.expenses.rows
    × All (IsDenominated 1 "EUR") (run_recompute 500 7000 everyone changed).1.db.expenses.rows
handle_base_currency_changed-IsDenominated_example =
    handle_base_currency_changed-IsDenominated 500 6000 7000 everyone worker
      (run_recompute 500 7000 everyone changed).1 (run_recompute 500 7000 everyone changed).0 alice
      1 refl (refl, (refl, tt)) refl

abbrev proposed : Uuid → Proposed
proposed id = record {
  id = id;
  device_id = 10;
  amount_original = pos 125000;
  currency_original = "EUR";
  category = none;
  payment_method = none;
  merchant = some "bakery";
  note = none;
  spent_at = 86400000000;
  client_rev = 1;
  raw_transcript = none;
  deleted_at = none;
}

nothing_left :
    (page 1 0 200
      (overlapped 5000 5001 1 (proposed 100) (proposed 101) start.db.expenses).0.rows).has_more
    ≡ false
unfolding page rows_after insert_by_seq last_seq commit execute upsert_row upsert_found inserted_row
    find_row put_row
nothing_left = refl

overlap-missed_example :
    let cursor =
      (page 1 0 200
        (overlapped 5000 5001 1
          (proposed 100)
          (proposed 101)
          start.db.expenses).0.rows).next_cursor in
    let after = (overlapped 5000 5001 1 (proposed 100) (proposed 101) start.db.expenses).1 in
    (find_row 100 after.rows ≡ some (inserted_row 5000 1 2 (proposed 100)))
    × (find_row 100 (rows_after 1 cursor after.rows) ≡ none)
    × IsPassed 1 cursor (inserted_row 5000 1 2 (proposed 100))
unfolding find_row
overlap-missed_example =
    overlap-missed 5000 5001 1 (proposed 100) (proposed 101) start.db.expenses 0 200
      start-IsSequenced refl refl (omega arith) nothing_left
