-- ===== src/Tests/Requests.antt =====
-- Further requests of POST and GET /api/v1/sync (app/api/v1/sync.py).
use voice_spend.Prelude.{
  ℕ, ◌+◌, ◌≤◌, ◌<◌, ◌^◌, length, ◌≡◌, refl, true, false, none, some, List, [], ◌∷◌, ◌++◌, ok, err,
  arith, All, inl,
}
use voice_spend.Prelude.Dict.{get, put, setdefault}
use voice_spend.Prelude.Int.{pos}
use voice_spend.Decimal.{finite, to_numeric, rescale, round_half_up}
use voice_spend.Http.{
  World, database, out_of_range, emit, record_sync_push_result, record_sync_push_new,
}
use voice_spend.Metering.Usage.{current_period, get_usage_count, add_count, increment_usage}
use voice_spend.Metering.Signal.{
  find_entitlement, effective, resolve_entitlement, build_entitlement_signal,
}
use voice_spend.Sync.Validate.{
  ExpenseSyncIn, Raw, normalize_currency_code, required, optional, currency, revision,
  model_validate, raw_record_id,
}
use voice_spend.Sync.Upsert.{
  Proposed, to_proposed, to_values, inserted_row, find_row, put_row, upsert_found, upsert_row,
  upsert_rows, upsert, applied_seq, new_count,
}
use voice_spend.Sync.Upsert.Merge.{
  ClientView, IsBaseOf, IsGreatest, proposed_view, view_of, upsert_row-converges,
}
use voice_spend.Sync.Upsert.Replay.{AtLeast}
use voice_spend.Sync.Batch.{
  read_records, add_parsed, add_valid, owns_device, is_foreign, check_records,
}
use voice_spend.Sync.Push.{
  SyncPushResponse, rejected, high_water, result_for, count_status, result_counts, count_metrics,
  write_usage, write_records, push_answer, push_response, push_batch, push_sync,
}
use voice_spend.Sync.Push.Answers.{
  IsUnstorable, valid_records, push_sync-answers, push_sync-unstorable,
}
use voice_spend.Sync.Push.Quota.{push_sync-ungated}
use voice_spend.Sync.Push.Staleness.{push_sync-IsBaseOf}
use voice_spend.Sync.Push.Duplicates.{push_sync-duplicate}
use voice_spend.Sync.Pull.{rows_after, page}
use voice_spend.Sync.Pull.Pages.{page_exhausts}
use voice_spend.Sync.Pull.Order.{kept, find_row-rows_after}
use voice_spend.Tests.Data.{small_pydantic, alice, lunch_of_bob, start, today, batch, raw_record}
use voice_spend.Tests.Pushes.{bread, first_response, after_first, first_push}

abbrev proposed_bread : Proposed
proposed_bread = record {
  id = 100;
  device_id = 10;
  amount_original = pos 125000;
  currency_original = "EUR";
  category = none;
  payment_method = none;
  merchant = some "bakery";
  note = none;
  spent_at = 86400000000;
  client_rev = 1;
  raw_transcript = none;
  deleted_at = none;
}

-- The same state, with twenty new expenses counted for the user in the period.
abbrev used_up : World
used_up = record start {
  db = record start.db {
    counters =
        record {
          id = 1;
          user_id = 1;
          period = "2026-09";
          log_count = 20;
          created_at = 1000;
          updated_at = 1000;
        }
        ∷ [];
  };
}

one_valid :
    get_usage_count used_up.db.counters 1 (current_period today none)
      + length (valid_records small_pydantic alice batch used_up)
    < 2 ^ 31
unfolding get_usage_count current_period read_records add_parsed add_valid model_validate required
    optional currency revision normalize_currency_code raw_record_id get put check_records
    owns_device is_foreign find_row
one_valid = omega arith

push_sync-ungated_example :
    (resp₂ : SyncPushResponse) × (after₂ : World) × (push_sync small_pydantic 0 today alice batch
        used_up
      ≡ (ok resp₂, after₂))
    × (first_response.results ≡ resp₂.results)
    × (after_first.db.expenses ≡ after₂.db.expenses)
push_sync-ungated_example =
    push_sync-ungated small_pydantic 10 0 today alice batch start used_up first_response after_first
      refl refl one_valid first_push

batch_values :
    to_values (valid_records small_pydantic alice batch start) ≡ some (proposed_bread ∷ [])
unfolding read_records add_parsed add_valid model_validate required optional currency revision
    normalize_currency_code raw_record_id get put check_records owns_device is_foreign find_row
    to_values to_proposed to_numeric rescale round_half_up
batch_values = refl

push_sync-answers_example :
    (resp : SyncPushResponse) × ((push_sync small_pydantic 10 today alice batch start).0 ≡ ok resp)
unfolding get_usage_count
push_sync-answers_example =
    push_sync-answers small_pydantic 10 today alice batch start (proposed_bread ∷ []) (omega arith)
      batch_values (omega arith)

abbrev sent_bread : ℕ → ExpenseSyncIn
sent_bread rev = record {
  id = 100;
  device_id = 10;
  amount_original = finite (pos 1250) 2;
  currency_original = "EUR";
  spent_at = 86400000000;
  client_rev = rev;
  category = none;
  payment_method = none;
  merchant = some "bakery";
  note = none;
  raw_transcript = none;
  deleted_at = none;
}

-- One record of a hundred million millions beside a good one.
abbrev large_batch : List (Raw small_pydantic)
large_batch = raw_record 100 10 1250 1 ∷ raw_record 102 10 10000000000000000 1 ∷ []

-- The record that it validates to.
abbrev sent_large : ExpenseSyncIn
sent_large = record (sent_bread 1) { id = 102; amount_original = finite (pos 10000000000000000) 2 }

large_valid :
    valid_records small_pydantic alice large_batch start ≡ (sent_bread 1 ∷ []) ++ sent_large ∷ []
unfolding read_records add_parsed add_valid model_validate required optional currency revision
    normalize_currency_code raw_record_id get put check_records owns_device is_foreign find_row
large_valid = refl

large-IsUnstorable : IsUnstorable sent_large
unfolding to_numeric rescale round_half_up
large-IsUnstorable = inl refl

push_sync-unstorable_example :
    push_sync small_pydantic 10 today alice large_batch start ≡ (err (database out_of_range), start)
push_sync-unstorable_example =
    push_sync-unstorable small_pydantic 10 today alice large_batch start (sent_bread 1 ∷ [])
      sent_large [] (omega arith) large_valid large-IsUnstorable

push_sync-IsBaseOf_example : All (IsBaseOf (λ u a c t. some a)) after_first.db.expenses.rows
push_sync-IsBaseOf_example =
    push_sync-IsBaseOf small_pydantic (λ u a c t. some a) 10 today alice batch start after_first
      first_response first_push (inl refl, tt)

bread_validates : model_validate small_pydantic (raw_record 100 10 1250 1) ≡ ok (sent_bread 1)
unfolding model_validate required optional currency revision normalize_currency_code
bread_validates = refl

edit_validates : model_validate small_pydantic (raw_record 100 10 1250 2) ≡ ok (sent_bread 2)
unfolding model_validate required optional currency revision normalize_currency_code
edit_validates = refl

abbrev twice : List (Raw small_pydantic)
twice = raw_record 100 10 1250 1 ∷ raw_record 100 10 1250 2 ∷ []

duplicate_push :
    (resp : SyncPushResponse) × (w : World) × (push_sync small_pydantic 10 today alice twice start
      ≡ (ok resp, w))
unfolding push_sync push_batch push_response push_answer read_records add_parsed add_valid
    setdefault model_validate required optional currency revision normalize_currency_code
    raw_record_id get put check_records owns_device is_foreign find_row write_records write_usage
    upsert to_values to_proposed to_numeric rescale round_half_up upsert_rows upsert_row
    upsert_found inserted_row put_row new_count increment_usage get_usage_count add_count
    current_period applied_seq result_for high_water build_entitlement_signal resolve_entitlement
    find_entitlement effective count_metrics result_counts count_status record_sync_push_result
    record_sync_push_new emit
duplicate_push = (_, _, refl)

bread_owned : owns_device 1 start.db.devices 10 ≡ true
unfolding owns_device
bread_owned = refl

bread_own : is_foreign 1 (find_row 100 start.db.expenses.rows) ≡ false
unfolding is_foreign find_row
bread_own = refl

push_sync-duplicate_example :
    (duplicate_push.0.results
      ≡ record {
        id = 100;
        status = rejected;
        reason = some "duplicate id in batch";
        server_seq = none;
      }
        ∷ [])
    × AtLeast 1 (find_row 100 duplicate_push.1.db.expenses.rows)
push_sync-duplicate_example =
    push_sync-duplicate small_pydantic 10 today alice (raw_record 100 10 1250 1)
      (raw_record 100 10 1250 2) (sent_bread 1) (sent_bread 2) start duplicate_push.1
      duplicate_push.0 bread_validates edit_validates refl bread_owned bread_own duplicate_push.2

page_exhausts_example :
    ((page 1 0 1 (lunch_of_bob ∷ bread ∷ [])).records
        ++ rows_after 1
            (page 1 0 1 (lunch_of_bob ∷ bread ∷ [])).next_cursor
            (lunch_of_bob ∷ bread ∷ [])
      ≡ rows_after 1 0 (lunch_of_bob ∷ bread ∷ []))
    × (0 ≤ (page 1 0 1 (lunch_of_bob ∷ bread ∷ [])).next_cursor)
    × ((page 1 0 1 (lunch_of_bob ∷ bread ∷ [])).has_more ≡ false
        → rows_after 1
            (page 1 0 1 (lunch_of_bob ∷ bread ∷ [])).next_cursor
            (lunch_of_bob ∷ bread ∷ [])
          ≡ [])
page_exhausts_example = page_exhausts 1 0 1 (lunch_of_bob ∷ bread ∷ []) (refl, (refl, tt))

find_row-rows_after_example :
    find_row 200 (rows_after 1 0 (lunch_of_bob ∷ bread ∷ []))
    ≡ kept 1 0 (find_row 200 (lunch_of_bob ∷ bread ∷ []))
find_row-rows_after_example =
    find_row-rows_after 1 0 (lunch_of_bob ∷ bread ∷ []) 200 (refl, (refl, tt))

abbrev late_bread : Proposed
late_bread = record proposed_bread { client_rev = 2; note = some "late" }

upsert_row-converges_example :
    (e : ClientView) × (view_of (
        find_row 100
          (upsert_row 6000 1 late_bread
            (upsert_row 5000 1 proposed_bread start.db.expenses).0).0.rows)
      ≡ some e)
    × (view_of (
          find_row 100
            (upsert_row 6000 1 proposed_bread
              (upsert_row 5000 1 late_bread start.db.expenses).0).0.rows)
        ≡ some e)
    × IsGreatest
        (view_of (find_row 100 start.db.expenses.rows))
        (proposed_view proposed_bread)
        (proposed_view late_bread)
        e
upsert_row-converges_example =
    upsert_row-converges 5000 6000 5000 6000 1 1 proposed_bread late_bread start.db.expenses refl
      (ground arith)
