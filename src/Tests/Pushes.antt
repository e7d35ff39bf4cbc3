-- ===== src/Tests/Pushes.antt =====
-- POST and GET /api/v1/sync on concrete batches (app/api/v1/sync.py).
use voice_spend.Prelude.{ℕ, ◌+◌, ◌<◌, ◌≡◌, ◌≢◌, refl, false, none, some, [], ◌∷◌, ok, arith}
use voice_spend.Prelude.Dict.{get, put}
use voice_spend.Prelude.Int.{pos}
use voice_spend.Decimal.{to_numeric, rescale, round_half_up}
use voice_spend.Models.{Uuid, Expense, local, free, active}
use voice_spend.Http.{
  World, sync_push_records, sync_push_new, emit, record_sync_push_result, record_sync_push_new,
}
use voice_spend.Metering.Usage.{current_period, get_usage_count, add_count, increment_usage}
use voice_spend.Metering.Signal.{
  find_entitlement, effective, resolve_entitlement, build_entitlement_signal,
}
use voice_spend.Sync.Validate.{
  normalize_currency_code, required, optional, currency, revision, model_validate, raw_record_id,
}
use voice_spend.Sync.Upsert.{
  to_proposed, to_values, inserted_row, find_row, put_row, upsert_found, upsert_row, upsert_rows,
  upsert, applied_seq, new_count,
}
use voice_spend.Sync.Upsert.Sequence.{IsSequenced}
use voice_spend.Sync.Batch.{
  read_records, add_parsed, add_valid, owns_device, is_foreign, check_records,
}
use voice_spend.Sync.Push.{
  SyncPushResponse, applied, rejected, high_water, result_for, count_status, result_counts,
  count_metrics, write_usage, write_records, push_answer, push_response, push_batch, push_sync,
}
use voice_spend.Sync.Push.Replay.{NoneApplied, push_sync-replay}
use voice_spend.Sync.Push.Isolation.{push_sync-foreign}
use voice_spend.Sync.Push.Delivery.{push_sync-delivered}
use voice_spend.Sync.Push.Metering.{push_sync-meters}
use voice_spend.Sync.Pull.{rows_after}
use voice_spend.Tests.Data.{small_pydantic, alice, lunch_of_bob, start, today, tomorrow, batch}

abbrev pub bread : Expense
bread = record {
  id = 100;
  user_id = 1;
  device_id = 10;
  amount_original = pos 125000;
  currency_original = "EUR";
  amount_base = none;
  currency_base = none;
  category = none;
  payment_method = none;
  merchant = some "bakery";
  note = none;
  spent_at = 86400000000;
  parse_status = local;
  raw_transcript = none;
  client_rev = 1;
  deleted_at = none;
  server_seq = 2;
  created_at = 5000;
  updated_at = 5000;
}

abbrev pub first_response : SyncPushResponse
first_response = record {
  results =
      record { id = 100; status = applied; reason = none; server_seq = some 2 }
      ∷ record {
        id = 101;
        status = rejected;
        reason = some "device_id not found or not owned by user";
        server_seq = none;
      }
      ∷ [];
  server_high_water = 2;
  entitlement = record {
    tier = free;
    status = active;
    period = "2026-09";
    used = 1;
    quota = some 10;
    over_quota = false;
  };
}

abbrev pub after_first : World
after_first = record {
  db = record start.db {
    expenses = record { rows = lunch_of_bob ∷ bread ∷ []; next_seq = 3 };
    counters =
        record {
          id = 700;
          user_id = 1;
          period = "2026-09";
          log_count = 1;
          created_at = 5000;
          updated_at = 5000;
        }
        ∷ [];
  };
  metrics = sync_push_records "applied" 1 ∷ sync_push_records "rejected" 1 ∷ sync_push_new 1 ∷ [];
}

-- The whole endpoint, run: one record is stored and counted, the other rejected.
pub first_push :
    push_sync small_pydantic 10 today alice batch start ≡ (ok first_response, after_first)
unfolding push_sync push_batch push_response push_answer read_records add_parsed add_valid
    model_validate required optional currency revision normalize_currency_code raw_record_id get put
    check_records owns_device is_foreign find_row write_records write_usage upsert to_values
    to_proposed to_numeric rescale round_half_up upsert_rows upsert_row upsert_found inserted_row
    put_row new_count increment_usage get_usage_count add_count current_period applied_seq
    result_for high_water build_entitlement_signal resolve_entitlement find_entitlement effective
    count_metrics result_counts count_status record_sync_push_result record_sync_push_new emit
first_push = refl

push_sync-replay_example :
    (resp' : SyncPushResponse) × ((push_sync small_pydantic 10 tomorrow alice batch after_first).0
      ≡ ok resp')
    × NoneApplied resp'.results
    × ((push_sync small_pydantic 10 tomorrow alice batch after_first).1.db.expenses.rows
        ≡ after_first.db.expenses.rows)
    × ((push_sync small_pydantic 10 tomorrow alice batch after_first).1.db.counters
        ≡ after_first.db.counters)
push_sync-replay_example =
    push_sync-replay small_pydantic 10 today tomorrow alice batch start after_first first_response
      first_push

push_sync-foreign_example :
    find_row 200 (push_sync small_pydantic 10 today alice batch start).1.db.expenses.rows
    ≡ some lunch_of_bob
unfolding find_row
push_sync-foreign_example =
    push_sync-foreign small_pydantic 10 today alice batch start 200 lunch_of_bob refl (ground arith)

pub start-IsSequenced : IsSequenced start.db.expenses
start-IsSequenced = record {
  below = (omega arith, tt);
  distinct_ids = (refl, tt);
  distinct_seqs = (refl, tt);
}

push_sync-delivered_example :
    IsSequenced after_first.db.expenses
    × ((j : Uuid) (e : Expense) (since : ℕ)
        → find_row j after_first.db.expenses.rows ≡ some e
        → find_row j start.db.expenses.rows ≢ some e
        → since < 2
        → find_row j (rows_after e.user_id since after_first.db.expenses.rows) ≡ some e)
push_sync-delivered_example =
    push_sync-delivered small_pydantic 10 today alice batch start after_first first_response
      first_push start-IsSequenced

push_sync-meters_example :
    get_usage_count after_first.db.counters 1 "2026-09" + 1
    ≡ get_usage_count start.db.counters 1 "2026-09" + 2
unfolding current_period
push_sync-meters_example =
    push_sync-meters small_pydantic 10 today alice batch start after_first first_response 1
      "2026-09" first_push
