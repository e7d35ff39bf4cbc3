-- ===== src/Sync/Batch.antt =====
-- The passes of `push_sync` (app/api/v1/sync.py) over the batch before anything is written: the
-- loop over `payload.records`, and the check of devices and owners.
pub mod WellFormed
pub mod Checks
use voice_spend.Prelude.{
  String, Bool, true, false, not, ◌||◌, ◌&&◌, Option, none, some, List, [], ◌∷◌, ◌++◌, Result, ok,
  err, ◌==◌, is_some, elem, find_first, if◌then◌else◌,
}
use voice_spend.Prelude.Dict
use voice_spend.Prelude.Dict.{Dict, put, has, setdefault, values}
use voice_spend.Models.{Uuid, Device, Expense}
use voice_spend.Sync.Validate.{
  Pydantic, ExpenseSyncIn, FieldError, Raw, model_validate, raw_record_id, first_error_reason,
}
use voice_spend.Sync.Upsert.{find_row}

-- `rejects`, `parsed` and `order`.
pub record Batch : Type 0 where
  pub rejects : Dict String
  pub parsed : Dict ExpenseSyncIn
  pub order : List Uuid

abbrev pub empty_batch : Batch
empty_batch = record { rejects = []; parsed = []; order = [] }

-- A record that does not validate: reported under its id, if it has one that is new.
unfoldable pub add_invalid : Option Uuid → FieldError → Batch → Batch
add_invalid none e b = b
add_invalid (some id) e b =
    if has b.rejects id || has b.parsed id
    then b
    else record b { rejects = put b.rejects id (first_error_reason e); order = b.order ++ id ∷ [] }

-- A record that validates: kept, unless its id has been seen in the batch.
unfoldable pub add_valid : ExpenseSyncIn → Batch → Batch
add_valid r b =
    if has b.parsed r.id || has b.rejects r.id
    then record b { rejects = setdefault b.rejects r.id "duplicate id in batch" }
    else record b { parsed = put b.parsed r.id r; order = b.order ++ r.id ∷ [] }

unfoldable pub add_parsed : Option Uuid → Result FieldError ExpenseSyncIn → Batch → Batch
add_parsed raw_id (ok r) b = add_valid r b
add_parsed raw_id (err e) b = add_invalid raw_id e b

module _ (py : Pydantic) where
  unfoldable pub read_records : List (Raw py) → Batch → Batch
  read_records [] b = b
  read_records (raw ∷ raws) b =
      read_records raws (add_parsed (raw_record_id py raw) (model_validate py raw) b)

-- Device.id.in_(device_ids), Device.user_id == user.id
unfoldable pub owns_device : Uuid → List Device → Uuid → Bool
owns_device user_id [] id = false
owns_device user_id (d ∷ ds) id =
    let rest = owns_device user_id ds id in (d.id == id && d.user_id == user_id) || rest

-- owner is not None and owner != user.id
unfoldable pub is_foreign : Uuid → Option Expense → Bool
is_foreign user_id none = false
is_foreign user_id (some e) = not (e.user_id == user_id)

-- The loop over `parsed.values()`: the records to write, and the rejects.
pub record Checked : Type 0 where
  pub valid : List ExpenseSyncIn
  pub rejects : Dict String

unfoldable pub check_records :
    Uuid → List Device → List Expense → List ExpenseSyncIn → Dict String → Checked
check_records user_id devices rows [] rejects = record { valid = []; rejects = rejects }
check_records user_id devices rows (r ∷ rs) rejects =
    let unowned =
      check_records user_id devices rows rs
        (put rejects r.id "device_id not found or not owned by user") in
    let foreign =
      check_records user_id devices rows rs
        (put rejects r.id "record id belongs to a different user") in
    let rest = check_records user_id devices rows rs rejects in
    if not (owns_device user_id devices r.device_id)
    then unowned
    else if is_foreign user_id (find_row r.id rows)
    then foreign
    else record { valid = r ∷ rest.valid; rejects = rest.rejects }
