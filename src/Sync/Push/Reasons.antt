-- ===== src/Sync/Push/Reasons.antt =====
-- Why a push rejects a record: the verdicts of the two passes (Sync/Batch), app/api/v1/sync.py.
pub mod First
pub mod Second
use voice_spend.Prelude.{
  String, ◌≡◌, ◌≢◌, ap, sym, subst, ◌∙◌, ◌⊎◌, inl, inr, true, false, none, some, List, [], ◌∷◌,
  Option, ok, err, ◌||◌, arith, Bool-cases, Result-cases, Option-cases, All, All-map, ◌==◌, ==_iff,
}
use mathlib.Core.Option.{some-injective}
use voice_spend.Prelude.Dict.{Dict, get, has, put, values, get-put, get-setdefault}
use voice_spend.Models.{Uuid, Expense, Device, Db}
use voice_spend.Sync.Validate.{
  Pydantic, Raw, ExpenseSyncIn, FieldError, model_validate, raw_record_id, first_error_reason,
}
use voice_spend.Sync.Upsert.{find_row}
use voice_spend.Sync.Batch.{
  Batch, empty_batch, add_invalid, add_valid, add_parsed, read_records, owns_device, is_foreign,
  check_records,
}
use voice_spend.Sync.Push.Reasons.First.{
  Any, Twice, Any-map, Any-All, self_Any, IsInvalid, IsNamed, read_records-reason, read_records-All,
}
use voice_spend.Sync.Push.Reasons.Second.{
  IsUnowned, IsTaken, check_records-reason, owns_device-IsUnowned, is_foreign-IsTaken,
}

module _ (py : Pydantic) (u : Uuid) (db : Db) (records : List (Raw py)) where
  -- A record of the request that validates, with the id and the property.
  abbrev pub IsSent : Uuid → (ExpenseSyncIn → Type 0) → Type 0
  IsSent j P =
      Any (λ raw. (r : ExpenseSyncIn) × (model_validate py raw ≡ ok r) × (r.id ≡ j) × P r) records

  -- A reason to reject the records under an id, that is true of the request and of what is stored: one
  -- of them does not validate, for that reason; two or more have the id; one is on a device that is
  -- not the user's; or the id is that of another user's row.
  abbrev pub IsReason : Uuid → String → Type 0
  IsReason j why =
      Any (IsInvalid py j why) records
      ⊎ ((why ≡ "duplicate id in batch") × Twice (IsNamed py j) records)
      ⊎ ((why ≡ "device_id not found or not owned by user")
          × IsSent j (λ r. IsUnowned u db.devices db.expenses.rows r.device_id))
      ⊎ ((why ≡ "record id belongs to a different user")
          × IsSent j (λ r. IsTaken u db.devices db.expenses.rows j))

  abbrev kept_records : List ExpenseSyncIn
  kept_records = values (read_records py records empty_batch).parsed

  -- A record that has been kept was sent.
  kept-IsSent :
      (j : Uuid) (P : ExpenseSyncIn → Type 0)
      → Any (λ r. (r.id ≡ j) × P r) kept_records
      → IsSent j P
  kept-IsSent j P h =
      let sent =
        read_records-All py (λ r. Any (λ raw. model_validate py raw ≡ ok r) records) records
          empty_batch (self_Any (λ raw r. model_validate py raw ≡ ok r) records) tt in
      let (r, (same, p), found) = Any-All _ _ kept_records h sent in
      Any-map _ _ records (λ raw good. (r, good, same, p)) found

  first_pass-IsReason :
      (j : Uuid) (why : String)
      → get (read_records py records empty_batch).rejects j ≡ some why
      → IsReason j why
  unfolding get
  first_pass-IsReason j why h = elim (read_records-reason py records empty_batch j why h) [
    | inl old ↦ cc old
    | inr (inl bad) ↦ inl bad
    | inr (inr (text, inr twice)) ↦ inr (inl (text, twice))
    | inr (inr (text, inl (seen, again))) ↦ cc seen
  ]

  -- Every verdict of a push has such a reason.
  pub checked-IsReason :
      (rejects : Dict String) (j : Uuid) (why : String)
      → (check_records u db.devices db.expenses.rows kept_records
          (read_records py records empty_batch).rejects).rejects
        ≡ rejects
      → get rejects j ≡ some why
      → IsReason j why
  checked-IsReason rejects j why same h =
      let ds = db.devices in
      let rows = db.expenses.rows in
      elim (check_records-reason u ds rows kept_records
        (read_records py records empty_batch).rejects j why
        (ap (λ (d : Dict String). get d j) same ∙ h)) [
          | inl old ↦ first_pass-IsReason j why old
          | inr (inl (text, found)) ↦ inr (
              inr (
                inl (
                  text,
                  kept-IsSent j _ (
                      Any-map _ _ kept_records
                        (λ r (id, no_device).
                          (id, owns_device-IsUnowned u ds rows r.device_id no_device))
                        found),
                )))
          | inr (inr (text, found)) ↦ inr (
              inr (
                inr (
                  text,
                  kept-IsSent j _ (
                      Any-map _ _ kept_records
                        (λ r (id, other). (
                          id,
                          subst (λ k. IsTaken u ds rows k) id
                              (is_foreign-IsTaken u ds rows r.id other),
                        ))
                        found),
                )))
        ]
