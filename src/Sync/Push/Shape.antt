-- ===== src/Sync/Push/Shape.antt =====
-- The ids that a push writes, and what its statement leaves alone.
use voice_spend.Prelude.{◌≡◌, false, List, [], All, elem, Distinct}
use voice_spend.Prelude.Dict.{values}
use voice_spend.Models.{Uuid, User, Db}
use voice_spend.Http.{Env, World}
use voice_spend.Sync.Validate.{ExpenseSyncIn}
use voice_spend.Sync.Upsert.{find_row}
use voice_spend.Sync.Upsert.Success.{ids, find_row-upsert_rows}
use voice_spend.Sync.Upsert.Encode.{to_values-ids}
use voice_spend.Sync.Batch.{Batch, is_foreign}
use voice_spend.Sync.Batch.WellFormed.{IsWellFormed, record_ids, record_ids-values}
use voice_spend.Sync.Batch.Checks.{
  check_records-IsAllowed, check_records-own, check_records-Distinct,
}
use voice_spend.Sync.Push.{Written}
use voice_spend.Sync.Push.Inversion.{Wrote, checked}

-- The ids of the records that a well-formed batch leaves to write are different.
pub checked-Distinct :
    (user : User) (b : Batch) (w : World)
    → IsWellFormed b
    → Distinct (record_ids (checked user b w).valid)
checked-Distinct user b w f =
    check_records-Distinct user.id w.db.devices w.db.expenses.rows (values b.parsed) b.rejects
      (rw (record_ids-values b.parsed f.keyed) f.distinct_keys)

-- None of them is the id of another user's row.
pub checked-own :
    (user : User) (b : Batch) (w : World)
    → All
        (λ j. is_foreign user.id (find_row j w.db.expenses.rows) ≡ false)
        (record_ids (checked user b w).valid)
checked-own user b w =
    check_records-own user.id w.db.devices w.db.expenses.rows (checked user b w).valid
      (check_records-IsAllowed user.id w.db.devices w.db.expenses.rows (values b.parsed) b.rejects)

module _ (env : Env) (u : Uuid) (rs : List ExpenseSyncIn) (db : Db) (written : Written) where
  pub Wrote-ids : (x : Wrote env u rs db written) → ids x.vs ≡ record_ids rs
  Wrote-ids x = to_values-ids rs x.vs x.encoded

  -- An id that no record has is looked up as before.
  pub Wrote-others :
      Wrote env u rs db written
      → (j : Uuid) → elem j (record_ids rs) ≡ false
      → find_row j written.db.expenses.rows ≡ find_row j db.expenses.rows
  Wrote-others x j n =
      find_row-upsert_rows env.now u [] x.vs db.expenses written.db.expenses written.returned j
        x.upserted (rw (Wrote-ids x) n)
