-- ===== src/Sync/Push/Answers.antt =====
-- When a push is answered, when it is not, and that the quota has no part in it.
use voice_spend.Prelude.{
  ℕ, ◌+◌, ◌≤◌, ◌<◌, ◌^◌, ◌≡◌, ◌⊎◌, inl, inr, refl, ap, ◌∙◌, false, none, some, List, [], ◌∷◌, ◌++◌,
  arith, Distinct, ok, err, ltb, length,
}
use voice_spend.Decimal.{to_numeric}
use voice_spend.Models.{Uuid, ExpenseTable, User, Db}
use voice_spend.Http.{Env, World, out_of_range, database}
use voice_spend.Metering.Usage.{current_period, get_usage_count}
use voice_spend.Metering.Usage.Counts.{increment_usage-ok}
use voice_spend.Sync.Validate.{Pydantic, Raw, ExpenseSyncIn}
use voice_spend.Sync.Upsert.{
  Proposed, to_proposed, to_values, Returned, returned_ids, returned_rows, upsert_found, upsert_row,
  upsert_rows, upsert, new_count,
}
use voice_spend.Sync.Upsert.Replay.{upsert_rows_cons, ok_pair}
use voice_spend.Sync.Upsert.Success.{upsert_rows-ok}
use voice_spend.Sync.Upsert.Encode.{to_values-ids}
use voice_spend.Sync.Batch.{empty_batch, read_records}
use voice_spend.Sync.Batch.WellFormed.{record_ids, read_records-IsWellFormed}
use voice_spend.Sync.Push.{
  Written, SyncPushResponse, write_usage, write_records, push_answer, push_response, push_batch,
  push_sync, max_push_batch_size,
}
use voice_spend.Sync.Push.Inversion.{checked}
use voice_spend.Sync.Push.Shape.{checked-Distinct}

new_count-returned :
    (now : ℕ) (u : Uuid) (r : Proposed) (t : ExpenseTable) (rest : List Returned)
    → new_count (returned_rows (upsert_row now u r t).1 rest) ≤ new_count rest + 1
unfolding upsert_row upsert_found new_count
new_count-returned now u r t rest = ground arith

new_count-le :
    (now : ℕ) (u : Uuid) (w : List Uuid) (vs : List Proposed) (t t' : ExpenseTable)
    (outs : List Returned)
    → upsert_rows now u w vs t ≡ ok (t', outs)
    → new_count outs ≤ length vs
unfolding upsert_rows new_count
new_count-le now u w [] t t' outs h = let (p, q) = ok_pair h in rw (← q) (omega arith)
new_count-le now u w (r ∷ vs) t t' outs h =
    let (rest, e, o) = upsert_rows_cons now u w r vs t h in
    rw o (
      omega (
        arith,
        new_count-returned now u r t rest,
        new_count-le now u (returned_ids (upsert_row now u r t).1 w) vs (upsert_row now u r t).0 t'
            rest e,
      ))

-- The statement over rows with different ids is carried out, and the counter that fits too.
write_usage-ok :
    (env : Env) (u : Uuid) (db : Db) (t : ExpenseTable) (outs : List Returned)
    → get_usage_count db.counters u (current_period env none) + new_count outs < 2 ^ 31
    → (written : Written) × (write_usage env u db (t, outs) ≡ ok written)
unfolding write_usage
write_usage-ok env u db t outs h =
    let (cs, e) =
      increment_usage-ok env u (current_period env none) (new_count outs) db.counters h in
    (record { db = record db { expenses = t; counters = cs }; returned = outs }, rw e)

upsert-ok :
    (now : ℕ) (u : Uuid) (rs : List ExpenseSyncIn) (vs : List Proposed) (t : ExpenseTable)
    → to_values rs ≡ some vs
    → Distinct (record_ids rs)
    → (out : ExpenseTable × List Returned) × (upsert now u rs t ≡ ok out)
      × (new_count out.1 ≤ length vs)
unfolding upsert
upsert-ok now u rs vs t e d =
    let (out, h) = upsert_rows-ok now u vs t (rw (to_values-ids rs vs e) d) in
    (out, rw (e, upsert) h, new_count-le now u [] vs t out.0 out.1 h)

write_records-ok :
    (env : Env) (u : Uuid) (rs : List ExpenseSyncIn) (vs : List Proposed) (db : Db)
    → to_values rs ≡ some vs
    → Distinct (record_ids rs)
    → get_usage_count db.counters u (current_period env none) + length vs < 2 ^ 31
    → (written : Written) × (write_records env u rs db ≡ ok written)
unfolding write_records
write_records-ok env u [] vs db e d h = (record { db = db; returned = [] }, refl)
write_records-ok env u (r ∷ rs) vs db e d h =
    let (out, done, few) = upsert-ok env.now u (r ∷ rs) vs db.expenses e d in
    let (written, counted) = write_usage-ok env u db out.0 out.1 (omega arith) in
    (written, rw (done, write_records) counted)

write_records-unstorable :
    (env : Env) (u : Uuid) (rs : List ExpenseSyncIn) (db : Db)
    → to_values rs ≡ none
    → write_records env u rs db ≡ err out_of_range
unfolding write_records upsert to_values
write_records-unstorable env u [] db e = cc
write_records-unstorable env u (r ∷ rs) db e = rw (e, upsert, write_records) refl

-- A record that a column cannot hold: its amount does not fit NUMERIC(18, 4), or its revision BIGINT.
abbrev pub IsUnstorable : ExpenseSyncIn → Type 0
IsUnstorable r = (to_numeric 18 4 r.amount_original ≡ none) ⊎ (2 ^ 63 ≤ r.client_rev)

to_proposed-unstorable : (r : ExpenseSyncIn) → IsUnstorable r → to_proposed r ≡ none
unfolding to_proposed
to_proposed-unstorable r (inl wide) = rw (wide, to_proposed) refl
to_proposed-unstorable r (inr late) = ground arith

-- One such record is enough for the statement to have no values.
to_values-unstorable :
    (front : List ExpenseSyncIn) (r : ExpenseSyncIn) (back : List ExpenseSyncIn)
    → IsUnstorable r
    → to_values (front ++ r ∷ back) ≡ none
unfolding to_values
to_values-unstorable [] r back bad = rw (to_proposed-unstorable r bad, to_values) refl
to_values-unstorable (x ∷ front) r back bad = ground (arith, to_values-unstorable front r back bad)

module _ (py : Pydantic) where
  -- The records of a request that pass validation and the checks of devices and owners.
  abbrev pub valid_records : User → List (Raw py) → World → List ExpenseSyncIn
  valid_records user records w = (checked user (read_records py records empty_batch) w).valid

  -- A push of at most 500 records is answered, provided that the valid records among them fit their
  -- columns and the user's counter of the period has room for them: the bulk statement does not
  -- fail on a repeated id.
  pub push_sync-answers :
      (quota : ℕ) (env : Env) (user : User) (records : List (Raw py)) (w : World)
      (vs : List Proposed)
      → length records ≤ 500
      → to_values (valid_records user records w) ≡ some vs
      → get_usage_count w.db.counters user.id (current_period env none) + length vs < 2 ^ 31
      → (resp : SyncPushResponse) × ((push_sync py quota env user records w).0 ≡ ok resp)
  unfolding push_sync push_batch push_response
  push_sync-answers quota env user records w vs few storable room =
      let b = read_records py records empty_batch in
      let distinct = checked-Distinct user b w (read_records-IsWellFormed py records) in
      let (written, done) =
        write_records-ok env user.id (checked user b w).valid vs w.db storable distinct room in
      let fits : ltb max_push_batch_size (length records) ≡ false = ground arith in
      let c = checked user b w in
      (push_answer quota env user c.rejects b.order written, rw (fits, done, push_batch) refl)

  -- If one valid record of a push does not fit its columns, its amount or its revision being too
  -- large, the whole push fails: no record of it is stored or reported, and the state stays as it
  -- was.
  pub push_sync-unstorable :
      (quota : ℕ) (env : Env) (user : User) (records : List (Raw py)) (w : World)
      (front : List ExpenseSyncIn) (r : ExpenseSyncIn) (back : List ExpenseSyncIn)
      → length records ≤ 500
      → valid_records user records w ≡ front ++ r ∷ back
      → IsUnstorable r
      → push_sync py quota env user records w ≡ (err (database out_of_range), w)
  unfolding push_sync push_batch
  push_sync-unstorable quota env user records w front r back few among bad =
      let b = read_records py records empty_batch in
      let fits : ltb max_push_batch_size (length records) ≡ false = ground arith in
      let none_left : to_values (valid_records user records w) ≡ none =
        ap to_values among ∙ to_values-unstorable front r back bad in
      let failed = write_records-unstorable env user.id (checked user b w).valid w.db none_left in
      rw (fits, failed, push_batch) refl
