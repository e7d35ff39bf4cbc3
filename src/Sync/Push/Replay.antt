-- ===== src/Sync/Push/Replay.antt =====
-- Replaying a batch: a second push of the same records, at any later time, writes no row, counts
-- nothing, and reports none of the records as applied.
use voice_spend.Prelude.{
  ℕ, ◌+◌, String, ◌≡◌, ◌≢◌, refl, ap, sym, subst, ◌∙◌, inl, inr, false, Option, none, some, List,
  [], ◌∷◌, arith, map, All, All-elem, elem, ok, err, Bool-cases, Result, ltb, length,
}
use voice_spend.Prelude.Dict.{Dict, values, put}
use voice_spend.Models.{Uuid, Expense, ExpenseTable, Device, User, Db}
use voice_spend.Http.{Env, World, Failure, emit}
use voice_spend.Metering.Usage.{increment_usage}
use voice_spend.Sync.Validate.{Pydantic, Raw, ExpenseSyncIn}
use voice_spend.Sync.Upsert.{
  find_row, to_values, upsert_rows, upsert, Proposed, inserted_row, updated_row, applied_seq,
  new_count,
}
use voice_spend.Sync.Upsert.Rows.{settled}
use voice_spend.Sync.Upsert.Success.{ids, upsert_rows-IsSettled, IsSettled}
use voice_spend.Sync.Upsert.Replay.{upsert_rows-IsCovered, upsert_rows_covered}
use voice_spend.Sync.Batch.{Batch, is_foreign, check_records, empty_batch, read_records}
use voice_spend.Sync.Batch.WellFormed.{IsWellFormed, record_ids, read_records-IsWellFormed}
use voice_spend.Sync.Push.{
  Written, SyncPushResponse, SyncPushResult, applied, write_usage, write_records, result_for,
  push_answer, push_response, push_batch, push_sync, max_push_batch_size,
}
use voice_spend.Sync.Push.Inversion.{Wrote, checked, push_batch-eq-ok}
use voice_spend.Sync.Push.Shape.{checked-Distinct, checked-own, Wrote-others, Wrote-ids}

-- What is stored under a proposed id belongs to the user, if what was there did.
settled-own :
    (now : ℕ) (u : Uuid) (seq : ℕ) (r : Proposed) (o : Option Expense)
    → is_foreign u o ≡ false
    → is_foreign u (some (settled now u seq r o)) ≡ false
unfolding settled inserted_row updated_row is_foreign
settled-own now u seq r none h = ground arith
settled-own now u seq r (some old) h = ground arith

-- The owner check gives the same answers on two tables.
SameOwners : Uuid → List Expense → List Expense → Type 0
SameOwners u rows rows' =
    (j : Uuid) → is_foreign u (find_row j rows) ≡ is_foreign u (find_row j rows')

settled_own-All :
    (now : ℕ) (u : Uuid) (t t' : ExpenseTable) (vs : List Proposed)
    → All (IsSettled now u t t') vs
    → All (λ j. is_foreign u (find_row j t.rows) ≡ false) (ids vs)
    → All (λ j. is_foreign u (find_row j t'.rows) ≡ false) (ids vs)
settled_own-All now u t t' [] h k = tt
settled_own-All now u t t' (v ∷ vs) h k = (
  rw (h.0.2) (settled-own now u h.0.0 v (find_row v.id t.rows) k.0),
  settled_own-All now u t t' vs h.1 k.1,
)

check_records_same :
    (u : Uuid) (devices : List Device) (rows rows' : List Expense) (rs : List ExpenseSyncIn)
    (rejects : Dict String)
    → SameOwners u rows rows'
    → check_records u devices rows rs rejects ≡ check_records u devices rows' rs rejects
unfolding check_records SameOwners
check_records_same u devices rows rows' [] rejects h = refl
check_records_same u devices rows rows' (r ∷ rs) rejects h = ground (
  arith,
  h r.id,
  check_records_same u devices rows rows' rs rejects h,
  check_records_same u devices rows rows' rs
      (put rejects r.id "device_id not found or not owned by user") h,
  check_records_same u devices rows rows' rs
      (put rejects r.id "record id belongs to a different user") h,
)

Wrote-SameOwners :
    (env : Env) (user : User) (b : Batch) (w : World) (written : Written)
    → IsWellFormed b
    → Wrote env user.id (checked user b w).valid w.db written
    → SameOwners user.id w.db.expenses.rows written.db.expenses.rows
unfolding SameOwners
Wrote-SameOwners env user b w written f x j =
    let rs = (checked user b w).valid in
    let same_ids = Wrote-ids env user.id rs w.db written x in
    let own = checked-own user b w in
    elim (Bool-cases (elem j (record_ids rs))) [
      | inl named ↦
          All-elem (λ i. is_foreign user.id (find_row i w.db.expenses.rows) ≡ false) (record_ids rs)
            j own named
          ∙ sym (
              All-elem (λ i. is_foreign user.id (find_row i written.db.expenses.rows) ≡ false)
                (record_ids rs) j
                (subst
                  (λ (is : List Uuid).
                    All (λ i. is_foreign user.id (find_row i written.db.expenses.rows) ≡ false) is)
                  same_ids
                  (settled_own-All env.now user.id w.db.expenses written.db.expenses x.vs
                    (upsert_rows-IsSettled env.now user.id [] x.vs w.db.expenses written.db.expenses
                      written.returned x.upserted (rw same_ids (checked-Distinct user b w f)))
                    (rw same_ids own)))
                named)
      | inr apart ↦
          ap (is_foreign user.id) (sym (Wrote-others env user.id rs w.db written x j apart))
    ]

-- The table with some more sequence values used.
abbrev advance : ExpenseTable → ℕ → ExpenseTable
advance t n = record t { next_seq = t.next_seq + n }

upsert_again :
    (now : ℕ) (u : Uuid) (rs : List ExpenseSyncIn) (vs : List Proposed) (t : ExpenseTable)
    → to_values rs ≡ some vs
    → upsert_rows now u [] vs t ≡ ok (advance t (length vs), [])
    → upsert now u rs t ≡ ok (advance t (length vs), [])
unfolding upsert
upsert_again now u rs vs t e h = rw (e, upsert) h

-- The same records written again: no row and no counter changes, and nothing is returned.
write_records_again :
    (env env' : Env) (u : Uuid) (rs : List ExpenseSyncIn) (db : Db) (written : Written)
    → Wrote env u rs db written
    → (n : ℕ) × (write_records env' u rs written.db
        ≡ ok (record {
          db = record (written.db) { expenses = advance written.db.expenses n };
          returned = [];
        }))
unfolding write_records write_usage increment_usage new_count
write_records_again env env' u [] db written x = (0, ground arith)
write_records_again env env' u (r ∷ rs) db written x =
    let covered =
      upsert_rows-IsCovered env.now u [] x.vs db.expenses written.db.expenses written.returned
        x.upserted in
    let again = upsert_rows_covered env'.now u x.vs written.db.expenses covered in
    (
      length x.vs,
      rw (upsert_again env'.now u (r ∷ rs) x.vs written.db.expenses x.encoded again) refl,
    )

-- No result of a list is an application.
abbrev pub NoneApplied : List SyncPushResult → Type 0
NoneApplied = All (λ x. x.status ≢ applied)

results-NoneApplied :
    (rejects : Dict String) (order : List Uuid) → NoneApplied (map (result_for rejects []) order)
unfolding result_for applied_seq
results-NoneApplied rejects [] = tt
results-NoneApplied rejects (j ∷ js) = (ground arith, results-NoneApplied rejects js)

-- What a second push of the same batch does.
abbrev IsNoOp : Result Failure SyncPushResponse × World → World → Type 0
IsNoOp (ok resp, after) before =
    NoneApplied resp.results
    × (after.db.expenses.rows ≡ before.db.expenses.rows)
    × (after.db.counters ≡ before.db.counters)
IsNoOp (err e, after) before = ⊥

no_op_parts :
    (out : Result Failure SyncPushResponse × World) (w : World)
    → IsNoOp out w
    → (resp : SyncPushResponse) × (out.0 ≡ ok resp)
      × NoneApplied resp.results
      × (out.1.db.expenses.rows ≡ w.db.expenses.rows)
      × (out.1.db.counters ≡ w.db.counters)
no_op_parts (ok resp, after) w h = (resp, refl, h.0, h.1, h.2)
no_op_parts (err e, after) w h = absurd h

push_batch-IsNoOp :
    (quota : ℕ) (env : Env) (user : User) (b : Batch) (w : World) (n : ℕ)
    → write_records env user.id (checked user b w).valid w.db
      ≡ ok (record { db = record (w.db) { expenses = advance w.db.expenses n }; returned = [] })
    → IsNoOp (push_batch quota env user b w) w
unfolding push_batch push_response push_answer emit
push_batch-IsNoOp quota env user b w n h =
    rw (h, push_batch) (results-NoneApplied (checked user b w).rejects b.order, refl, refl)

push_batch_replay :
    (quota : ℕ) (env env' : Env) (user : User) (b : Batch) (w : World) {resp : SyncPushResponse}
    {w' : World}
    → IsWellFormed b
    → push_batch quota env user b w ≡ (ok resp, w')
    → IsNoOp (push_batch quota env' user b w') w'
push_batch_replay quota env env' user b w {resp} {w'} f run =
    let (written, x, after, _) = push_batch-eq-ok quota env user b w run in
    let rs = (checked user b w).valid in
    let owners = Wrote-SameOwners env user b w written f x in
    let same_check =
      check_records_same user.id w.db.devices w.db.expenses.rows written.db.expenses.rows
        (values b.parsed) b.rejects owners in
    let (n, again) = write_records_again env env' user.id rs w.db written x in
    let check_in = λ (devices : List Device) (rows : List Expense).
      check_records user.id devices rows (values b.parsed) b.rejects in
    let rechecked : checked user b w' ≡ checked user b w =
      ap (λ (d : Db). check_in d.devices d.expenses.rows) after
      ∙ ap (λ (d : Db). check_in d.devices written.db.expenses.rows) x.others
      ∙ sym same_check in
    push_batch-IsNoOp quota env' user b w' n (
      rw rechecked (
        subst
          (λ (db : Db).
            write_records env' user.id rs db
            ≡ ok (record { db = record db { expenses = advance db.expenses n }; returned = [] }))
          (sym after) again))

module _ (py : Pydantic) where
  -- A push that was answered, sent again by the same user with the same records (at any later time,
  -- on the state that the first one left): the second one is answered too, none of its results is
  -- `applied`, and it changes neither the expenses nor the usage counters.
  pub push_sync-replay :
      (quota : ℕ) (env env' : Env) (user : User) (records : List (Raw py)) (w w' : World)
      (resp : SyncPushResponse)
      → push_sync py quota env user records w ≡ (ok resp, w')
      → (resp' : SyncPushResponse) × ((push_sync py quota env' user records w').0 ≡ ok resp')
        × NoneApplied resp'.results
        × ((push_sync py quota env' user records w').1.db.expenses.rows ≡ w'.db.expenses.rows)
        × ((push_sync py quota env' user records w').1.db.counters ≡ w'.db.counters)
  unfolding push_sync
  push_sync-replay quota env env' user records w w' resp run =
      let b = read_records py records empty_batch in
      elim (Bool-cases (ltb max_push_batch_size (length records))) [
        | inl large ↦ let run' = rw (large, push_sync) at run in cc run'
        | inr fits ↦ rw fits (
            no_op_parts (push_batch quota env' user b w') w' (
              push_batch_replay quota env env' user b w (read_records-IsWellFormed py records)
                (rw (fits, push_sync) at run)))
      ]
