-- ===== src/Sync/Push/Inversion.antt =====
-- What a push has written, taken apart: the statements of `write_records` and `push_batch`
-- (Sync/Push) as equations between the state before and the state after.
use voice_spend.Prelude.{
  ℕ, ◌≡◌, refl, inl, inr, none, some, List, [], ◌∷◌, ok, Option-cases, map, subst, >>=-eq-ok,
  Result-cases, ok-injective,
}
use voice_spend.Models.{Uuid, ExpenseTable, User, UsageCounter, Db}
use voice_spend.Http.{Env, World, emit}
use voice_spend.Metering.Usage.{current_period, increment_usage}
use voice_spend.Sync.Validate.{ExpenseSyncIn}
use voice_spend.Sync.Upsert.{Proposed, to_values, upsert_rows, upsert, Returned, new_count}
use voice_spend.Sync.Batch.{Batch, Checked, check_records}
use voice_spend.Sync.Push.{
  Written, write_usage, write_records, push_answer, push_response, push_batch, SyncPushResponse,
  result_for,
}
use voice_spend.Prelude.Dict.{values}

-- The statements behind a successful write.
pub record Wrote (env : Env) (u : Uuid) (rs : List ExpenseSyncIn) (db : Db) (written : Written)
    : Type 0 where
  pub vs : List Proposed
  pub encoded : to_values rs ≡ some vs
  pub upserted :
      upsert_rows env.now u [] vs db.expenses ≡ ok (written.db.expenses, written.returned)
  pub counted :
      increment_usage env u (current_period env none) (new_count written.returned) db.counters
      ≡ ok written.db.counters
  pub others :
      written.db ≡ record db { expenses = written.db.expenses; counters = written.db.counters }

write_usage-eq-ok :
    (env : Env) (u : Uuid) (db : Db) (t : ExpenseTable) (outs : List Returned) (written : Written)
    → write_usage env u db (t, outs) ≡ ok written
    → (counters : List UsageCounter) × (increment_usage env u
          (current_period env none)
          (new_count outs)
          db.counters
        ≡ ok counters)
      × (record { db = record db { expenses = t; counters = counters }; returned = outs } ≡ written)
unfolding write_usage
write_usage-eq-ok env u db t outs written h =
    let (counters, done, e) =
      >>=-eq-ok (increment_usage env u (current_period env none) (new_count outs) db.counters)
        (λ counters.
          ok (record { db = record db { expenses = t; counters = counters }; returned = outs }))
        h in
    (counters, done, ok-injective e)

upsert-eq-ok :
    (env : Env) (u : Uuid) (rs : List ExpenseSyncIn) (t : ExpenseTable)
    (out : ExpenseTable × List Returned)
    → upsert env.now u rs t ≡ ok out
    → (vs : List Proposed) × (to_values rs ≡ some vs) × (upsert_rows env.now u [] vs t ≡ ok out)
unfolding upsert
upsert-eq-ok env u rs t out h = elim (Option-cases (to_values rs)) [
  | inl bad ↦ let bad' = rw (bad, upsert) at h in cc bad'
  | inr (vs, good) ↦ (vs, good, rw (good, upsert) at h)
]

wrote :
    (env : Env) (u : Uuid) (rs : List ExpenseSyncIn) (db : Db) (vs : List Proposed)
    (t : ExpenseTable) (outs : List Returned) (counters : List UsageCounter) (written : Written)
    → to_values rs ≡ some vs
    → upsert_rows env.now u [] vs db.expenses ≡ ok (t, outs)
    → increment_usage env u (current_period env none) (new_count outs) db.counters ≡ ok counters
    → record { db = record db { expenses = t; counters = counters }; returned = outs } ≡ written
    → Wrote env u rs db written
wrote env u rs db vs t outs counters written encoded upserted counted e =
    subst (λ (x : Written). Wrote env u rs db x) e
      (record { vs = vs; encoded = encoded; upserted = upserted; counted = counted; others = refl })

-- A successful write is one run of the statement and one of the counter.
pub write_records-Wrote :
    (env : Env) (u : Uuid) (rs : List ExpenseSyncIn) (db : Db) (written : Written)
    → write_records env u rs db ≡ ok written
    → Wrote env u rs db written
unfolding write_records to_values upsert_rows increment_usage new_count
write_records-Wrote env u [] db written h =
    wrote env u [] db [] db.expenses [] db.counters written refl refl refl (ok-injective h)
write_records-Wrote env u (r ∷ rs) db written h =
    let ((t, outs), done, rest) =
      >>=-eq-ok (upsert env.now u (r ∷ rs) db.expenses) (write_usage env u db) h in
    let (vs, encoded, upserted) = upsert-eq-ok env u (r ∷ rs) db.expenses (t, outs) done in
    let (counters, counted, e) = write_usage-eq-ok env u db t outs written rest in
    wrote env u (r ∷ rs) db vs t outs counters written encoded upserted counted e

-- What the check of devices and owners leaves of a batch.
abbrev pub checked : User → Batch → World → Checked
checked user b w = check_records user.id w.db.devices w.db.expenses.rows (values b.parsed) b.rejects

-- A push that is answered has written the valid records, and its response is computed from that.
pub push_batch-eq-ok :
    (quota : ℕ) (env : Env) (user : User) (b : Batch) (w : World) {resp : SyncPushResponse}
    {w' : World}
    → push_batch quota env user b w ≡ (ok resp, w')
    → (written : Written) × Wrote env user.id (checked user b w).valid w.db written
      × (w'.db ≡ written.db)
      × (resp.results ≡ map (result_for (checked user b w).rejects written.returned) b.order)
unfolding push_batch push_response push_answer emit
push_batch-eq-ok quota env user b w {resp} {w'} h =
    elim (Result-cases (write_records env user.id (checked user b w).valid w.db)) [
      | inl (e, failed) ↦ let h' = rw (failed, push_batch) at h in cc h'
      | inr (written, done) ↦
          let h' = rw (done, push_batch) at h in
          (
            written,
            write_records-Wrote env user.id (checked user b w).valid w.db written done,
            cc h',
            cc h',
          )
    ]
