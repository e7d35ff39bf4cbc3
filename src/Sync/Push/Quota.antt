-- ===== src/Sync/Push/Quota.antt =====
-- Sync is not gated: the quota and the entitlements have no part in whether a push is answered, in what
-- it stores and in its results, and the counters only where one of them is full.
use mathlib.Core.Option.{some-injective}
use voice_spend.Prelude.{
  ℕ, suc, ◌+◌, ◌≤◌, ◌<◌, ◌^◌, ◌≡◌, ap, sym, subst, ◌∙◌, inl, inr, false, none, some, List, [], ◌∷◌,
  map, ok, arith, Bool-cases, ltb, length,
}
use voice_spend.Prelude.Dict.{values}
use voice_spend.Models.{Uuid, Expense, ExpenseTable, Device, User, Db}
use voice_spend.Http.{Env, World}
use voice_spend.Sync.Validate.{Pydantic, Raw, ExpenseSyncIn}
use voice_spend.Sync.Upsert.{Proposed, to_values, Returned, upsert_rows}
use voice_spend.Sync.Upsert.Encode.{to_values-cons}
use voice_spend.Metering.Usage.{current_period, get_usage_count}
use voice_spend.Sync.Push.Answers.{valid_records, push_sync-answers}
use voice_spend.Sync.Batch.{Batch, Checked, empty_batch, read_records, check_records}
use voice_spend.Sync.Push.{
  Written, SyncPushResponse, push_batch, push_sync, max_push_batch_size, result_for,
}
use voice_spend.Sync.Push.Inversion.{Wrote, checked, push_batch-eq-ok}
use voice_spend.Sync.Upsert.Replay.{ok_pair}

SameWrites :
    (env : Env) (u : Uuid) (rs : List ExpenseSyncIn) (db₁ db₂ : Db) (x₁ x₂ : Written)
    → db₁.expenses ≡ db₂.expenses
    → Wrote env u rs db₁ x₁
    → Wrote env u rs db₂ x₂
    → (x₁.db.expenses ≡ x₂.db.expenses) × (x₁.returned ≡ x₂.returned)
SameWrites env u rs db₁ db₂ x₁ x₂ same w₁ w₂ =
    let vs : w₁.vs ≡ w₂.vs = some-injective _ _ (sym w₁.encoded ∙ w₂.encoded) in
    let run =
      sym w₁.upserted
      ∙ ap (λ (t : ExpenseTable). upsert_rows env.now u [] w₁.vs t) same
      ∙ ap (λ (ws : List Proposed). upsert_rows env.now u [] ws db₂.expenses) vs
      ∙ w₂.upserted in
    ok_pair run

checked-same :
    (user : User) (b : Batch) (w₁ w₂ : World)
    → w₁.db.devices ≡ w₂.db.devices
    → w₁.db.expenses ≡ w₂.db.expenses
    → checked user b w₁ ≡ checked user b w₂
checked-same user b w₁ w₂ devices expenses =
    let check_in = λ (ds : List Device) (rows : List Expense).
      check_records user.id ds rows (values b.parsed) b.rejects in
    ap (λ (ds : List Device). check_in ds w₁.db.expenses.rows) devices
    ∙ ap (λ (t : ExpenseTable). check_in w₂.db.devices t.rows) expenses

push_batch_ungated :
    (quota₁ quota₂ : ℕ) (env : Env) (user : User) (b : Batch) (w₁ w₂ : World)
    {resp₁ resp₂ : SyncPushResponse} {after₁ after₂ : World}
    → w₁.db.devices ≡ w₂.db.devices
    → w₁.db.expenses ≡ w₂.db.expenses
    → push_batch quota₁ env user b w₁ ≡ (ok resp₁, after₁)
    → push_batch quota₂ env user b w₂ ≡ (ok resp₂, after₂)
    → (resp₁.results ≡ resp₂.results) × (after₁.db.expenses ≡ after₂.db.expenses)
push_batch_ungated quota₁ quota₂ env user b w₁ w₂ devices expenses run₁ run₂ =
    let (x₁, wrote₁, db₁, results₁) = push_batch-eq-ok quota₁ env user b w₁ run₁ in
    let (x₂, wrote₂, db₂, results₂) = push_batch-eq-ok quota₂ env user b w₂ run₂ in
    let same = checked-same user b w₁ w₂ devices expenses in
    let (tables, returned) =
      SameWrites env user.id (checked user b w₂).valid w₁.db w₂.db x₁ x₂ expenses
        (subst (λ (c : Checked). Wrote env user.id c.valid w₁.db x₁) same wrote₁) wrote₂ in
    (
      results₁
          ∙ ap (λ (c : Checked). map (result_for c.rejects x₁.returned) b.order) same
          ∙ ap (λ (outs : List Returned). map (result_for (checked user b w₂).rejects outs) b.order)
              returned
          ∙ sym results₂,
      ap (λ (d : Db). d.expenses) db₁ ∙ tables ∙ ap (λ (d : Db). d.expenses) (sym db₂),
    )

to_values-length :
    (rs : List ExpenseSyncIn) (vs : List Proposed) → to_values rs ≡ some vs → length vs ≡ length rs
unfolding to_values
to_values-length [] vs h = ap length (sym (some-injective _ _ h))
to_values-length (r ∷ rs) vs h =
    let (v, ws, p, q, e) = to_values-cons r rs vs h in
    ap length e ∙ ap suc (to_values-length rs ws q)

module _ (py : Pydantic) where
  -- What a push stored in one state is stored in every state with the same devices and expenses.
  stored_values :
      (quota : ℕ) (env : Env) (user : User) (records : List (Raw py)) (w₁ w₂ : World)
      (resp : SyncPushResponse) (after : World)
      → w₁.db.devices ≡ w₂.db.devices
      → w₁.db.expenses ≡ w₂.db.expenses
      → push_sync py quota env user records w₁ ≡ (ok resp, after)
      → (length records ≤ 500)
        × ((vs : List Proposed) × (to_values (valid_records py user records w₂) ≡ some vs))
  unfolding push_sync
  stored_values quota env user records w₁ w₂ resp after devices expenses run =
      let b = read_records py records empty_batch in
      elim (Bool-cases (ltb max_push_batch_size (length records))) [
        | inl large ↦ let run' = rw (large, push_sync) at run in cc run'
        | inr fits ↦
            let (x, wrote, db, results) =
              push_batch-eq-ok quota env user b w₁ (rw (fits, push_sync) at run) in
            (
              ground arith,
              (
                wrote.vs,
                ap (λ (c : Checked). to_values c.valid)
                      (sym (checked-same user b w₁ w₂ devices expenses))
                    ∙ wrote.encoded,
              ),
            )
      ]

  both_answered :
      (quota₁ quota₂ : ℕ) (env : Env) (user : User) (records : List (Raw py)) (w₁ w₂ : World)
      (resp₁ resp₂ : SyncPushResponse) (after₁ after₂ : World)
      → length records ≤ 500
      → w₁.db.devices ≡ w₂.db.devices
      → w₁.db.expenses ≡ w₂.db.expenses
      → push_sync py quota₁ env user records w₁ ≡ (ok resp₁, after₁)
      → push_sync py quota₂ env user records w₂ ≡ (ok resp₂, after₂)
      → (resp₁.results ≡ resp₂.results) × (after₁.db.expenses ≡ after₂.db.expenses)
  unfolding push_sync
  both_answered quota₁ quota₂ env user records w₁ w₂ resp₁ resp₂ after₁ after₂ few ds es run₁ run₂ =
      let fits : ltb max_push_batch_size (length records) ≡ false = ground arith in
      push_batch_ungated quota₁ quota₂ env user (read_records py records empty_batch) w₁ w₂ ds es
        (rw (fits, push_sync) at run₁) (rw (fits, push_sync) at run₂)

  -- A push that is answered in one state is answered in every state that has the same devices and
  -- expenses and a counter of the period with room for the valid records, whatever its quota, its
  -- other counters and its entitlements: with the same results, and it leaves the same expenses.
  pub push_sync-ungated :
      (quota₁ quota₂ : ℕ) (env : Env) (user : User) (records : List (Raw py)) (w₁ w₂ : World)
      (resp₁ : SyncPushResponse) (after₁ : World)
      → w₁.db.devices ≡ w₂.db.devices
      → w₁.db.expenses ≡ w₂.db.expenses
      → get_usage_count w₂.db.counters user.id (current_period env none)
          + length (valid_records py user records w₂)
        < 2 ^ 31
      → push_sync py quota₁ env user records w₁ ≡ (ok resp₁, after₁)
      → (resp₂ : SyncPushResponse) × (after₂ : World) × (push_sync py quota₂ env user records w₂
          ≡ (ok resp₂, after₂))
        × (resp₁.results ≡ resp₂.results)
        × (after₁.db.expenses ≡ after₂.db.expenses)
  push_sync-ungated quota₁ quota₂ env user records w₁ w₂ resp₁ after₁ ds es room run₁ =
      let (few, (vs, stored)) =
        stored_values quota₁ env user records w₁ w₂ resp₁ after₁ ds es run₁ in
      let same = to_values-length (valid_records py user records w₂) vs stored in
      let (resp₂, answered) =
        push_sync-answers py quota₂ env user records w₂ vs few stored (omega arith) in
      let after₂ = (push_sync py quota₂ env user records w₂).1 in
      let run₂ : push_sync py quota₂ env user records w₂ ≡ (ok resp₂, after₂) =
        ap (λ r. (r, after₂)) answered in
      let (results, expenses) =
        both_answered quota₁ quota₂ env user records w₁ w₂ resp₁ resp₂ after₁ after₂ few ds es run₁
          run₂ in
      (resp₂, after₂, run₂, results, expenses)
