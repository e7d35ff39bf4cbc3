-- ===== src/Sync/Push/Duplicates.antt =====
-- Two records with one id in a batch: what is reported and what is stored.
use voice_spend.Prelude.{
  ℕ, ◌≡◌, refl, ap, subst, ◌∙◌, true, false, none, some, [], ◌∷◌, arith, ok, map, eqb_refl,
}
use voice_spend.Prelude.Dict.{get, put, setdefault}
use voice_spend.Models.{User}
use voice_spend.Http.{Env, World}
use voice_spend.Sync.Validate.{Pydantic, Raw, ExpenseSyncIn, model_validate}
use voice_spend.Sync.Upsert.{find_row}
use voice_spend.Sync.Upsert.Replay.{AtLeast, upsert_rows-IsCovered}
use voice_spend.Sync.Upsert.Encode.{to_values-AtLeast}
use voice_spend.Sync.Batch.{
  Batch, empty_batch, add_parsed, add_valid, read_records, owns_device, is_foreign, Checked,
  check_records,
}
use voice_spend.Sync.Push.{SyncPushResponse, rejected, result_for, push_batch, push_sync}
use voice_spend.Sync.Push.Inversion.{Wrote, checked, push_batch-eq-ok}

-- The batch that two records with one id make.
two_of : ExpenseSyncIn → Batch
two_of r = record {
  rejects = (r.id, "duplicate id in batch") ∷ [];
  parsed = (r.id, r) ∷ [];
  order = r.id ∷ [];
}

add_valid_twice :
    (r s : ExpenseSyncIn) → s.id ≡ r.id → add_valid s (add_valid r empty_batch) ≡ two_of r
unfolding add_valid two_of setdefault put get
add_valid_twice r s e = rw (e, eqb_refl r.id) refl

checked_two :
    (user : User) (r : ExpenseSyncIn) (w : World)
    → owns_device user.id w.db.devices r.device_id ≡ true
    → is_foreign user.id (find_row r.id w.db.expenses.rows) ≡ false
    → checked user (two_of r) w
      ≡ record { valid = r ∷ []; rejects = (r.id, "duplicate id in batch") ∷ [] }
unfolding check_records two_of
checked_two user r w owned own = ground arith

stored_two :
    (quota : ℕ) (env : Env) (user : User) (r : ExpenseSyncIn) (w : World) {resp : SyncPushResponse}
    {w' : World}
    → owns_device user.id w.db.devices r.device_id ≡ true
    → is_foreign user.id (find_row r.id w.db.expenses.rows) ≡ false
    → push_batch quota env user (two_of r) w ≡ (ok resp, w')
    → (resp.results
        ≡ record {
          id = r.id;
          status = rejected;
          reason = some "duplicate id in batch";
          server_seq = none;
        }
          ∷ [])
      × AtLeast r.client_rev (find_row r.id w'.db.expenses.rows)
unfolding two_of result_for get
stored_two quota env user r w {resp} {w'} owned own run =
    let (written, x, after, results) = push_batch-eq-ok quota env user (two_of r) w run in
    let c = checked_two user r w owned own in
    let x' = subst (λ (c : Checked). Wrote env user.id c.valid w.db written) c x in
    (
      results
          ∙ ap (λ (c : Checked). map (result_for c.rejects written.returned) (r.id ∷ [])) c
          ∙ rw (eqb_refl r.id, get, result_for) refl,
      rw after
          (to_values-AtLeast written.db.expenses.rows r [] x'.vs x'.encoded (
            upsert_rows-IsCovered env.now user.id [] x'.vs w.db.expenses written.db.expenses
              written.returned x'.upserted)).0,
    )

module _ (py : Pydantic) where
  -- A push of two valid records with one id, on a device of the user and not the id of another
  -- user's row, if it is answered, reports that id once, as rejected for being a duplicate; and yet a
  -- row is stored under it, at the first record's revision or a later one.
  pub push_sync-duplicate :
      (quota : ℕ) (env : Env) (user : User) (raw₁ raw₂ : Raw py) (r s : ExpenseSyncIn)
      (w w' : World) (resp : SyncPushResponse)
      → model_validate py raw₁ ≡ ok r
      → model_validate py raw₂ ≡ ok s
      → s.id ≡ r.id
      → owns_device user.id w.db.devices r.device_id ≡ true
      → is_foreign user.id (find_row r.id w.db.expenses.rows) ≡ false
      → push_sync py quota env user (raw₁ ∷ raw₂ ∷ []) w ≡ (ok resp, w')
      → (resp.results
          ≡ record {
            id = r.id;
            status = rejected;
            reason = some "duplicate id in batch";
            server_seq = none;
          }
            ∷ [])
        × AtLeast r.client_rev (find_row r.id w'.db.expenses.rows)
  unfolding push_sync read_records add_parsed
  push_sync-duplicate quota env user raw₁ raw₂ r s w w' resp first second same owned own run =
      stored_two quota env user r w owned own
        (rw (first, second, add_valid_twice r s same, push_sync, read_records, add_parsed) at run)
