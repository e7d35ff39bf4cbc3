-- ===== src/Sync/Push/Delivery.antt =====
-- Push and pull together: what a push writes reaches every device of the user.
use voice_spend.Prelude.{
  ℕ, ◌≤◌, ◌<◌, ◌≡◌, ◌≢◌, sym, subst, ◌∙◌, inl, inr, some, List, [], arith, All-elem, elem, ok,
  Bool-cases, ltb, length,
}
use voice_spend.Models.{Uuid, Expense, User, Db}
use voice_spend.Http.{Env, World}
use voice_spend.Sync.Validate.{Pydantic, Raw}
use voice_spend.Sync.Upsert.{find_row}
use voice_spend.Sync.Upsert.Sequence.{IsSequenced, upsert_rows-IsSequenced}
use voice_spend.Sync.Batch.{Batch, empty_batch, read_records}
use voice_spend.Sync.Batch.WellFormed.{IsWellFormed, record_ids, read_records-IsWellFormed}
use voice_spend.Sync.Push.{SyncPushResponse, push_batch, push_sync, max_push_batch_size}
use voice_spend.Sync.Push.Inversion.{checked, push_batch-eq-ok}
use voice_spend.Sync.Push.Shape.{Wrote-others}
use voice_spend.Sync.Push.Results.{Outcome, Wrote-outcomes}
use voice_spend.Sync.Pull.{rows_after}
use voice_spend.Sync.Pull.Order.{find_row-rows_after}

-- Under every id the row is the one that was there before, or has a number past all earlier ones.
same_or_new :
    (env : Env) (user : User) (b : Batch) (w : World) {resp : SyncPushResponse} {w' : World}
    (quota : ℕ) (j : Uuid) (e : Expense)
    → IsWellFormed b
    → push_batch quota env user b w ≡ (ok resp, w')
    → find_row j w'.db.expenses.rows ≡ some e
    → find_row j w.db.expenses.rows ≢ some e
    → w.db.expenses.next_seq ≤ e.server_seq
same_or_new env user b w {resp} {w'} quota j e f run stored changed =
    let (written, x, after, _) = push_batch-eq-ok quota env user b w run in
    let here : find_row j written.db.expenses.rows ≡ some e =
      subst (λ (t : Db). find_row j t.expenses.rows ≡ some e) after stored in
    elim (Bool-cases (elem j (record_ids (checked user b w).valid))) [
      | inr apart ↦ absurd (
          changed
            (sym (Wrote-others env user.id (checked user b w).valid w.db written x j apart) ∙ here))
      | inl named ↦
          let (e', found, how) =
            All-elem (Outcome w.db.expenses written.db.expenses written.returned)
              (record_ids (checked user b w).valid) j (Wrote-outcomes env user b w written f x)
              named in
          elim how [ inl (_, late) ↦ ground arith | inr (_, old) ↦ absurd (changed (ground arith)) ]
    ]

push_batch-IsSequenced :
    (quota : ℕ) (env : Env) (user : User) (b : Batch) (w : World) {resp : SyncPushResponse}
    {w' : World}
    → push_batch quota env user b w ≡ (ok resp, w')
    → IsSequenced w.db.expenses
    → IsSequenced w'.db.expenses
push_batch-IsSequenced quota env user b w run s =
    let (written, x, after, _) = push_batch-eq-ok quota env user b w run in
    rw after (
      upsert_rows-IsSequenced env.now user.id [] x.vs w.db.expenses written.db.expenses
        written.returned x.upserted s)

push_batch_delivered :
    (quota : ℕ) (env : Env) (user : User) (b : Batch) (w : World) {resp : SyncPushResponse}
    {w' : World} (j : Uuid) (e : Expense) (since : ℕ)
    → IsWellFormed b
    → push_batch quota env user b w ≡ (ok resp, w')
    → IsSequenced w.db.expenses
    → find_row j w'.db.expenses.rows ≡ some e
    → find_row j w.db.expenses.rows ≢ some e
    → since < w.db.expenses.next_seq
    → find_row j (rows_after e.user_id since w'.db.expenses.rows) ≡ some e
push_batch_delivered quota env user b w {resp} {w'} j e since f run s stored changed early =
    let late = same_or_new env user b w quota j e f run stored changed in
    let s' = push_batch-IsSequenced quota env user b w run s in
    ground (arith, find_row-rows_after e.user_id since w'.db.expenses.rows j s'.distinct_ids)

module _ (py : Pydantic) where
  -- From a table whose numbers lie below the sequence's next value and differ, and whose ids differ:
  -- a push that is answered leaves such a table, and every row that it has added or changed is read
  -- by a pull of the row's owner from any cursor below the value that the sequence had before.
  pub push_sync-delivered :
      (quota : ℕ) (env : Env) (user : User) (records : List (Raw py)) (w w' : World)
      (resp : SyncPushResponse)
      → push_sync py quota env user records w ≡ (ok resp, w')
      → IsSequenced w.db.expenses
      → IsSequenced w'.db.expenses
        × ((j : Uuid) (e : Expense) (since : ℕ)
            → find_row j w'.db.expenses.rows ≡ some e
            → find_row j w.db.expenses.rows ≢ some e
            → since < w.db.expenses.next_seq
            → find_row j (rows_after e.user_id since w'.db.expenses.rows) ≡ some e)
  unfolding push_sync
  push_sync-delivered quota env user records w w' resp run s =
      let b = read_records py records empty_batch in
      let f = read_records-IsWellFormed py records in
      elim (Bool-cases (ltb max_push_batch_size (length records))) [
        | inl large ↦ let run' = rw (large, push_sync) at run in cc run'
        | inr fits ↦
            let answered = rw (fits, push_sync) at run in
            (
              push_batch-IsSequenced quota env user b w answered s,
              λ j e since. push_batch_delivered quota env user b w j e since f answered s,
            )
      ]
