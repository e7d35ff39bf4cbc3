-- ===== src/Sync/Push/Merges.antt =====
-- What a push means to a device: the store of expenses as a map from ids to the columns that a client
-- writes, into which each accepted record is merged, the later revision winning.
use voice_spend.Prelude.{
  ℕ, ◌≡◌, refl, ap, sym, ◌∙◌, inl, inr, Option, some, List, [], ◌∷◌, ok, ltb, ◌==◌, if◌then◌else◌,
  Bool-cases, length, ==_iff,
}
use voice_spend.Models.{Uuid, Instant, ExpenseTable, User}
use voice_spend.Http.{Env, World}
use voice_spend.Sync.Validate.{Pydantic, Raw}
use voice_spend.Sync.Upsert.{
  Proposed, find_row, to_values, upsert_row, upsert_rows, Returned, returned_ids,
}
use voice_spend.Sync.Upsert.Rows.{find_row-upsert_row}
use voice_spend.Sync.Upsert.Replay.{upsert_rows_cons, ok_pair}
use voice_spend.Sync.Upsert.Merge.{ClientView, proposed_view, view_of, later, view-settled}
use voice_spend.Sync.Batch.{empty_batch, read_records}
use voice_spend.Sync.Push.{SyncPushResponse, max_push_batch_size, push_sync}
use voice_spend.Sync.Push.Inversion.{checked, push_batch-eq-ok}

-- One record merged into what a device sees under an id, and a list of them, one after the other.
unfoldable pub merge : Uuid → Proposed → Option ClientView → Option ClientView
merge j r seen = if r.id == j then some (later seen (proposed_view r)) else seen

unfoldable pub merge_all : Uuid → List Proposed → Option ClientView → Option ClientView
merge_all j [] seen = seen
merge_all j (r ∷ rs) seen = merge_all j rs (merge j r seen)

upsert_row-merge :
    (now : Instant) (u : Uuid) (r : Proposed) (t : ExpenseTable) (j : Uuid)
    → view_of (find_row j (upsert_row now u r t).0.rows) ≡ merge j r (view_of (find_row j t.rows))
unfolding merge
upsert_row-merge now u r t j = elim (Bool-cases (r.id == j)) [
  | inl same ↦
      rw (find_row-upsert_row now u r t j, same)
        (rw (view-settled now u t.next_seq r (find_row r.id t.rows), (==_iff r.id j).0 same) refl)
  | inr other ↦ rw (find_row-upsert_row now u r t j, other) refl
]

upsert_rows-merge_all :
    (now : Instant) (u : Uuid) (w : List Uuid) (rs : List Proposed) (t t' : ExpenseTable)
    (outs : List Returned) (j : Uuid)
    → upsert_rows now u w rs t ≡ ok (t', outs)
    → view_of (find_row j t'.rows) ≡ merge_all j rs (view_of (find_row j t.rows))
unfolding merge_all upsert_rows
upsert_rows-merge_all now u w [] t t' outs j h =
    ap (λ (x : ExpenseTable). view_of (find_row j x.rows)) (sym (ok_pair h).0)
upsert_rows-merge_all now u w (r ∷ rs) t t' outs j h =
    let (t₁, out) = upsert_row now u r t in
    let (rest, e, _) = upsert_rows_cons now u w r rs t h in
    upsert_rows-merge_all now u (returned_ids out w) rs t₁ t' rest j e
    ∙ ap (merge_all j rs) (upsert_row-merge now u r t j)

module _ (py : Pydantic) where
  -- A push that is answered merges the records that it accepts, and nothing else: each of them has
  -- values that its columns hold, and under every id the client's columns are those that merging these
  -- values in order, the greater revision winning, makes of the ones before.
  pub push_sync-merge_all :
      (quota : ℕ) (env : Env) (user : User) (records : List (Raw py)) (w w' : World)
      (resp : SyncPushResponse)
      → push_sync py quota env user records w ≡ (ok resp, w')
      → (vs : List Proposed) × (to_values
            (checked user (read_records py records empty_batch) w).valid
          ≡ some vs)
        × ((j : Uuid)
            → view_of (find_row j w'.db.expenses.rows)
              ≡ merge_all j vs (view_of (find_row j w.db.expenses.rows)))
  unfolding push_sync
  push_sync-merge_all quota env user records w w' resp run =
      let b = read_records py records empty_batch in
      elim (Bool-cases (ltb max_push_batch_size (length records))) [
        | inl large ↦ let run' = rw (large, push_sync) at run in cc run'
        | inr fits ↦
            let (written, x, after, _) =
              push_batch-eq-ok quota env user b w (rw (fits, push_sync) at run) in
            (
              x.vs,
              x.encoded,
              λ j. rw after (
                  upsert_rows-merge_all env.now user.id [] x.vs w.db.expenses written.db.expenses
                    written.returned j x.upserted),
            )
      ]
