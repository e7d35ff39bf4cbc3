-- ===== src/Sync/Push/Results.antt =====
-- What the results of a push tell the client: app/api/v1/sync.py.
use voice_spend.Prelude.{
  ℕ, ◌+◌, ◌≤◌, String, ◌≡◌, refl, subst, ◌⊎◌, inl, inr, Option, none, some, List, [], ◌∷◌, arith,
  All, Distinct, Bool-cases, ltb,
}
use voice_spend.Prelude.Dict.{Dict}
use voice_spend.Models.{Uuid, Expense, ExpenseTable, User}
use voice_spend.Http.{Env, World}
use voice_spend.Sync.Upsert.{find_row, Proposed, inserted_row, updated_row, Returned, applied_seq}
use voice_spend.Sync.Upsert.Rows.{settled}
use voice_spend.Sync.Upsert.Success.{ids, upsert_rows-IsSettled, IsSettled}
use voice_spend.Sync.Upsert.Results.{is_newer, IsReported, upsert_rows-IsReported}
use voice_spend.Sync.Batch.{Batch}
use voice_spend.Sync.Batch.WellFormed.{IsWellFormed, record_ids}
use voice_spend.Sync.Push.{
  Written, SyncPushResult, SyncRecordStatus, applied, stale_ignored, rejected,
}
use voice_spend.Sync.Push.Inversion.{Wrote, checked}
use voice_spend.Sync.Push.Shape.{checked-Distinct, Wrote-ids}

-- What the statement did under an id that it was given: a row is stored, and either it was written
-- now and is returned with its new number, or it stood there already and nothing is returned.
abbrev pub Outcome : ExpenseTable → ExpenseTable → List Returned → Uuid → Type 0
Outcome t t' outs j =
    (e : Expense) × (find_row j t'.rows ≡ some e)
    × (((applied_seq outs j ≡ some e.server_seq) × (t.next_seq ≤ e.server_seq))
        ⊎ ((applied_seq outs j ≡ none) × (find_row j t.rows ≡ some e)))

Outcome-of :
    (now : ℕ) (u : Uuid) (t t' : ExpenseTable) (outs : List Returned) (v : Proposed)
    (o : Option Expense)
    → find_row v.id t.rows ≡ o
    → IsSettled now u t t' v
    → IsReported t t' outs v
    → Outcome t t' outs v.id
unfolding settled inserted_row updated_row is_newer
Outcome-of now u t t' outs v none old (seq, late, stored) h =
    (inserted_row now u seq v, ground arith, inl (ground arith, ground arith))
Outcome-of now u t t' outs v (some x) old (seq, late, stored) h =
    elim (Bool-cases (ltb x.client_rev v.client_rev)) [
      | inl newer ↦ (updated_row (seq + 1) x v, ground arith, inl (ground arith, ground arith))
      | inr stale ↦ (x, ground arith, inr (ground arith, old))
    ]

outcomes :
    (now : ℕ) (u : Uuid) (t t' : ExpenseTable) (outs : List Returned) (vs : List Proposed)
    → All (IsSettled now u t t') vs
    → All (IsReported t t' outs) vs
    → All (Outcome t t' outs) (ids vs)
outcomes now u t t' outs [] h k = tt
outcomes now u t t' outs (v ∷ vs) h k = (
  Outcome-of now u t t' outs v (find_row v.id t.rows) refl h.0 k.0,
  outcomes now u t t' outs vs h.1 k.1,
)

-- What a result says of the tables before and after: `applied` that the row stored under the id has
-- the reported number, which is new; `stale_ignored` that it is the row that was there before;
-- `rejected` that a reason is reported which holds.
abbrev pub TruthOf :
    (Uuid → String → Type 0)
    → ExpenseTable
    → ExpenseTable
    → Uuid
    → Option String
    → Option ℕ
    → SyncRecordStatus
    → Type 0
TruthOf holds t t' id reason seq applied =
    (e : Expense) × (find_row id t'.rows ≡ some e)
    × (seq ≡ some e.server_seq)
    × (t.next_seq ≤ e.server_seq)
TruthOf holds t t' id reason seq stale_ignored =
    (e : Expense) × (find_row id t.rows ≡ some e) × (find_row id t'.rows ≡ some e)
TruthOf holds t t' id reason seq rejected = (why : String) × (reason ≡ some why) × holds id why

abbrev pub IsTruthful :
    (Uuid → String → Type 0) → ExpenseTable → ExpenseTable → SyncPushResult → Type 0
IsTruthful holds t t' x = TruthOf holds t t' x.id x.reason x.server_seq x.status

pub Wrote-outcomes :
    (env : Env) (user : User) (b : Batch) (w : World) (written : Written)
    → IsWellFormed b
    → Wrote env user.id (checked user b w).valid w.db written
    → All
        (Outcome w.db.expenses written.db.expenses written.returned)
        (record_ids (checked user b w).valid)
Wrote-outcomes env user b w written f x =
    let t' = written.db.expenses in
    let outs = written.returned in
    let same_ids = Wrote-ids env user.id (checked user b w).valid w.db written x in
    let distinct : Distinct (ids x.vs) = rw same_ids (checked-Distinct user b w f) in
    subst (λ (js : List Uuid). All (Outcome w.db.expenses t' outs) js) same_ids
      (outcomes env.now user.id w.db.expenses t' outs x.vs
        (upsert_rows-IsSettled env.now user.id [] x.vs w.db.expenses t' outs x.upserted distinct)
        (upsert_rows-IsReported env.now user.id [] x.vs w.db.expenses t' outs x.upserted distinct))
