-- ===== src/Sync/Upsert.antt =====
-- The bulk statement of `push_sync` (app/api/v1/sync.py): INSERT ... ON CONFLICT (id) DO UPDATE
-- SET ... WHERE expenses.client_rev < excluded.client_rev RETURNING id, server_seq, xmax = 0, over
-- the table with the trigger `trg_expenses_server_seq` of the second migration. The trigger takes
-- a sequence value before an insert is tried, and another before an update.
pub mod Rows
pub mod Replay
pub mod Success
pub mod Sequence
pub mod Results
pub mod Encode
pub mod Merge
use voice_spend.Prelude.{
  ℕ, suc, ◌+◌, ◌^◌, String, Bool, true, false, not, ◌||◌, Option, none, some, List, [], ◌∷◌, Result,
  ok, err, ltb, ◌==◌, str_eq, if◌then◌else◌, find_first, elem,
}
use voice_spend.Prelude.Int.{ℤ, eq_ℤ}
use voice_spend.Decimal.{to_numeric}
use voice_spend.Models.{Uuid, Instant, local, Expense, ExpenseTable}
use voice_spend.Http.{DbError, out_of_range, cardinality_violation}
use voice_spend.Sync.Validate.{ExpenseSyncIn}

-- One row of VALUES, as the columns hold it.
pub record Proposed : Type 0 where
  pub id : Uuid
  pub device_id : Uuid
  pub amount_original : ℤ
  pub currency_original : String
  pub category : Option String
  pub payment_method : Option String
  pub merchant : Option String
  pub note : Option String
  pub spent_at : Instant
  pub client_rev : ℕ
  pub raw_transcript : Option String
  pub deleted_at : Option Instant

-- amount_original is NUMERIC(18, 4) and client_rev BIGINT: other values abort the statement.
unfoldable pub to_proposed : ExpenseSyncIn → Option Proposed
to_proposed r = elim (to_numeric 18 4 r.amount_original) [
  | none ↦ none
  | some amount ↦
      if ltb r.client_rev (2 ^ 63)
      then some (record {
        id = r.id;
        device_id = r.device_id;
        amount_original = amount;
        currency_original = r.currency_original;
        category = r.category;
        payment_method = r.payment_method;
        merchant = r.merchant;
        note = r.note;
        spent_at = r.spent_at;
        client_rev = r.client_rev;
        raw_transcript = r.raw_transcript;
        deleted_at = r.deleted_at;
      })
      else none
]

unfoldable pub to_values : List ExpenseSyncIn → Option (List Proposed)
to_values [] = some []
to_values (r ∷ rs) =
    let rest = to_values rs in
    elim (to_proposed r) [
      | none ↦ none
      | some v ↦ elim rest [ none ↦ none | some vs ↦ some (v ∷ vs) ]
    ]

-- The row that an insert makes.
unfoldable pub inserted_row : Instant → Uuid → ℕ → Proposed → Expense
inserted_row now user_id seq r = record {
  id = r.id;
  user_id = user_id;
  device_id = r.device_id;
  amount_original = r.amount_original;
  currency_original = r.currency_original;
  amount_base = none;
  currency_base = none;
  category = r.category;
  payment_method = r.payment_method;
  merchant = r.merchant;
  note = r.note;
  spent_at = r.spent_at;
  parse_status = local;
  raw_transcript = r.raw_transcript;
  client_rev = r.client_rev;
  deleted_at = r.deleted_at;
  server_seq = seq;
  created_at = now;
  updated_at = now;
}

-- amount_base_is_stale
unfoldable pub amount_base_is_stale : Expense → Proposed → Bool
amount_base_is_stale old r =
    not (eq_ℤ old.amount_original r.amount_original)
    || not (str_eq old.currency_original r.currency_original)
    || not (old.spent_at == r.spent_at)

-- The row that the SET clause makes of a stored one: the columns of _CLIENT_UPDATE_COLUMNS, the
-- two CASE expressions. SQLAlchemy leaves `updated_at` alone: an `onupdate` is not exercised by
-- ON CONFLICT DO UPDATE unless the SET clause names the column.
unfoldable pub updated_row : ℕ → Expense → Proposed → Expense
updated_row seq old r = record old {
  amount_original = r.amount_original;
  currency_original = r.currency_original;
  amount_base = if amount_base_is_stale old r then none else old.amount_base;
  currency_base = if amount_base_is_stale old r then none else old.currency_base;
  category = r.category;
  payment_method = r.payment_method;
  merchant = r.merchant;
  note = r.note;
  spent_at = r.spent_at;
  client_rev = r.client_rev;
  raw_transcript = r.raw_transcript;
  deleted_at = r.deleted_at;
  server_seq = seq;
}

-- The row with an id, and the table with a row put in the place of the one with its id.
unfoldable pub find_row : Uuid → List Expense → Option Expense
find_row id [] = none
find_row id (x ∷ xs) = let rest = find_row id xs in if x.id == id then some x else rest

unfoldable pub put_row : Expense → List Expense → List Expense
put_row e [] = e ∷ []
put_row e (x ∷ xs) = let rest = put_row e xs in if x.id == e.id then e ∷ xs else x ∷ rest

-- A row of RETURNING.
pub record Returned : Type 0 where
  pub id : Uuid
  pub server_seq : ℕ
  pub was_inserted : Bool

-- What a statement made of one proposed row: the table and the row that it returns.
unfoldable pub upsert_found :
    Instant → Uuid → Proposed → ExpenseTable → Option Expense → ExpenseTable × Option Returned
upsert_found now user_id r t none = (
  record {
    rows = put_row (inserted_row now user_id t.next_seq r) t.rows;
    next_seq = t.next_seq + 1;
  },
  some (record { id = r.id; server_seq = t.next_seq; was_inserted = true }),
)
upsert_found now user_id r t (some old) =
    if ltb old.client_rev r.client_rev
    then (
      record {
        rows = put_row (updated_row (t.next_seq + 1) old r) t.rows;
        next_seq = t.next_seq + 2;
      },
      some (record { id = r.id; server_seq = t.next_seq + 1; was_inserted = false }),
    )
    else (record t { next_seq = t.next_seq + 1 }, none)

unfoldable pub upsert_row :
    Instant → Uuid → Proposed → ExpenseTable → ExpenseTable × Option Returned
upsert_row now user_id r t = upsert_found now user_id r t (find_row r.id t.rows)

abbrev pub returned_ids : Option Returned → List Uuid → List Uuid
returned_ids none ids = ids
returned_ids (some x) ids = x.id ∷ ids

abbrev pub returned_rows : Option Returned → List Returned → List Returned
returned_rows none xs = xs
returned_rows (some x) xs = x ∷ xs

abbrev pub Upserted : Type 0
Upserted = Result DbError (ExpenseTable × List Returned)

abbrev pub collect : Option Returned → Upserted → Upserted
collect out (ok (t, outs)) = ok (t, returned_rows out outs)
collect out (err e) = err e

-- The rows in turn. A row that the statement has already written may not be reached again.
unfoldable pub upsert_rows :
    Instant
    → Uuid
    → List Uuid
    → List Proposed
    → ExpenseTable
    → Result DbError (ExpenseTable × List Returned)
upsert_rows now user_id written [] t = ok (t, [])
upsert_rows now user_id written (r ∷ rs) t =
    let (t', out) = upsert_row now user_id r t in
    let rest = upsert_rows now user_id (returned_ids out written) rs t' in
    if elem r.id written then err cardinality_violation else collect out rest

unfoldable pub upsert :
    Instant
    → Uuid
    → List ExpenseSyncIn
    → ExpenseTable
    → Result DbError (ExpenseTable × List Returned)
upsert now user_id records t = elim (to_values records) [
  | none ↦ err out_of_range
  | some vs ↦ upsert_rows now user_id [] vs t
]

-- {row.id: row.server_seq for row in rows}
unfoldable pub applied_seq : List Returned → Uuid → Option ℕ
applied_seq [] id = none
applied_seq (x ∷ xs) id =
    let rest = applied_seq xs id in if x.id == id then some x.server_seq else rest

-- sum(1 for row in rows if row.was_inserted)
unfoldable pub new_count : List Returned → ℕ
new_count [] = 0
new_count (x ∷ xs) = let rest = new_count xs in if x.was_inserted then suc rest else rest
