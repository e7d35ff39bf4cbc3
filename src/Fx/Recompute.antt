-- ===== src/Fx/Recompute.antt =====
-- The sweep that fills `amount_base`, and the reset before it: app/services/fx/recompute.py.
use voice_spend.Prelude.{
  ℕ, zero, suc, ◌+◌, ◌-◌, String, Bool, true, false, not, ◌&&◌, Option, none, some, List, [], ◌∷◌,
  Result, ok, err, ◌>>=◌, ltb, ◌==◌, if◌then◌else◌, length, take, find_first, is_some,
}
use voice_spend.Decimal.{finite, to_numeric}
use voice_spend.Prelude.Int.{ℤ}
use voice_spend.Models.{Uuid, Instant, User, Expense, ExpenseTable, FxRate, Db, date_of}
use voice_spend.Http.{out_of_range, Failure, database, arithmetic}
use voice_spend.Sync.Upsert.{find_row, put_row}
use voice_spend.Fx.Convert.{convert}

-- A row of the query: the columns of the expense, and the user's base currency.
pub record Pending : Type 0 where
  pub id : Uuid
  pub amount_original : ℤ
  pub currency_original : String
  pub spent_at : Instant
  pub created_at : Instant
  pub base_currency : String

abbrev pub user_with : Uuid → List User → Option User
user_with id = find_first (λ u. u.id == id)

-- amount_base IS NULL AND deleted_at IS NULL, for one user or for all
unfoldable pub is_pending : Option Uuid → Expense → Bool
is_pending none e = not (is_some e.amount_base) && not (is_some e.deleted_at)
is_pending (some id) e =
    not (is_some e.amount_base) && not (is_some e.deleted_at) && e.user_id == id

-- ORDER BY created_at, rows of one instant in the table's order
unfoldable pub insert_by_age : Pending → List Pending → List Pending
insert_by_age p [] = p ∷ []
insert_by_age p (q ∷ qs) =
    let rest = insert_by_age p qs in if ltb q.created_at p.created_at then q ∷ rest else p ∷ q ∷ qs

-- The join with `users` and the filter.
unfoldable pub pending : Option Uuid → List User → List Expense → List Pending
pending user_id users [] = []
pending user_id users (e ∷ es) =
    let rest = pending user_id users es in
    elim (user_with e.user_id users) [
      | none ↦ rest
      | some u ↦
          if is_pending user_id e
          then insert_by_age
              (record {
                id = e.id;
                amount_original = e.amount_original;
                currency_original = e.currency_original;
                spent_at = e.spent_at;
                created_at = e.created_at;
                base_currency = u.base_currency;
              })
              rest
          else rest
    ]

-- UPDATE expenses SET amount_base, currency_base WHERE id; the trigger renews `server_seq`, and
-- `updated_at` has its `onupdate`.
unfoldable pub rebased : Instant → Option ℤ → Option String → ℕ → Expense → Expense
rebased now amount currency seq e = record e {
  amount_base = amount;
  currency_base = currency;
  server_seq = seq;
  updated_at = now;
}

unfoldable pub set_amount_base : Instant → Uuid → ℤ → String → ExpenseTable → ExpenseTable
set_amount_base now id amount currency t = elim (find_row id t.rows) [
  | none ↦ t
  | some e ↦ record {
    rows = put_row (rebased now (some amount) (some currency) t.next_seq e) t.rows;
    next_seq = t.next_seq + 1;
  }
]

unfoldable pub recompute_row :
    Instant → List FxRate → Pending → ExpenseTable → Result Failure (Bool × ExpenseTable)
recompute_row now rates p t =
    elim (convert rates (finite p.amount_original 4) p.currency_original p.base_currency
      (date_of p.spent_at)) [
        | err e ↦ err (arithmetic e)
        | ok none ↦ ok (false, t)
        | ok (some amount) ↦ elim (to_numeric 18 4 amount) [
          | none ↦ err (database out_of_range)
          | some units ↦ ok (true, set_amount_base now p.id units p.base_currency t)
        ]
      ]

-- The loop: how many rows were filled, and the table.
unfoldable pub recompute_rows :
    Instant → List FxRate → List Pending → ExpenseTable → Result Failure (ℕ × ExpenseTable)
recompute_rows now rates [] t = ok (0, t)
recompute_rows now rates (p ∷ ps) t = do
  (filled, t₁) ← recompute_row now rates p t
  (recomputed, t₂) ← recompute_rows now rates ps t₁
  ok (if filled then suc recomputed else recomputed, t₂)

pub record RecomputeResult : Type 0 where
  pub scanned : ℕ
  pub recomputed : ℕ
  pub still_missing : ℕ

-- limit or get_settings().FX_RECOMPUTE_BATCH
unfoldable pub batch_size : ℕ → Option ℕ → ℕ
batch_size default none = default
batch_size default (some zero) = default
batch_size default (some (suc n)) = suc n

unfoldable pub recompute_amount_base :
    ℕ → Instant → Option Uuid → Option ℕ → Db → Result Failure (RecomputeResult × Db)
recompute_amount_base default now user_id limit db =
    let rows = take (batch_size default limit) (pending user_id db.users db.expenses.rows) in
    do
      (recomputed, t) ← recompute_rows now db.fx_rates rows db.expenses
      ok (
        record {
          scanned = length rows;
          recomputed = recomputed;
          still_missing = length rows - recomputed;
        },
        record db { expenses = t },
      )

-- null_amount_base_for_user: the rows in turn, each with the next sequence value, and their count
unfoldable pub null_rows : Instant → Uuid → List Expense → ℕ → ℕ × List Expense × ℕ
null_rows now user_id [] seq = (0, [], seq)
null_rows now user_id (e ∷ es) seq =
    let hit = e.user_id == user_id && is_some e.amount_base in
    let (n, rest, last) = null_rows now user_id es (if hit then seq + 1 else seq) in
    if hit then (suc n, rebased now none none seq e ∷ rest, last) else (n, e ∷ rest, last)

unfoldable pub null_amount_base_for_user : Instant → Uuid → Db → ℕ × Db
null_amount_base_for_user now user_id db =
    let (n, rows, seq) = null_rows now user_id db.expenses.rows db.expenses.next_seq in
    (n, record db { expenses = record { rows = rows; next_seq = seq } })
