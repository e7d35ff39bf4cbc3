-- ===== src/Sync/Pull.antt =====
-- GET /api/v1/sync: `pull_sync` of app/api/v1/sync.py. The response carries whole rows, as
-- `ExpenseSyncOut` has every column of `expenses`.
pub mod Order
pub mod Pages
use voice_spend.Prelude.{
  ℕ, Bool, true, false, ◌&&◌, ◌||◌, List, [], ◌∷◌, Result, ok, err, ltb, leb, ◌==◌, length, take,
  if◌then◌else◌,
}
use voice_spend.Models.{Uuid, Expense}
use voice_spend.Http.{Failure, invalid_request}

abbrev pub max_pull_limit : ℕ
max_pull_limit = 500

abbrev pub default_pull_limit : ℕ
default_pull_limit = 200

pub record SyncPullResponse : Type 0 where
  pub records : List Expense
  pub next_cursor : ℕ
  pub has_more : Bool

-- ORDER BY server_seq ASC
unfoldable pub insert_by_seq : Expense → List Expense → List Expense
insert_by_seq e [] = e ∷ []
insert_by_seq e (x ∷ xs) =
    let rest = insert_by_seq e xs in if ltb e.server_seq x.server_seq then e ∷ x ∷ xs else x ∷ rest

-- The user's rows past the cursor, in order.
unfoldable pub rows_after : Uuid → ℕ → List Expense → List Expense
rows_after user_id since [] = []
rows_after user_id since (e ∷ es) =
    let rest = rows_after user_id since es in
    if e.user_id == user_id && ltb since e.server_seq then insert_by_seq e rest else rest

-- records[-1].server_seq if records else since
unfoldable pub last_seq : ℕ → List Expense → ℕ
last_seq since [] = since
last_seq since (e ∷ es) = last_seq e.server_seq es

unfoldable pub page : Uuid → ℕ → ℕ → List Expense → SyncPullResponse
page user_id since limit rows =
    let records = take limit (rows_after user_id since rows) in
    record {
      records = records;
      next_cursor = last_seq since records;
      has_more = length records == limit;
    }

unfoldable pub pull_sync : Uuid → ℕ → ℕ → List Expense → Result Failure SyncPullResponse
pull_sync user_id since limit rows =
    if ltb limit 1 || ltb max_pull_limit limit
    then err invalid_request
    else ok (page user_id since limit rows)
