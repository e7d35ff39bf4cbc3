-- ===== src/System.antt =====
-- The server as a whole: every handler and task that writes, as a step from one state to the next.
pub mod Advance
pub mod Writes
pub mod Reset
pub mod Runs
use voice_spend.Prelude.{ℕ, String, ◌≡◌, Option, List, Result, ok}
use voice_spend.Models.{Uuid, Instant, Date, User, FxRate, Db}
use voice_spend.Http.{Failure, World, Env, Python}
use voice_spend.Sync.Validate.{Pydantic, Raw}
use voice_spend.Sync.Push.{SyncPushResponse, push_sync}
use voice_spend.Webhook.{RevenueCatEvent, revenuecat_webhook}
use voice_spend.Auth.{AuthUser, get_current_db_user}
use voice_spend.Fx.Rates.{Values, IngestResult, FxProvider, ingest_snapshot}
use voice_spend.Fx.Recompute.{RecomputeResult, recompute_amount_base, null_amount_base_for_user}

module _ (py : Pydantic) where
  pub data Step (w : World) (w' : World) : Type 0 where
    push :
        (quota : ℕ) (env : Env) (user : User) (records : List (Raw py))
        (r : Result Failure SyncPushResponse)
        → push_sync py quota env user records w ≡ (r, w')
        → Step w w'
    webhook :
        (expected : String) (env : Env) (authorization : Option String) (event : RevenueCatEvent)
        (r : Result Failure String)
        → revenuecat_webhook py.python expected env authorization event w ≡ (r, w')
        → Step w w'
    identify :
        (env : Env) (auth : AuthUser) (r : Result Failure User) (db : Db)
        → get_current_db_user env auth w.db w.db ≡ (r, db)
        → w' ≡ record w { db = db }
        → Step w w'
    ingest :
        (now : Instant) (draw : ℕ → Uuid) (provider : FxProvider) (values : Values) (date : Date)
        (result : IngestResult) (rates : List FxRate)
        → ingest_snapshot py.python now draw provider values date w.db.fx_rates ≡ ok (result, rates)
        → w' ≡ record w { db = record w.db { fx_rates = rates } }
        → Step w w'
    sweep :
        (batch : ℕ) (now : Instant) (user_id : Option Uuid) (limit : Option ℕ)
        (result : RecomputeResult) (db : Db)
        → recompute_amount_base batch now user_id limit w.db ≡ ok (result, db)
        → w' ≡ record w { db = db }
        → Step w w'
    reset :
        (now : Instant) (user_id : Uuid)
        → w' ≡ record w { db = (null_amount_base_for_user now user_id w.db).1 }
        → Step w w'

  pub data Reach (w : World) : World → Type 0 where
    here : Reach w w
    next : {w' w'' : World} → Reach w w' → Step w' w'' → Reach w w''
