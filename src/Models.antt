-- ===== src/Models.antt =====
-- The tables (app/models/*.py, with the sync sequence of the second migration) and the enums of
-- their columns (app/schemas/enums.py). A UUID is its 128-bit number, an instant the microseconds
-- since the year 1 in UTC, and a date the days since then. NUMERIC(18, 4) and NUMERIC(18, 8)
-- columns hold whole numbers of ten-thousandths and of hundred-millionths.
use voice_spend.Prelude.{ℕ, ◌/◌, String, Bool, Option, List}
use voice_spend.Prelude.Int.{ℤ}

abbrev pub Uuid : Type 0
Uuid = ℕ

abbrev pub Instant : Type 0
Instant = ℕ

abbrev pub Date : Type 0
Date = ℕ

-- spent_at.date(), of an instant that the database returns in UTC
abbrev pub date_of : Instant → Date
date_of t = t / 86400000000

pub data Platform : Type 0 where
  ios android : Platform

pub data ParseStatus : Type 0 where
  local enriched failed : ParseStatus

pub data Tier : Type 0 where
  free pro : Tier

pub data EntitlementStatus : Type 0 where
  active expired in_grace cancelled : EntitlementStatus

pub data Store : Type 0 where
  app_store play_store stripe lemonsqueezy : Store

pub record User : Type 0 where
  pub id : Uuid
  pub auth_provider_id : Option String
  pub email : Option String
  pub is_anonymous : Bool
  pub base_currency : String
  pub created_at : Instant
  pub updated_at : Instant

pub record Device : Type 0 where
  pub id : Uuid
  pub user_id : Uuid
  pub platform : Platform
  pub push_token : Option String
  pub last_seen_at : Option Instant
  pub created_at : Instant
  pub updated_at : Instant

pub record Category : Type 0 where
  pub id : Uuid
  pub user_id : Option Uuid
  pub name : String
  pub icon : Option String
  pub is_system : Bool
  pub created_at : Instant
  pub updated_at : Instant

pub record Expense : Type 0 where
  pub id : Uuid
  pub user_id : Uuid
  pub device_id : Uuid
  pub amount_original : ℤ
  pub currency_original : String
  pub amount_base : Option ℤ
  pub currency_base : Option String
  pub category : Option String
  pub payment_method : Option String
  pub merchant : Option String
  pub note : Option String
  pub spent_at : Instant
  pub parse_status : ParseStatus
  pub raw_transcript : Option String
  pub client_rev : ℕ
  pub deleted_at : Option Instant
  pub server_seq : ℕ
  pub created_at : Instant
  pub updated_at : Instant

-- The expenses, and the value that `nextval('expenses_sync_seq')` returns next.
pub record ExpenseTable : Type 0 where
  pub rows : List Expense
  pub next_seq : ℕ

pub record UsageCounter : Type 0 where
  pub id : Uuid
  pub user_id : Uuid
  pub period : String
  pub log_count : ℕ
  pub created_at : Instant
  pub updated_at : Instant

pub record Entitlement : Type 0 where
  pub id : Uuid
  pub user_id : Uuid
  pub tier : Tier
  pub status : EntitlementStatus
  pub product_id : Option String
  pub store : Option Store
  pub revenuecat_app_user_id : Option String
  pub current_period_end : Option Instant
  pub last_event_ts_ms : Option ℤ
  pub created_at : Instant
  pub updated_at : Instant

pub record FxRate : Type 0 where
  pub id : Uuid
  pub currency_code : String
  pub rate_date : Date
  pub rate_per_usd : ℤ
  pub source : Option String
  pub created_at : Instant
  pub updated_at : Instant

-- `raw_payload`, the audit copy of the body, is not kept: nothing reads it.
pub record ProcessedWebhookEvent : Type 0 where
  pub event_id : String
  pub event_type : String
  pub received_at : Instant

pub record Db : Type 0 where
  pub users : List User
  pub devices : List Device
  pub categories : List Category
  pub expenses : ExpenseTable
  pub counters : List UsageCounter
  pub entitlements : List Entitlement
  pub fx_rates : List FxRate
  pub events : List ProcessedWebhookEvent
