-- ===== src/Tests/Auths.antt =====
-- The user of a request, on concrete tokens and rows (app/core/security.py, app/api/deps.py).
use voice_spend.Prelude.{
  ◌≡◌, ◌≢◌, refl, String, none, some, [], ◌∷◌, Result, ok, err, str_eq, eq_iff, false,
  if◌then◌else◌,
}
use voice_spend.Models.{User, Db}
use voice_spend.Http.{no_result_found}
use voice_spend.Settings.{Settings, default_settings}
use voice_spend.Auth.{
  AuthUser, text_claim, Payload, JwtError, py_jwt_error, other_exception, Jwt, get_current_user,
  get_optional_user, find_identity, has_email, new_user, provision, get_current_db_user,
}
use voice_spend.Auth.Identity.{IsOptionalOf, get_optional_user-get_current_user}
use voice_spend.Auth.Provision.{get_current_db_user-stable, get_current_db_user-taken}
use voice_spend.Tests.Data.{start, today, tomorrow}

abbrev settings : Settings
settings = default_settings "postgresql://localhost/spend" "https://example.supabase.co"

abbrev decoded : String → Result JwtError Payload
decoded token =
    if str_eq token "good"
    then ok (("sub", text_claim "carol") ∷ [])
    else err (py_jwt_error "Signature verification failed")

abbrev small_jwt : Jwt
small_jwt = record {
  Key = String;
  decode_secret = λ token secret audience issuer. decoded token;
  get_signing_key_from_jwt = λ url token.
      if str_eq token "bad" then err (other_exception "Expecting value: line 1") else ok "key";
  decode_key = λ token key audience issuer. decoded token;
}

get_optional_user-get_current_user_example :
    IsOptionalOf
      (get_current_user small_jwt settings (some "bad"))
      (get_optional_user small_jwt settings (some "bad"))
get_optional_user-get_current_user_example =
    get_optional_user-get_current_user small_jwt settings (some "bad")

abbrev carol : AuthUser
carol = record { id = "carol"; email = some "c@example.org"; role = none }

abbrev carol_again : AuthUser
carol_again = record { id = "carol2"; email = some "c@example.org"; role = none }

abbrev pub row_of_carol : User
row_of_carol = record {
  id = 700;
  auth_provider_id = some "carol";
  email = some "c@example.org";
  is_anonymous = false;
  base_currency = "USD";
  created_at = 5000;
  updated_at = 5000;
}

abbrev with_carol : Db
with_carol = record start.db {
  users =
      record {
        id = 1;
        auth_provider_id = some "alice";
        email = none;
        is_anonymous = false;
        base_currency = "EUR";
        created_at = 1000;
        updated_at = 1000;
      }
      ∷ record {
        id = 2;
        auth_provider_id = some "bob";
        email = none;
        is_anonymous = false;
        base_currency = "EUR";
        created_at = 1000;
        updated_at = 1000;
      }
      ∷ row_of_carol
      ∷ [];
}

provisioned : get_current_db_user today carol start.db start.db ≡ (ok row_of_carol, with_carol)
unfolding get_current_db_user provision find_identity has_email new_user
provisioned = refl

get_current_db_user-stable_example :
    (get_current_db_user tomorrow carol with_carol with_carol ≡ (ok row_of_carol, with_carol))
    × ((other : String)
        → other ≢ "carol"
        → find_identity other with_carol.users ≡ find_identity other start.db.users)
get_current_db_user-stable_example =
    get_current_db_user-stable today tomorrow carol start.db start.db with_carol row_of_carol
      (λ x h. h) provisioned

differs : carol_again.id ≢ carol.id
differs = λ same. let e = (eq_iff "carol2" "carol").1 same in cc e

get_current_db_user-taken_example :
    get_current_db_user tomorrow carol_again with_carol with_carol
    ≡ (err no_result_found, with_carol)
unfolding find_identity
get_current_db_user-taken_example =
    get_current_db_user-taken today tomorrow carol carol_again "c@example.org" start.db with_carol
      row_of_carol refl refl differs refl refl provisioned
