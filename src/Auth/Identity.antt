-- ===== src/Auth/Identity.antt =====
-- The two ways to ask for the user of a request: app/core/security.py.
use mathlib.Core.Option.{some-injective}
use voice_spend.Prelude.{
  ℕ, String, ◌≡◌, refl, ap, sym, subst, ◌↔◌, Option, none, some, Result, ok, err, ◌>>=◌, str_eq,
  Bool-cases, inl, inr, ok-injective, err-injective,
}
use voice_spend.Http.{
  Failure, http, retry_after, invalid_request, type_error, uncaught, no_result_found, value_error,
  database, arithmetic,
}
use voice_spend.Settings.{Settings}
use voice_spend.Auth.{
  Jwt, AuthUser, decode_token, payload_to_user, get_current_user, or_no_user, get_optional_user,
}

-- The exceptions that `get_optional_user` catches.
abbrev pub IsHttp : Failure → Type 0
IsHttp e = (status : ℕ) × (detail : String) × (e ≡ http status detail)

-- What `get_optional_user` makes of what `get_current_user` gives.
abbrev pub IsOptionalOf : Result Failure AuthUser → Result Failure (Option AuthUser) → Type 0
IsOptionalOf current optional =
    ((user : AuthUser) → (optional ≡ ok (some user)) ↔ (current ≡ ok user))
    × ((optional ≡ ok none) ↔ ((e : Failure) × (current ≡ err e) × IsHttp e))
    × ((e : Failure) → (optional ≡ err e) ↔ ((current ≡ err e) × ¬ IsHttp e))

IsOptionalOf-user : (user : AuthUser) → IsOptionalOf (ok user) (ok (some user))
IsOptionalOf-user user = (
  λ other. (
    λ h. let e = some-injective _ _ (ok-injective h) in cc e,
    λ h. let e = ok-injective h in cc e,
  ),
  (λ h. let e = ok-injective h in cc e, λ (e, h, http_e). cc h),
  λ e. (λ h. cc h, λ (h, other). cc h),
)

IsOptionalOf-none :
    (status : ℕ) (detail : String) → IsOptionalOf (err (http status detail)) (ok none)
IsOptionalOf-none status detail = (
  λ user. (λ h. let e = ok-injective h in cc e, λ h. cc h),
  (λ h. (http status detail, refl, (status, detail, refl)), λ h. refl),
  λ e. (λ h. cc h, λ (h, other). absurd (other (status, detail, sym (err-injective h)))),
)

IsOptionalOf-other : (e : Failure) → ¬ IsHttp e → IsOptionalOf (err e) (err e)
IsOptionalOf-other e other = (
  λ user. (λ h. cc h, λ h. cc h),
  (λ h. cc h, λ (f, h, http_f). absurd (other (subst IsHttp (sym (err-injective h)) http_f))),
  λ f. (
    λ h. let e = err-injective h in (ap (λ x. err x) e, subst (λ x. ¬ IsHttp x) e other),
    λ (h, not_http). ap (λ x. err x) (err-injective h),
  ),
)

module _ (jwt : Jwt) where
  or_no_user-IsOptionalOf : (r : Result Failure AuthUser) → IsOptionalOf r (or_no_user jwt r)
  unfolding or_no_user
  or_no_user-IsOptionalOf (ok user) = IsOptionalOf-user user
  or_no_user-IsOptionalOf (err (http status detail)) = IsOptionalOf-none status detail
  or_no_user-IsOptionalOf (err (retry_after n)) = IsOptionalOf-other _ (λ (s, d, h). cc h)
  or_no_user-IsOptionalOf (err invalid_request) = IsOptionalOf-other _ (λ (s, d, h). cc h)
  or_no_user-IsOptionalOf (err type_error) = IsOptionalOf-other _ (λ (s, d, h). cc h)
  or_no_user-IsOptionalOf (err (uncaught exc)) = IsOptionalOf-other _ (λ (s, d, h). cc h)
  or_no_user-IsOptionalOf (err no_result_found) = IsOptionalOf-other _ (λ (s, d, h). cc h)
  or_no_user-IsOptionalOf (err value_error) = IsOptionalOf-other _ (λ (s, d, h). cc h)
  or_no_user-IsOptionalOf (err (database e)) = IsOptionalOf-other _ (λ (s, d, h). cc h)
  or_no_user-IsOptionalOf (err (arithmetic e)) = IsOptionalOf-other _ (λ (s, d, h). cc h)

  -- `get_optional_user` gives a user exactly where `get_current_user` gives that user, none exactly
  -- where that one raises an HTTPException, and raises any other exception that that one raises.
  pub get_optional_user-get_current_user :
      (settings : Settings) (credentials : Option String)
      → IsOptionalOf
          (get_current_user jwt settings credentials)
          (get_optional_user jwt settings credentials)
  unfolding get_optional_user get_current_user
  get_optional_user-get_current_user settings none = IsOptionalOf-none 401 "Missing bearer token"
  get_optional_user-get_current_user settings (some token) = elim (Bool-cases (str_eq token "")) [
    | inl empty ↦ rw (empty) (IsOptionalOf-none 401 "Missing bearer token")
    | inr present ↦
        rw (present)
          (or_no_user-IsOptionalOf (decode_token jwt settings token >>= payload_to_user jwt))
  ]
