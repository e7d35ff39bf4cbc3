-- ===== src/Auth/Provision.antt =====
-- The row of a user: app/api/deps.py.
use voice_spend.Prelude.{
  String, ◌≡◌, ◌≢◌, refl, ap, sym, subst, ◌∙◌, true, Option, none, some, List, [], ◌∷◌, ◌++◌, ok,
  err, arith, eq_iff, Bool-cases, Option-cases, inl, inr, ◌↔◌,
}
use voice_spend.Models.{User, Db}
use voice_spend.Http.{no_result_found, Env}
use voice_spend.Auth.{
  AuthUser, is_text, find_identity, has_email, new_user, provision, get_current_db_user,
}

is_text_iff : (o : Option String) (s : String) → (is_text o s ≡ true) ↔ (o ≡ some s)
is_text_iff none s = ground arith
is_text_iff (some t) s = ground (arith, eq_iff t s)

find_identity-append :
    (id : String) (us : List User) (u : User)
    → u.auth_provider_id ≡ some id
    → find_identity id us ≡ none
    → find_identity id (us ++ u ∷ []) ≡ some u
unfolding find_identity
find_identity-append id [] u same missing = ground (arith, eq_iff id id)
find_identity-append id (x ∷ us) u same missing =
    elim (Bool-cases (is_text x.auth_provider_id id)) [
      | inl hit ↦ absurd (ground arith)
      | inr miss ↦ rw (miss, find_identity) (find_identity-append id us u same (ground arith))
    ]

find_identity-before :
    (id : String) (us : List User) (u : User)
    → u.auth_provider_id ≢ some id
    → find_identity id (us ++ u ∷ []) ≡ find_identity id us
unfolding find_identity
find_identity-before id [] u other = ground (arith, is_text_iff u.auth_provider_id id)
find_identity-before id (x ∷ us) u other = ground (arith, find_identity-before id us u other)

has_email-append :
    (email : String) (us : List User) (u : User)
    → u.email ≡ some email
    → has_email (some email) (us ++ u ∷ []) ≡ true
unfolding has_email
has_email-append email [] u same = ground (arith, is_text_iff u.email email)
has_email-append email (x ∷ us) u same = ground (arith, has_email-append email us u same)

-- What one resolution of an identity leaves: its row under the identity, and every other identity's
-- as it was.
provision_lem :
    (env : Env) (auth : AuthUser) (db : Db) (u : User) (db' : Db)
    → provision env auth db ≡ (ok u, db')
    → (find_identity auth.id db'.users ≡ some u)
      × ((other : String)
          → other ≢ auth.id
          → find_identity other db'.users ≡ find_identity other db.users)
unfolding provision new_user
provision_lem env auth db u db' h = elim (Option-cases (find_identity auth.id db.users)) [
  | inr (x, found) ↦
      let e : (x ≡ u) × (db ≡ db') = ground arith in
      (
        subst (λ (d : Db). find_identity auth.id d.users ≡ some u) e.1 (found ∙ ap some e.0),
        λ other differs. ap (λ (d : Db). find_identity other d.users) (sym e.1),
      )
  | inl missing ↦ elim (Bool-cases (has_email auth.email db.users)) [
    | inl taken ↦ absurd (ground arith)
    | inr free ↦
        let made = new_user env auth in
        let e : (made ≡ u) × (record db { users = db.users ++ made ∷ [] } ≡ db') = ground arith in
        (
          subst (λ (d : Db). find_identity auth.id d.users ≡ some u) e.1
              (find_identity-append auth.id db.users made refl missing ∙ ap some e.0),
          λ other differs.
              ap (λ (d : Db). find_identity other d.users) (sym e.1)
              ∙ find_identity-before other db.users made (λ same. differs (ground arith)),
        )
  ]
]

-- An identity that has been resolved once stands for the same row from then on: every further
-- resolution gives that row and changes nothing, and the rows of other identities are as before. Here
-- the row that the first look has seen, if any, is still there at the commit.
pub get_current_db_user-stable :
    (env env' : Env) (auth : AuthUser) (seen db db' : Db) (u : User)
    → ((x : User)
        → find_identity auth.id seen.users ≡ some x
        → find_identity auth.id db.users ≡ some x)
    → get_current_db_user env auth seen db ≡ (ok u, db')
    → (get_current_db_user env' auth db' db' ≡ (ok u, db'))
      × ((other : String)
          → other ≢ auth.id
          → find_identity other db'.users ≡ find_identity other db.users)
unfolding get_current_db_user
get_current_db_user-stable env env' auth seen db db' u still h =
    elim (Option-cases (find_identity auth.id seen.users)) [
      | inr (x, found) ↦
          let e : (x ≡ u) × (db ≡ db') = ground arith in
          let now =
            subst (λ (d : Db). find_identity auth.id d.users ≡ some u) e.1
              (still x found ∙ ap some e.0) in
          (
            rw (now, get_current_db_user) refl,
            λ other differs. ap (λ (d : Db). find_identity other d.users) (sym e.1),
          )
      | inl missing ↦
          let (now, others) = provision_lem env auth db u db' (ground arith) in
          (rw (now, get_current_db_user) refl, others)
    ]

provision-taken :
    (env : Env) (auth : AuthUser) (db : Db)
    → find_identity auth.id db.users ≡ none
    → has_email auth.email db.users ≡ true
    → get_current_db_user env auth db db ≡ (err no_result_found, db)
unfolding get_current_db_user provision
provision-taken env auth db absent taken = ground arith

-- Once an identity with an email has a row of its own making, another identity with the same email
-- that has no row can never get one: each of its requests fails and changes nothing.
pub get_current_db_user-taken :
    (env env' : Env) (auth other : AuthUser) (email : String) (db db' : Db) (u : User)
    → auth.email ≡ some email
    → other.email ≡ some email
    → other.id ≢ auth.id
    → find_identity auth.id db.users ≡ none
    → find_identity other.id db.users ≡ none
    → get_current_db_user env auth db db ≡ (ok u, db')
    → get_current_db_user env' other db' db' ≡ (err no_result_found, db')
unfolding get_current_db_user provision new_user
get_current_db_user-taken env env' auth other email db db' u mine theirs differs missing absent h =
    elim (Bool-cases (has_email auth.email db.users)) [
      | inl taken ↦ absurd (ground arith)
      | inr free ↦
          let made = new_user env auth in
          let e : record db { users = db.users ++ made ∷ [] } ≡ db' = ground arith in
          let unseen =
            find_identity-before other.id db.users made (λ same. differs (ground arith)) ∙ absent in
          let held = has_email-append email db.users made mine in
          subst (λ (d : Db). get_current_db_user env' other d d ≡ (err no_result_found, d)) e
            (provision-taken env' other (record db { users = db.users ++ made ∷ [] }) unseen
              (subst (λ o. has_email o (db.users ++ made ∷ []) ≡ true) (sym theirs) held))
    ]
