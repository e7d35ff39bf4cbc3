-- ===== src/Sync/Push/Reasons/Second.antt =====
-- The verdicts of the second pass of a push (`check_records` of Sync/Batch), app/api/v1/sync.py.
use voice_spend.Prelude.{
  String, ◌≡◌, ◌≢◌, sym, ◌∙◌, ◌⊎◌, inl, inr, true, false, some, List, [], ◌∷◌, arith, Bool-cases,
  Option-cases, All, ◌==◌, ==_iff,
}
use mathlib.Core.Option.{some-injective}
use voice_spend.Prelude.Dict.{Dict, get, put, get-put}
use voice_spend.Models.{Uuid, Expense, Device}
use voice_spend.Sync.Validate.{ExpenseSyncIn}
use voice_spend.Sync.Upsert.{find_row}
use voice_spend.Sync.Batch.{owns_device, is_foreign, check_records}
use voice_spend.Sync.Push.Reasons.First.{Any}

get-put_cases :
    (d : Dict String) (k j : Uuid) (v why : String)
    → get (put d k v) j ≡ some why
    → (get d j ≡ some why) ⊎ ((why ≡ v) × (k ≡ j))
get-put_cases d k j v why h =
    let found = sym (get-put d k j v) ∙ h in
    elim (Bool-cases (k == j)) [
      | inl same ↦
          let text = some-injective _ _ (rw (same) at found) in
          inr (sym text, ground (arith, ==_iff k j))
      | inr other ↦ inl (rw (other) at found)
    ]

module _ (u : Uuid) (devices : List Device) (rows : List Expense) where
  -- A device that no row of the user's has.
  abbrev pub IsUnowned : Uuid → Type 0
  IsUnowned id = All (λ d. d.id ≡ id → d.user_id ≢ u) devices

  -- A row of another user under the id.
  abbrev pub IsTaken : Uuid → Type 0
  IsTaken j = (e : Expense) × (find_row j rows ≡ some e) × (e.user_id ≢ u)

  pub is_foreign-IsTaken : (j : Uuid) → is_foreign u (find_row j rows) ≡ true → IsTaken j
  unfolding is_foreign
  is_foreign-IsTaken j h = elim (Option-cases (find_row j rows)) [
    | inl absent ↦ let h' = rw (absent, is_foreign) at h in cc h'
    | inr (e, found) ↦
        let h' = rw (found, is_foreign) at h in (e, found, ground (arith, h', ==_iff e.user_id u))
  ]

  -- What the second pass adds to the verdicts.
  pub check_records-reason :
      (rs : List ExpenseSyncIn) (rejects : Dict String) (j : Uuid) (why : String)
      → get (check_records u devices rows rs rejects).rejects j ≡ some why
      → (get rejects j ≡ some why)
        ⊎ ((why ≡ "device_id not found or not owned by user")
            × Any (λ r. (r.id ≡ j) × (owns_device u devices r.device_id ≡ false)) rs)
        ⊎ ((why ≡ "record id belongs to a different user")
            × Any (λ r. (r.id ≡ j) × (is_foreign u (find_row r.id rows) ≡ true)) rs)
  unfolding check_records
  check_records-reason [] rejects j why h = inl h
  check_records-reason (r ∷ rs) rejects j why h =
      let unowned : String = "device_id not found or not owned by user" in
      let foreign : String = "record id belongs to a different user" in
      elim (Bool-cases (owns_device u devices r.device_id)) [
        | inr no_device ↦
            elim (check_records-reason rs (put rejects r.id unowned) j why
              (rw (no_device, check_records) at h)) [
                | inl was ↦ elim (get-put_cases rejects r.id j unowned why was) [
                  | inl old ↦ inl old
                  | inr (text, same) ↦ inr (inl (text, inl (same, no_device)))
                ]
                | inr (inl (text, later)) ↦ inr (inl (text, inr later))
                | inr (inr (text, later)) ↦ inr (inr (text, inr later))
              ]
        | inl owned ↦ elim (Bool-cases (is_foreign u (find_row r.id rows))) [
          | inl other ↦
              elim (check_records-reason rs (put rejects r.id foreign) j why
                (rw (owned, other, check_records) at h)) [
                  | inl was ↦ elim (get-put_cases rejects r.id j foreign why was) [
                    | inl old ↦ inl old
                    | inr (text, same) ↦ inr (inr (text, inl (same, other)))
                  ]
                  | inr (inl (text, later)) ↦ inr (inl (text, inr later))
                  | inr (inr (text, later)) ↦ inr (inr (text, inr later))
                ]
          | inr fine ↦
              elim (check_records-reason rs rejects j why (rw (owned, fine, check_records) at h)) [
                | inl old ↦ inl old
                | inr (inl (text, later)) ↦ inr (inl (text, inr later))
                | inr (inr (text, later)) ↦ inr (inr (text, inr later))
              ]
        ]
      ]

pub owns_device-IsUnowned :
    (u : Uuid) (devices : List Device) (rows : List Expense) (id : Uuid)
    → owns_device u devices id ≡ false
    → IsUnowned u devices rows id
unfolding owns_device
owns_device-IsUnowned u [] rows id h = tt
owns_device-IsUnowned u (d ∷ ds) rows id h = (
  λ same own. ground (arith, ==_iff d.id id, ==_iff d.user_id u),
  owns_device-IsUnowned u ds rows id (ground arith),
)
