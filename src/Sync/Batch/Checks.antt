-- ===== src/Sync/Batch/Checks.antt =====
-- The second pass of a push (`check_records` of Sync/Batch): the records that it lets through are
-- on a device of the user, and reach no row of another user.
use voice_spend.Prelude.{
  String, ◌≡◌, refl, inl, inr, true, false, List, [], ◌∷◌, arith, Bool-cases, All, elem, Distinct,
}
use voice_spend.Prelude.Dict.{Dict, get, put, get-put}
use voice_spend.Models.{Uuid, Device, Expense}
use voice_spend.Sync.Validate.{ExpenseSyncIn}
use voice_spend.Sync.Upsert.{find_row}
use voice_spend.Sync.Batch.{owns_device, is_foreign, check_records}
use voice_spend.Sync.Batch.WellFormed.{record_ids}

module _ (u : Uuid) (devices : List Device) (rows : List Expense) where
  abbrev pub IsAllowed : ExpenseSyncIn → Type 0
  IsAllowed r =
      (owns_device u devices r.device_id ≡ true) × (is_foreign u (find_row r.id rows) ≡ false)

  -- Every record that is let through passes both checks.
  pub check_records-IsAllowed :
      (rs : List ExpenseSyncIn) (rejects : Dict String)
      → All IsAllowed (check_records u devices rows rs rejects).valid
  unfolding check_records
  check_records-IsAllowed [] rejects = tt
  check_records-IsAllowed (r ∷ rs) rejects = elim (Bool-cases (owns_device u devices r.device_id)) [
    | inr unowned ↦ rw unowned (check_records-IsAllowed rs _)
    | inl owned ↦ elim (Bool-cases (is_foreign u (find_row r.id rows))) [
      | inl foreign ↦ rw (owned, foreign) (check_records-IsAllowed rs _)
      | inr fine ↦ rw (owned, fine) ((owned, fine), check_records-IsAllowed rs rejects)
    ]
  ]

  elem-check_records :
      (rs : List ExpenseSyncIn) (rejects : Dict String) (j : Uuid)
      → elem j (record_ids rs) ≡ false
      → elem j (record_ids (check_records u devices rows rs rejects).valid) ≡ false
  unfolding check_records
  elem-check_records [] rejects j h = refl
  elem-check_records (r ∷ rs) rejects j h = ground (
    arith,
    elem-check_records rs rejects j,
    elem-check_records rs (put rejects r.id "device_id not found or not owned by user") j,
    elem-check_records rs (put rejects r.id "record id belongs to a different user") j,
  )

  -- Ids that differ still differ among the records let through.
  pub check_records-Distinct :
      (rs : List ExpenseSyncIn) (rejects : Dict String)
      → Distinct (record_ids rs)
      → Distinct (record_ids (check_records u devices rows rs rejects).valid)
  unfolding check_records
  check_records-Distinct [] rejects d = tt
  check_records-Distinct (r ∷ rs) rejects d = ground (
    arith,
    elem-check_records rs rejects r.id d.0,
    check_records-Distinct rs rejects d.1,
    check_records-Distinct rs (put rejects r.id "device_id not found or not owned by user") d.1,
    check_records-Distinct rs (put rejects r.id "record id belongs to a different user") d.1,
  )

  -- No id that is let through is that of another user's row.
  pub check_records-own :
      (rs : List ExpenseSyncIn)
      → All IsAllowed rs
      → All (λ j. is_foreign u (find_row j rows) ≡ false) (record_ids rs)
  check_records-own [] h = tt
  check_records-own (r ∷ rs) h = (h.0.1, check_records-own rs h.1)

  get-check_records :
      (rs : List ExpenseSyncIn) (rejects : Dict String) (j : Uuid)
      → elem j (record_ids rs) ≡ false
      → get (check_records u devices rows rs rejects).rejects j ≡ get rejects j
  unfolding check_records
  get-check_records [] rejects j h = refl
  get-check_records (r ∷ rs) rejects j h = ground (
    arith,
    get-check_records rs rejects j,
    get-check_records rs (put rejects r.id "device_id not found or not owned by user") j,
    get-check_records rs (put rejects r.id "record id belongs to a different user") j,
    get-put rejects r.id j "device_id not found or not owned by user",
    get-put rejects r.id j "record id belongs to a different user",
  )

  valid_rejects_put :
      (rs : List ExpenseSyncIn) (rejects : Dict String) (k : Uuid) (why : String)
      (xs : List ExpenseSyncIn)
      → elem k (record_ids xs) ≡ false
      → All
          (λ r.
            get (check_records u devices rows rs (put rejects k why)).rejects r.id
            ≡ get (put rejects k why) r.id)
          xs
      → All
          (λ r.
            get (check_records u devices rows rs (put rejects k why)).rejects r.id
            ≡ get rejects r.id)
          xs
  valid_rejects_put rs rejects k why [] n h = tt
  valid_rejects_put rs rejects k why (x ∷ xs) n h = (
    ground (arith, h.0, get-put rejects k x.id why),
    valid_rejects_put rs rejects k why xs (ground arith) h.1,
  )

  -- A record that is let through gets no new verdict.
  pub valid_rejects :
      (rs : List ExpenseSyncIn) (rejects : Dict String)
      → Distinct (record_ids rs)
      → All
          (λ r. get (check_records u devices rows rs rejects).rejects r.id ≡ get rejects r.id)
          (check_records u devices rows rs rejects).valid
  unfolding check_records
  valid_rejects [] rejects d = tt
  valid_rejects (r ∷ rs) rejects d =
      let unowned : String = "device_id not found or not owned by user" in
      let foreign : String = "record id belongs to a different user" in
      elim (Bool-cases (owns_device u devices r.device_id)) [
        | inr no_device ↦ rw no_device (
            valid_rejects_put rs rejects r.id unowned
              (check_records u devices rows rs (put rejects r.id unowned)).valid
              (elem-check_records rs (put rejects r.id unowned) r.id d.0)
              (valid_rejects rs (put rejects r.id unowned) d.1))
        | inl owned ↦ elim (Bool-cases (is_foreign u (find_row r.id rows))) [
          | inl other ↦
              rw (owned, other)
                (valid_rejects_put rs rejects r.id foreign
                  (check_records u devices rows rs (put rejects r.id foreign)).valid
                  (elem-check_records rs (put rejects r.id foreign) r.id d.0)
                  (valid_rejects rs (put rejects r.id foreign) d.1))
          | inr fine ↦
              rw (owned, fine) (get-check_records rs rejects r.id d.0, valid_rejects rs rejects d.1)
        ]
      ]
