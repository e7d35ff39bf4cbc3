-- ===== src/Sync/Upsert/Encode.antt =====
-- The values of the statement carry the ids of the records that they are made of.
use voice_spend.Prelude.{◌≡◌, inl, inr, some, List, [], ◌∷◌, arith, Option-cases, map, ap, sym}
use mathlib.Core.Option.{some-injective}
use voice_spend.Sync.Validate.{ExpenseSyncIn}
use voice_spend.Models.{Expense}
use voice_spend.Sync.Upsert.{Proposed, find_row, to_proposed, to_values}
use voice_spend.Sync.Upsert.Replay.{AtLeast, IsCovered}
use voice_spend.Sync.Upsert.Success.{ids}

to_proposed-id : (r : ExpenseSyncIn) (v : Proposed) → to_proposed r ≡ some v → v.id ≡ r.id
unfolding to_proposed
to_proposed-id r v h = ground arith

pub to_values-cons :
    (r : ExpenseSyncIn) (rs : List ExpenseSyncIn) (vs : List Proposed)
    → to_values (r ∷ rs) ≡ some vs
    → (v : Proposed) × (ws : List Proposed) × (to_proposed r ≡ some v)
      × (to_values rs ≡ some ws)
      × (vs ≡ v ∷ ws)
unfolding to_values
to_values-cons r rs vs h = elim (Option-cases (to_proposed r)) [
  | inl bad ↦ let h' = rw (bad, to_values) at h in cc h'
  | inr (v, good) ↦ elim (Option-cases (to_values rs)) [
    | inl short ↦ let h' = rw (good, to_values, short) at h in cc h'
    | inr (ws, rest) ↦ let h' = rw (good, to_values, rest) at h in (v, ws, good, rest, cc h')
  ]
]

pub to_values-ids :
    (rs : List ExpenseSyncIn) (vs : List Proposed)
    → to_values rs ≡ some vs
    → ids vs ≡ map (λ r. r.id) rs
unfolding to_values
to_values-ids [] vs h = ap ids (sym (some-injective _ _ h))
to_values-ids (r ∷ rs) vs h =
    let (v, ws, p, q, e) = to_values-cons r rs vs h in
    rw e (cc (to_proposed-id r v p, to_values-ids rs ws q))

to_proposed-rev :
    (r : ExpenseSyncIn) (v : Proposed) → to_proposed r ≡ some v → v.client_rev ≡ r.client_rev
unfolding to_proposed
to_proposed-rev r v h = ground arith

-- What is covered by the values of the statement is covered by the records.
pub to_values-AtLeast :
    (rows : List Expense) (r : ExpenseSyncIn) (rs : List ExpenseSyncIn) (vs : List Proposed)
    → to_values (r ∷ rs) ≡ some vs
    → IsCovered rows vs
    → AtLeast r.client_rev (find_row r.id rows)
      × ((ws : List Proposed) × (to_values rs ≡ some ws) × IsCovered rows ws)
to_values-AtLeast rows r rs vs h c =
    let (v, ws, p, q, e) = to_values-cons r rs vs h in
    let c' = rw e at c in (rw (← to_proposed-rev r v p, ← to_proposed-id r v p) c'.0, (ws, q, c'.1))
