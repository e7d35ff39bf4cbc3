-- ===== src/Sync/Push/Reasons/First.antt =====
-- The verdicts of the first pass of a push (`read_records` of Sync/Batch), app/api/v1/sync.py.
use voice_spend.Prelude.{
  String, ◌≡◌, sym, ◌∙◌, ◌⊎◌, inl, inr, true, none, some, List, [], ◌∷◌, Option, ok, err, ◌||◌,
  arith, Bool-cases, Result-cases, All, All-map, ◌==◌, ==_iff,
}
use mathlib.Core.Option.{some-injective}
use voice_spend.Prelude.Dict.{Dict, get, has, put, values, get-put, get-setdefault}
use voice_spend.Models.{Uuid}
use voice_spend.Sync.Validate.{
  Pydantic, Raw, ExpenseSyncIn, FieldError, model_validate, raw_record_id, first_error_reason,
}
use voice_spend.Sync.Batch.{Batch, add_invalid, add_valid, add_parsed, read_records}

-- At least one element of a list, and at least two.
abbrev pub Any : {A : Type 0} → (A → Type 0) → List A → Type 0
Any P [] = ⊥
Any P (x ∷ xs) = P x ⊎ Any P xs

abbrev pub Twice : {A : Type 0} → (A → Type 0) → List A → Type 0
Twice P [] = ⊥
Twice P (x ∷ xs) = (P x × Any P xs) ⊎ Twice P xs

pub Any-map :
    {A : Type 0} (P Q : A → Type 0) (xs : List A) → ((x : A) → P x → Q x) → Any P xs → Any Q xs
Any-map P Q [] f h = absurd h
Any-map P Q (x ∷ xs) f (inl h) = inl (f x h)
Any-map P Q (x ∷ xs) f (inr h) = inr (Any-map P Q xs f h)

pub Any-All :
    {A : Type 0} (P Q : A → Type 0) (xs : List A) → Any P xs → All Q xs → (x : A) × P x × Q x
Any-All P Q [] h a = absurd h
Any-All P Q (x ∷ xs) (inl h) a = (x, h, a.0)
Any-All P Q (x ∷ xs) (inr h) a = Any-All P Q xs h a.1

-- Every element is one of its list.
pub self_Any :
    {A B : Type 0} (P : A → B → Type 0) (xs : List A)
    → All (λ x. (b : B) → P x b → Any (λ y. P y b) xs) xs
self_Any P [] = tt
self_Any P (x ∷ xs) = (λ b h. inl h, All-map _ _ (λ y f b h. inr (f b h)) xs (self_Any P xs))

All-put :
    {V : Type 0} (Q : V → Type 0) (d : Dict V) (k : Uuid) (v : V)
    → All Q (values d)
    → Q v
    → All Q (values (put d k v))
unfolding put
All-put Q [] k v a q = (q, tt)
All-put Q ((j, w) ∷ d) k v a q = elim (Bool-cases (j == k)) [
  | inl same ↦ rw (same, put) (q, a.1)
  | inr other ↦ rw (other, put) (a.0, All-put Q d k v a.1 q)
]

abbrev IsSeen : Batch → Uuid → Type 0
IsSeen b j = (has b.parsed j || has b.rejects j) ≡ true

-- What a valid record adds to the verdicts, and to the ids that have been seen.
add_valid-reason :
    (r : ExpenseSyncIn) (b : Batch) (j : Uuid) (why : String)
    → get (add_valid r b).rejects j ≡ some why
    → (get b.rejects j ≡ some why) ⊎ ((why ≡ "duplicate id in batch") × IsSeen b j × (r.id ≡ j))
unfolding add_valid
add_valid-reason r b j why h = elim (Bool-cases (has b.parsed r.id || has b.rejects r.id)) [
  | inr new ↦ inl (rw (new, add_valid) at h)
  | inl seen ↦
      let h' = rw (seen, add_valid) at h in
      let found = sym (get-setdefault b.rejects r.id j "duplicate id in batch") ∙ h' in
      elim (Bool-cases (has b.rejects j)) [
        | inl old ↦ inl (rw (old) at found)
        | inr absent ↦ elim (Bool-cases (r.id == j)) [
          | inl same ↦
              let text = some-injective _ _ (rw (absent, same) at found) in
              inr (sym text, ground (arith, ==_iff r.id j), ground (arith, ==_iff r.id j))
          | inr other ↦ let none_left = rw (absent, other) at found in cc none_left
        ]
      ]
]

add_valid-IsSeen :
    (r : ExpenseSyncIn) (b : Batch) (j : Uuid) → IsSeen (add_valid r b) j → IsSeen b j ⊎ (r.id ≡ j)
unfolding add_valid
add_valid-IsSeen r b j h = ground (
  arith,
  get-setdefault b.rejects r.id j "duplicate id in batch",
  get-put b.parsed r.id j r,
  ==_iff r.id j,
)

-- And an invalid one.
add_invalid-reason :
    (id : Option Uuid) (e : FieldError) (b : Batch) (j : Uuid) (why : String)
    → get (add_invalid id e b).rejects j ≡ some why
    → (get b.rejects j ≡ some why) ⊎ ((id ≡ some j) × (first_error_reason e ≡ why))
unfolding add_invalid
add_invalid-reason none e b j why h = inl h
add_invalid-reason (some id) e b j why h = elim (Bool-cases (has b.rejects id || has b.parsed id)) [
  | inl seen ↦ inl (rw (seen, add_invalid) at h)
  | inr new ↦
      let found =
        sym (get-put b.rejects id j (first_error_reason e)) ∙ (rw (new, add_invalid) at h) in
      elim (Bool-cases (id == j)) [
        | inl same ↦ inr (ground (arith, ==_iff id j), some-injective _ _ (rw (same) at found))
        | inr other ↦ inl (rw (other) at found)
      ]
]

add_invalid-IsSeen :
    (id : Option Uuid) (e : FieldError) (b : Batch) (j : Uuid)
    → IsSeen (add_invalid id e b) j
    → IsSeen b j ⊎ (id ≡ some j)
unfolding add_invalid
add_invalid-IsSeen none e b j h = inl h
add_invalid-IsSeen (some id) e b j h =
    ground (arith, get-put b.rejects id j (first_error_reason e), ==_iff id j)

add_invalid-All :
    (Q : ExpenseSyncIn → Type 0) (id : Option Uuid) (e : FieldError) (b : Batch)
    → All Q (values b.parsed)
    → All Q (values (add_invalid id e b).parsed)
unfolding add_invalid
add_invalid-All Q none e b a = a
add_invalid-All Q (some id) e b a = elim (Bool-cases (has b.rejects id || has b.parsed id)) [
  | inl seen ↦ rw seen a
  | inr new ↦ rw new a
]

add_valid-All :
    (Q : ExpenseSyncIn → Type 0) (r : ExpenseSyncIn) (b : Batch)
    → Q r
    → All Q (values b.parsed)
    → All Q (values (add_valid r b).parsed)
unfolding add_valid
add_valid-All Q r b q a = elim (Bool-cases (has b.parsed r.id || has b.rejects r.id)) [
  | inl seen ↦ rw seen a
  | inr new ↦ rw new (All-put Q b.parsed r.id r a q)
]

module _ (py : Pydantic) where
  -- The record under an id, and the reason why it does not validate.
  abbrev pub IsInvalid : Uuid → String → Raw py → Type 0
  IsInvalid j why raw =
      (raw_record_id py raw ≡ some j)
      × ((e : FieldError) × (model_validate py raw ≡ err e) × (first_error_reason e ≡ why))

  -- The record has the id, whether it validates or not.
  abbrev pub IsNamed : Uuid → Raw py → Type 0
  IsNamed j raw =
      ((r : ExpenseSyncIn) × (model_validate py raw ≡ ok r) × (r.id ≡ j))
      ⊎ (raw_record_id py raw ≡ some j)

  -- What one record adds to the verdicts and to the ids that have been seen.
  add_parsed-reason :
      (raw : Raw py) (b : Batch) (j : Uuid) (why : String)
      → get (add_parsed (raw_record_id py raw) (model_validate py raw) b).rejects j ≡ some why
      → (get b.rejects j ≡ some why)
        ⊎ IsInvalid j why raw
        ⊎ ((why ≡ "duplicate id in batch") × IsSeen b j × IsNamed j raw)
  unfolding add_parsed
  add_parsed-reason raw b j why h = elim (Result-cases (model_validate py raw)) [
    | inl (e, bad) ↦
        elim (add_invalid-reason (raw_record_id py raw) e b j why (rw (bad, add_parsed) at h)) [
          | inl old ↦ inl old
          | inr (named, text) ↦ inr (inl (named, (e, bad, text)))
        ]
    | inr (r, good) ↦ elim (add_valid-reason r b j why (rw (good, add_parsed) at h)) [
      | inl old ↦ inl old
      | inr (text, seen, same) ↦ inr (inr (text, seen, inl (r, good, same)))
    ]
  ]

  add_parsed-IsSeen :
      (raw : Raw py) (b : Batch) (j : Uuid)
      → IsSeen (add_parsed (raw_record_id py raw) (model_validate py raw) b) j
      → IsSeen b j ⊎ IsNamed j raw
  unfolding add_parsed
  add_parsed-IsSeen raw b j h = elim (Result-cases (model_validate py raw)) [
    | inl (e, bad) ↦
        elim (add_invalid-IsSeen (raw_record_id py raw) e b j (rw (bad, add_parsed) at h)) [
          | inl old ↦ inl old
          | inr named ↦ inr (inr named)
        ]
    | inr (r, good) ↦ elim (add_valid-IsSeen r b j (rw (good, add_parsed) at h)) [
      | inl old ↦ inl old
      | inr same ↦ inr (inl (r, good, same))
    ]
  ]

  pub read_records-reason :
      (raws : List (Raw py)) (b : Batch) (j : Uuid) (why : String)
      → get (read_records py raws b).rejects j ≡ some why
      → (get b.rejects j ≡ some why)
        ⊎ Any (IsInvalid j why) raws
        ⊎ ((why ≡ "duplicate id in batch")
            × ((IsSeen b j × Any (IsNamed j) raws) ⊎ Twice (IsNamed j) raws))
  unfolding read_records
  read_records-reason [] b j why h = inl h
  read_records-reason (raw ∷ raws) b j why h =
      let b' = add_parsed (raw_record_id py raw) (model_validate py raw) b in
      elim (read_records-reason raws b' j why h) [
        | inl was ↦ elim (add_parsed-reason raw b j why was) [
          | inl old ↦ inl old
          | inr (inl bad) ↦ inr (inl (inl bad))
          | inr (inr (text, seen, named)) ↦ inr (inr (text, inl (seen, inl named)))
        ]
        | inr (inl bad) ↦ inr (inl (inr bad))
        | inr (inr (text, inr twice)) ↦ inr (inr (text, inr (inr twice)))
        | inr (inr (text, inl (seen, again))) ↦ elim (add_parsed-IsSeen raw b j seen) [
          | inl before ↦ inr (inr (text, inl (before, inr again)))
          | inr named ↦ inr (inr (text, inr (inl (named, again))))
        ]
      ]

  add_parsed-All :
      (Q : ExpenseSyncIn → Type 0) (raw : Raw py) (b : Batch)
      → ((r : ExpenseSyncIn) → model_validate py raw ≡ ok r → Q r)
      → All Q (values b.parsed)
      → All Q (values (add_parsed (raw_record_id py raw) (model_validate py raw) b).parsed)
  unfolding add_parsed
  add_parsed-All Q raw b make a = elim (Result-cases (model_validate py raw)) [
    | inl (e, bad) ↦ rw (bad, add_parsed) (add_invalid-All Q (raw_record_id py raw) e b a)
    | inr (r, good) ↦ rw (good, add_parsed) (add_valid-All Q r b (make r good) a)
  ]

  -- What holds of what the records of a request validate to holds of all the records that are kept.
  pub read_records-All :
      (Q : ExpenseSyncIn → Type 0) (raws : List (Raw py)) (b : Batch)
      → All (λ raw. (r : ExpenseSyncIn) → model_validate py raw ≡ ok r → Q r) raws
      → All Q (values b.parsed)
      → All Q (values (read_records py raws b).parsed)
  unfolding read_records
  read_records-All Q [] b make a = a
  read_records-All Q (raw ∷ raws) b make a =
      read_records-All Q raws (add_parsed (raw_record_id py raw) (model_validate py raw) b) make.1
        (add_parsed-All Q raw b make.0 a)
