-- ===== src/Sync/Batch/WellFormed.antt =====
-- The first pass of a push (`read_records` of Sync/Batch): each id is kept once, and `order` names
-- exactly the ids that have a verdict.
use voice_spend.Prelude.{
  ℕ, ◌≡◌, refl, ap, inl, inr, false, ◌||◌, Option, none, some, List, [], ◌∷◌, ◌++◌, arith, ◌==◌,
  Bool-cases, map, Result, ok, err, All, elem, Distinct,
}
use voice_spend.Prelude.Dict.{
  Dict, get, put, has, keys, values, setdefault, get-put, get-setdefault,
}
use voice_spend.Models.{Uuid}
use voice_spend.Sync.Validate.{
  Pydantic, ExpenseSyncIn, FieldError, Raw, model_validate, raw_record_id, first_error_reason,
}
use voice_spend.Sync.Batch.{Batch, empty_batch, add_invalid, add_valid, add_parsed, read_records}

abbrev pub record_ids : List ExpenseSyncIn → List Uuid
record_ids = map (λ r. r.id)

-- Each entry of `parsed` stands under its own id.
abbrev pub IsKeyed : Dict ExpenseSyncIn → Type 0
IsKeyed = All (λ e. e.1.id ≡ e.0)

pub record IsWellFormed (b : Batch) : Type 0 where
  pub keyed : IsKeyed b.parsed
  pub distinct_keys : Distinct (keys b.parsed)
  pub distinct_order : Distinct b.order
  pub in_order : (j : Uuid) → elem j b.order ≡ (has b.parsed j || has b.rejects j)

pub elem-append : (j : ℕ) (xs ys : List ℕ) → elem j (xs ++ ys) ≡ (elem j xs || elem j ys)
elem-append j [] ys = refl
elem-append j (x ∷ xs) ys = ground (arith, elem-append j xs ys)

pub Distinct-append_one :
    (xs : List ℕ) (y : ℕ) → elem y xs ≡ false → Distinct xs → Distinct (xs ++ y ∷ [])
Distinct-append_one [] y n d = (refl, tt)
Distinct-append_one (x ∷ xs) y n d =
    ground (arith, elem-append x xs (y ∷ []), Distinct-append_one xs y)

pub has-keys : {V : Type 0} (d : Dict V) (j : ℕ) → has d j ≡ elem j (keys d)
unfolding get
has-keys [] j = refl
has-keys ((k, v) ∷ d) j = ground (arith, has-keys d j)

-- Assignment under a new key appends.
pub put_new :
    {V : Type 0} (d : Dict V) (k : ℕ) (v : V) → has d k ≡ false → put d k v ≡ d ++ (k, v) ∷ []
unfolding put get
put_new [] k v h = refl
put_new ((j, w) ∷ d) k v h = ground (arith, put_new d k v)

keys-append : {V : Type 0} (d : Dict V) (k : ℕ) (v : V) → keys (d ++ (k, v) ∷ []) ≡ keys d ++ k ∷ []
keys-append [] k v = refl
keys-append (x ∷ d) k v = ap (◌∷◌ x.0) (keys-append d k v)

IsKeyed-append :
    (d : Dict ExpenseSyncIn) (r : ExpenseSyncIn) → IsKeyed d → IsKeyed (d ++ (r.id, r) ∷ [])
IsKeyed-append [] r h = (refl, tt)
IsKeyed-append (x ∷ d) r h = (h.0, IsKeyed-append d r h.1)

pub record_ids-values : (d : Dict ExpenseSyncIn) → IsKeyed d → record_ids (values d) ≡ keys d
record_ids-values [] h = refl
record_ids-values ((k, r) ∷ d) h = cc (h.0, record_ids-values d h.1)

has-put : {V : Type 0} (d : Dict V) (k j : ℕ) (v : V) → has (put d k v) j ≡ (k == j || has d j)
has-put d k j v = ground (arith, get-put d k j v)

has-setdefault :
    {V : Type 0} (d : Dict V) (k j : ℕ) (v : V) → has (setdefault d k v) j ≡ (k == j || has d j)
has-setdefault d k j v = ground (arith, get-setdefault d k j v)

add_invalid-IsWellFormed :
    (id : Option Uuid) (e : FieldError) (b : Batch)
    → IsWellFormed b
    → IsWellFormed (add_invalid id e b)
unfolding add_invalid
add_invalid-IsWellFormed none e b w = w
add_invalid-IsWellFormed (some id) e b w = elim (Bool-cases (has b.rejects id || has b.parsed id)) [
  | inl seen ↦ rw seen w
  | inr new ↦ rw new (record {
    keyed = w.keyed;
    distinct_keys = w.distinct_keys;
    distinct_order =
        Distinct-append_one b.order id (ground (arith, w.in_order id)) w.distinct_order;
    in_order = λ j. ground (
      arith,
      w.in_order j,
      elem-append j b.order (id ∷ []),
      has-put b.rejects id j (first_error_reason e),
    );
  })
]

add_valid-IsWellFormed :
    (r : ExpenseSyncIn) (b : Batch) → IsWellFormed b → IsWellFormed (add_valid r b)
unfolding add_valid
add_valid-IsWellFormed r b w = elim (Bool-cases (has b.parsed r.id || has b.rejects r.id)) [
  | inl seen ↦ rw seen (record {
    keyed = w.keyed;
    distinct_keys = w.distinct_keys;
    distinct_order = w.distinct_order;
    in_order =
        λ j. ground (arith, w.in_order j, has-setdefault b.rejects r.id j "duplicate id in batch");
  })
  | inr new ↦
      let absent : has b.parsed r.id ≡ false = ground arith in
      let appended = put_new b.parsed r.id r absent in
      rw new (record {
        keyed = rw appended (IsKeyed-append b.parsed r w.keyed);
        distinct_keys =
            rw (appended, keys-append b.parsed r.id r)
              (Distinct-append_one (keys b.parsed) r.id (ground (arith, has-keys b.parsed r.id))
                w.distinct_keys);
        distinct_order =
            Distinct-append_one b.order r.id (ground (arith, w.in_order r.id)) w.distinct_order;
        in_order = λ j.
            ground
              (arith, w.in_order j, elem-append j b.order (r.id ∷ []), has-put b.parsed r.id j r);
      })
]

add_parsed-IsWellFormed :
    (id : Option Uuid) (r : Result FieldError ExpenseSyncIn) (b : Batch)
    → IsWellFormed b
    → IsWellFormed (add_parsed id r b)
unfolding add_parsed
add_parsed-IsWellFormed id (ok r) b w = add_valid-IsWellFormed r b w
add_parsed-IsWellFormed id (err e) b w = add_invalid-IsWellFormed id e b w

empty_batch-IsWellFormed : IsWellFormed empty_batch
unfolding get
empty_batch-IsWellFormed = record {
  keyed = tt;
  distinct_keys = tt;
  distinct_order = tt;
  in_order = λ j. refl;
}

module _ (py : Pydantic) where
  read_records_from :
      (raws : List (Raw py)) (b : Batch) → IsWellFormed b → IsWellFormed (read_records py raws b)
  unfolding read_records
  read_records_from [] b w = w
  read_records_from (raw ∷ raws) b w =
      read_records_from raws (add_parsed (raw_record_id py raw) (model_validate py raw) b)
        (add_parsed-IsWellFormed (raw_record_id py raw) (model_validate py raw) b w)

  -- Whatever the client sends, the batch that is read is well formed.
  pub read_records-IsWellFormed :
      (raws : List (Raw py)) → IsWellFormed (read_records py raws empty_batch)
  read_records-IsWellFormed raws = read_records_from raws empty_batch empty_batch-IsWellFormed
