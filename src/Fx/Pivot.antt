-- ===== src/Fx/Pivot.antt =====
-- What normalization makes of a payload, up to the stored rates: app/services/fx/ingest.py.
use voice_spend.Prelude.{
  ℕ, String, ◌≡◌, refl, subst, inl, inr, true, false, Option, some, List, [], ◌∷◌, Result, ok,
  ◌>>=◌, >>=-eq-ok, Result-cases, ok-injective, arith, str_eq, eq_iff, if◌then◌else◌, Bool-cases,
}
use voice_spend.Prelude.Int.{ℤ, pos}
use voice_spend.Decimal.{Decimal, finite, ArithmeticError, quantize, to_numeric, rescale}
use voice_spend.Models.{Uuid, Instant, Date, FxRate}
use voice_spend.Http.{Python}
use voice_spend.Fx.Rates.{
  usd, Values, lookup, assign, is_usable, candidates, normalize_all, normalize_to_usd_pivot,
  upsert_rates, IngestResult, FxProvider, ingest_snapshot,
}
use voice_spend.Fx.History.{rate_at, IsDict, refreshed, upsert_rates-history}

pub lookup-assign :
    {V : Type 0} (d : List (String × V)) (code k : String) (v : V)
    → lookup (assign d code v) k ≡ (if str_eq code k then some v else lookup d k)
unfolding lookup assign
lookup-assign [] code k v = refl
lookup-assign ((c, w) ∷ d) code k v =
    ground (arith, lookup-assign d code k v, eq_iff c code, eq_iff c k, eq_iff code k)

assign-IsDict : (d : Values) (code : String) (v : Decimal) → IsDict d → IsDict (assign d code v)
unfolding assign lookup
assign-IsDict [] code v h = (refl, tt)
assign-IsDict ((c, w) ∷ d) code v h = elim (Bool-cases (str_eq c code)) [
  | inl same ↦ rw (same) h
  | inr other ↦ rw (other) (
    ground (arith, lookup-assign d code c v, h.0, eq_iff c code, eq_iff code c),
    assign-IsDict d code v h.1,
  )
]

normalize_all-IsDict :
    (py : Python) (rates before after : Values)
    → IsDict before
    → normalize_all py rates before ≡ ok after
    → IsDict after
unfolding normalize_all
normalize_all-IsDict py [] before after dict h = subst IsDict (ok-injective h) dict
normalize_all-IsDict py ((code, rate) ∷ rates) before after dict h =
    elim (Bool-cases (is_usable rate)) [
      | inl usable ↦
          let step = λ (q : Decimal). normalize_all py rates (assign before (py.upper code) q) in
          let h₁ =
            subst
              (λ b.
                (elim b [ true ↦ quantize 8 rate >>= step | false ↦ normalize_all py rates before ])
                ≡ ok after)
              usable h in
          let (q, quantized, rest) = >>=-eq-ok (quantize 8 rate) step h₁ in
          normalize_all-IsDict py rates (assign before (py.upper code) q) after
            (assign-IsDict before (py.upper code) q dict) rest
      | inr skipped ↦ normalize_all-IsDict py rates before after dict (
          subst
            (λ b.
              (elim b [
                | true ↦ quantize 8 rate >>= λ q.
                    normalize_all py rates (assign before (py.upper code) q)
                | false ↦ normalize_all py rates before
              ])
              ≡ ok after)
            skipped h)
    ]

refreshed-usd :
    (values : Values) (before : Option ℤ)
    → lookup values usd ≡ some (finite (pos 100000000) 8)
    → refreshed values usd before ≡ some (pos 100000000)
unfolding refreshed to_numeric rescale
refreshed-usd values before one = rw (refreshed, one) refl

-- Whatever the payload and its base currency, what normalization returns is a dict in which USD
-- is exactly one.
pub normalize_to_usd_pivot-usd :
    (py : Python) (base_currency : String) (values normalized : Values)
    → normalize_to_usd_pivot py base_currency values ≡ ok normalized
    → IsDict normalized × (lookup normalized usd ≡ some (finite (pos 100000000) 8))
unfolding normalize_to_usd_pivot
normalize_to_usd_pivot-usd py base_currency values normalized h =
    let finish : Values → Result ArithmeticError Values =
      λ n. ok (assign n usd (finite (pos 100000000) 8)) in
    let (rates, _, h₁) =
      >>=-eq-ok (candidates (py.upper base_currency) values)
        (λ rates. normalize_all py rates [] >>= finish) h in
    let (table, h₂, h₃) = >>=-eq-ok (normalize_all py rates []) finish h₁ in
    subst (λ n. IsDict n × (lookup n usd ≡ some (finite (pos 100000000) 8))) (ok-injective h₃)
      (
        assign-IsDict table usd _ (normalize_all-IsDict py rates [] table tt h₂),
        lookup-assign table usd usd (finite (pos 100000000) 8),
      )

-- An ingestion that succeeds stores the rate one for USD on its date, and keeps the stored rates
-- of every other date.
pub ingest_snapshot-usd :
    (py : Python) (now : Instant) (draw : ℕ → Uuid) (provider : FxProvider) (values : Values)
    (date : Date) (rates after : List FxRate) (result : IngestResult)
    → ingest_snapshot py now draw provider values date rates ≡ ok (result, after)
    → (rate_at usd date after ≡ some (pos 100000000))
      × ((code : String) (d : Date) → ¬ (d ≡ date) → rate_at code d after ≡ rate_at code d rates)
unfolding ingest_snapshot
ingest_snapshot-usd py now draw provider values date rates after result h =
    elim (Result-cases (normalize_to_usd_pivot py provider.base_currency values)) [
      | inl (e, failed) ↦ absurd (ground arith)
      | inr (normalized, done) ↦
          elim (Result-cases (upsert_rates now draw normalized date provider.provider_name rates)) [
            | inl (e, failed) ↦ absurd (ground arith)
            | inr ((n, table), written) ↦
                let same : table ≡ after = ground arith in
                let (dict, one) =
                  normalize_to_usd_pivot-usd py provider.base_currency values normalized done in
                let history =
                  upsert_rates-history now draw normalized date provider.provider_name rates table n
                    dict written in
                subst
                  (λ t.
                    (rate_at usd date t ≡ some (pos 100000000))
                    × ((code : String) (d : Date)
                        → ¬ (d ≡ date)
                        → rate_at code d t ≡ rate_at code d rates))
                  same
                  (
                    ground (
                      arith,
                      history usd date,
                      refreshed-usd normalized (rate_at usd date rates) one,
                    ),
                    λ code d other. ground (arith, history code d),
                  )
          ]
    ]
