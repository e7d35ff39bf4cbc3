-- ===== src/Fx/Backfill.antt =====
-- Which days a backfill writes: `backfill_range` of app/services/fx/ingest.py.
use voice_spend.Prelude.{
  ℕ, zero, suc, ◌+◌, ◌-◌, ◌≤◌, ◌<◌, String, ◌≡◌, refl, ap, sym, ◌∙◌, ◌⊎◌, inl, inr, none, some,
  List, [], ◌∷◌, map, Result, ok, err, ◌>>=◌, Result-cases, Option-cases, arith, ok-injective,
  >>=-eq-ok, All,
}
use voice_spend.Prelude.Int.{pos}
use voice_spend.Models.{Uuid, Instant, Date, FxRate}
use voice_spend.Http.{Failure, Python}
use voice_spend.Fx.Rates.{
  Values, IngestResult, FxProvider, normalize_to_usd_pivot, upsert_rates, ingest_snapshot,
  backfill_days, backfill_range, usd,
}
use voice_spend.Fx.History.{rate_at}
use voice_spend.Fx.Pivot.{ingest_snapshot-usd}

ingest_snapshot-rate_date :
    (py : Python) (now : Instant) (draw : ℕ → Uuid) (provider : FxProvider) (values : Values)
    (date : Date) (rates after : List FxRate) (result : IngestResult)
    → ingest_snapshot py now draw provider values date rates ≡ ok (result, after)
    → result.rate_date ≡ date
unfolding ingest_snapshot
ingest_snapshot-rate_date py now draw provider values date rates after result h =
    elim (Result-cases (normalize_to_usd_pivot py provider.base_currency values)) [
      | inl (e, failed) ↦ absurd (ground arith)
      | inr (normalized, done) ↦
          elim (Result-cases (upsert_rates now draw normalized date provider.provider_name rates)) [
            | inl (e, failed) ↦ absurd (ground arith)
            | inr ((n, table), written) ↦ ground arith
          ]
    ]

module _ (py : Python) (now : Instant) (draw : Date → ℕ → Uuid) (provider : FxProvider) where
  -- The days from `current` on, `days` of them, for which the provider has an answer.
  unfoldable pub answered : ℕ → Date → List Date
  answered zero current = []
  answered (suc days) current = elim (provider.fetch_for_date current) [
    | none ↦ answered days (suc current)
    | some values ↦ current ∷ answered days (suc current)
  ]

  backfill_days-outside :
      (days : ℕ) (current : Date) (rates : List FxRate) (code : String) (d : Date)
      → (d < current) ⊎ (current + days ≤ d)
      → rate_at code d (backfill_days py now draw provider days current rates).1
        ≡ rate_at code d rates
  unfolding backfill_days
  backfill_days-outside zero current rates code d out = refl
  backfill_days-outside (suc days) current rates code d out =
      let further : (d < suc current) ⊎ (suc current + days ≤ d) = ground arith in
      let apart : ¬ (d ≡ current) = λ same. ground arith in
      elim (Option-cases (provider.fetch_for_date current)) [
        | inl silent ↦
            rw (silent, backfill_days)
              (backfill_days-outside days (suc current) rates code d further)
        | inr (values, found) ↦
            elim (Result-cases
              (ingest_snapshot py now (draw current) provider values current rates)) [
                | inl (e, failed) ↦ rw (found, failed, backfill_days) refl
                | inr ((result, table), done) ↦
                    let (one, history) =
                      ingest_snapshot-usd py now (draw current) provider values current rates table
                        result done in
                    rw (found, done, backfill_days)
                      (backfill_days-outside days (suc current) table code d further
                        ∙ history code d apart)
              ]
      ]

  -- One day of the loop: a day without an answer, and a day whose rates are stored.
  backfill_days-silent :
      (days : ℕ) (current : Date) (rates : List FxRate)
      → provider.fetch_for_date current ≡ none
      → (backfill_days py now draw provider (suc days) current rates
          ≡ backfill_days py now draw provider days (suc current) rates)
        × (answered (suc days) current ≡ answered days (suc current))
  unfolding backfill_days answered
  backfill_days-silent days current rates silent =
      (rw (silent, backfill_days) refl, rw (silent, answered) refl)

  backfill_days-stored :
      (days : ℕ) (current : Date) (rates table : List FxRate) (values : Values)
      (result : IngestResult)
      → provider.fetch_for_date current ≡ some values
      → ingest_snapshot py now (draw current) provider values current rates ≡ ok (result, table)
      → let (later, last) = backfill_days py now draw provider days (suc current) table in
        (backfill_days py now draw provider (suc days) current rates
          ≡ (later >>= λ rs. ok (result ∷ rs), last))
        × (answered (suc days) current ≡ current ∷ answered days (suc current))
  unfolding backfill_days answered
  backfill_days-stored days current rates table values result found done =
      (rw (found, done, backfill_days) refl, rw (found, answered) refl)

  backfill_days-failed :
      (days : ℕ) (current : Date) (rates : List FxRate) (values : Values) (e : Failure)
      → provider.fetch_for_date current ≡ some values
      → ingest_snapshot py now (draw current) provider values current rates ≡ err e
      → backfill_days py now draw provider (suc days) current rates ≡ (err e, rates)
  unfolding backfill_days
  backfill_days-failed days current rates values e found failed =
      rw (found, failed, backfill_days) refl

  -- What a backfill that succeeds has done.
  abbrev Filled : List Date → List IngestResult → List FxRate → Type 0
  Filled dates results after =
      (map (λ r. r.rate_date) results ≡ dates)
      × All (λ d. rate_at usd d after ≡ some (pos 100000000)) dates

  backfill_days-suc-Filled :
      (days : ℕ) (current : Date) (rates : List FxRate) (results : List IngestResult)
      (after : List FxRate)
      → ((table : List FxRate) (rs : List IngestResult)
          → backfill_days py now draw provider days (suc current) table ≡ (ok rs, after)
          → Filled (answered days (suc current)) rs after)
      → backfill_days py now draw provider (suc days) current rates ≡ (ok results, after)
      → Filled (answered (suc days) current) results after
  backfill_days-suc-Filled days current rates results after rest h =
      elim (Option-cases (provider.fetch_for_date current)) [
        | inl silent ↦
            let (run, dates) = backfill_days-silent days current rates silent in
            rw (dates) (rest rates results (sym run ∙ h))
        | inr (values, found) ↦
            elim (Result-cases
              (ingest_snapshot py now (draw current) provider values current rates)) [
                | inl (e, failed) ↦
                    let h' =
                      sym (backfill_days-failed days current rates values e found failed) ∙ h in
                    absurd (ground arith)
                | inr ((result, table), done) ↦
                    let (later, last) =
                      backfill_days py now draw provider days (suc current) table in
                    let (run, dates) =
                      backfill_days-stored days current rates table values result found done in
                    let h' = sym run ∙ h in
                    let same : last ≡ after =
                      ap (λ (p : Result Failure (List IngestResult) × List FxRate). p.1) h' in
                    let (rs, ok_later, e) =
                      >>=-eq-ok later (λ rs. ok (result ∷ rs))
                        (ap (λ (p : Result Failure (List IngestResult) × List FxRate). p.0) h') in
                    let (days_of, ones) = rest table rs (cc (ok_later, same)) in
                    let dated =
                      ingest_snapshot-rate_date py now (draw current) provider values current rates
                        table result done in
                    let (one, _) =
                      ingest_snapshot-usd py now (draw current) provider values current rates table
                        result done in
                    let kept =
                      backfill_days-outside days (suc current) table usd current
                        (inl (omega arith)) in
                    rw (dates) (
                      ap (map (λ r. r.rate_date)) (sym (ok-injective e))
                          ∙ ap (λ d. d ∷ map (λ r. r.rate_date) rs) dated
                          ∙ ap (λ ds. current ∷ ds) days_of,
                      (ap (rate_at usd current) (sym same) ∙ kept ∙ one, ones),
                    )
              ]
      ]

  backfill_days-Filled :
      (days : ℕ) (current : Date) (rates : List FxRate) (results : List IngestResult)
      (after : List FxRate)
      → backfill_days py now draw provider days current rates ≡ (ok results, after)
      → Filled (answered days current) results after
  unfolding backfill_days answered
  backfill_days-Filled zero current rates results after h = (
    ap (map (λ r. r.rate_date))
        (sym (ok-injective (ap (λ (p : Result Failure (List IngestResult) × List FxRate). p.0) h))),
    tt,
  )
  backfill_days-Filled (suc days) current rates results after h =
      backfill_days-suc-Filled days current rates results after
        (λ table rs. backfill_days-Filled days (suc current) table rs after) h

  -- A backfill from `start` to `end` touches no rate of another date, however it ends. If it succeeds,
  -- its results are those of the days from start to end for which the provider has an answer, each
  -- once and in their order, and on each of these days the stored rate of USD is one.
  pub backfill_range-days :
      (start end : Date) (rates : List FxRate)
      → let (results, after) = backfill_range py now draw provider start end rates in
        ((code : String) (d : Date)
          → (d < start) ⊎ (end < d)
          → rate_at code d after ≡ rate_at code d rates)
        × ((rs : List IngestResult)
            → results ≡ ok rs
            → (map (λ r. r.rate_date) rs ≡ answered (suc end - start) start)
              × All
                  (λ d. rate_at usd d after ≡ some (pos 100000000))
                  (answered (suc end - start) start))
  unfolding backfill_range
  backfill_range-days start end rates = (
    λ code d out. backfill_days-outside (suc end - start) start rates code d (ground arith),
    λ rs h.
        let run = backfill_days py now draw provider (suc end - start) start rates in
        backfill_days-Filled (suc end - start) start rates rs run.1 (ap (λ r. (r, run.1)) h),
  )
