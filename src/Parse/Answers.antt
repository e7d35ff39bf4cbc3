-- ===== src/Parse/Answers.antt =====
-- What the answers of the two endpoints contain: app/api/v1/parse.py.
use Prim.Native.String.{count}
use mathlib.Core.Option.{some-injective}
use voice_spend.Prelude.{
  ◌≡◌, ◌⊎◌, inl, inr, refl, ap, sym, subst, ◌∙◌, String, true, false, ◌&&◌, Option, none, some,
  List, [], ◌∷◌, Result, ok, err, ◌>>=◌, arith, ltb, Bool-cases, Result-cases, Option-cases,
  or_else, ◌==◌, str_eq, ok-injective,
}
use voice_spend.Models.{User, Db}
use voice_spend.Http.{Failure, Env, DateTime, Python}
use voice_spend.Settings.{Settings}
use voice_spend.Metering.Signal.{EntitlementSignal, build_entitlement_signal}
use voice_spend.Extraction.{RawExtraction, ExtractionResult, LlmExtractor, at_least}
use voice_spend.Parse.{
  ParseOutcome, parse_ok, low_confidence, parse_failed, quota_exceeded, ExtractionOut,
  ParseResponse, Langfuse, known_category_names, normalize_currency_code_or_none, first_match,
  match_category, parse_spent_at, day_of, base_amount, build_extraction_out, status_of,
  respond_with, to_response, finish_extraction, run_extraction, quota_answer, outcome_of_call,
  parse_expense,
}

-- `name` is one of the names.
abbrev pub IsOneOf : String → List String → Type 0
IsOneOf name [] = ⊥
IsOneOf name (n ∷ ns) = (n ≡ name) ⊎ IsOneOf name ns

-- The code that a text is, in capitals and without the space around it, if that has three letters.
abbrev pub IsCodeOf : Python → Option String → Option String → Type 0
IsCodeOf py raw none =
    (value : String)
    → raw ≡ some value
    → ¬ ((count (py.upper (py.strip value)) ≡ 3) × (py.is_alpha (py.upper (py.strip value)) ≡ true))
IsCodeOf py raw (some code) =
    (value : String) × (raw ≡ some value)
    × (code ≡ py.upper (py.strip value))
    × (count code ≡ 3)
    × (py.is_alpha code ≡ true)

abbrev pub IsKnown : Option String → List String → Type 0
IsKnown none known = ⊥
IsKnown (some name) known = IsOneOf name known

module _ (py : Python) (db : Db) (user : User) where
  -- What an extraction in a response must be: the model's amount, payment method, merchant and
  -- confidence; the code that its currency is, if it is one; as base amount the conversion of the
  -- amount on the day of its time, to the user's base currency; and a category that is one of the
  -- system's where it is called known, and the model's where it is not.
  pub record IsExtractionOf (raw : RawExtraction) (out : ExtractionOut) : Type 0 where
    pub amount : out.amount_original ≡ raw.amount
    pub payment_method : out.payment_method ≡ raw.payment_method
    pub merchant : out.merchant ≡ raw.merchant
    pub confidence : out.confidence ≡ raw.confidence
    pub code : IsCodeOf py raw.currency out.currency_original
    pub base_currency : out.currency_base ≡ some user.base_currency
    pub base :
        base_amount py db.fx_rates out.amount_original out.currency_original user.base_currency
          (day_of py out.spent_at)
        ≡ ok out.amount_base
    pub known :
        out.category_is_known ≡ true → IsKnown out.category (known_category_names db.categories)
    pub unknown : out.category_is_known ≡ false → out.category ≡ raw.category

  -- The status and the extraction that the model's answer must get, by its confidence.
  abbrev pub IsConsistent :
      Settings → Option RawExtraction → ParseOutcome → Option ExtractionOut → Type 0
  IsConsistent settings none status extraction = (status ≡ parse_failed) × (extraction ≡ none)
  IsConsistent settings (some raw) status extraction =
      let reaches_ok = at_least raw.confidence settings.confidence_ok_threshold in
      let reaches_low = at_least raw.confidence settings.confidence_low_threshold in
      (reaches_ok ≡ true
        → (status ≡ parse_ok)
          × ((out : ExtractionOut) × (extraction ≡ some out) × IsExtractionOf raw out))
      × (reaches_ok ≡ false
          → reaches_low ≡ true
          → (status ≡ low_confidence)
            × ((out : ExtractionOut) × (extraction ≡ some out) × IsExtractionOf raw out))
      × (reaches_ok ≡ false → reaches_low ≡ false → (status ≡ parse_failed) × (extraction ≡ none))

  normalize-IsCodeOf :
      (raw : Option String) → IsCodeOf py raw (normalize_currency_code_or_none py raw)
  unfolding normalize_currency_code_or_none
  normalize-IsCodeOf none = λ value h. cc h
  normalize-IsCodeOf (some value) =
      let code = py.upper (py.strip value) in
      elim (Bool-cases (count code == 3 && py.is_alpha code)) [
        | inl good ↦ rw good (value, refl, refl, ground arith, ground arith)
        | inr bad ↦ rw bad λ v h.
            let e = some-injective _ _ h in
            λ (three, letters).
              let three' : count code ≡ 3 = ap (λ x. count (py.upper (py.strip x))) e ∙ three in
              let letters' : py.is_alpha code ≡ true =
                ap (λ x. py.is_alpha (py.upper (py.strip x))) e ∙ letters in
              ground arith
      ]

  first_match-IsOneOf :
      (raw : String) (names : List String) (name : String)
      → first_match py raw names ≡ some name
      → IsOneOf name names
  unfolding first_match
  first_match-IsOneOf raw [] name h = cc
  first_match-IsOneOf raw (n ∷ ns) name h =
      elim (Bool-cases (str_eq (py.casefold n) (py.casefold raw))) [
        | inl same ↦ inl (ground arith)
        | inr other ↦ inr (first_match-IsOneOf raw ns name (ground arith))
      ]

  match_category-IsKnown :
      (raw : Option String) (names : List String)
      → (match_category py raw names).1 ≡ true
      → IsKnown (match_category py raw names).0 names
  unfolding match_category
  match_category-IsKnown none names h = cc
  match_category-IsKnown (some raw) names h = elim (Option-cases (first_match py raw names)) [
    | inl missing ↦ absurd (ground arith)
    | inr (name, found) ↦ rw (match_category, found) (first_match-IsOneOf raw names name found)
  ]

  match_category-unknown :
      (raw : Option String) (names : List String)
      → (match_category py raw names).1 ≡ false
      → (match_category py raw names).0 ≡ raw
  unfolding match_category
  match_category-unknown none names h = refl
  match_category-unknown (some raw) names h = elim (Option-cases (first_match py raw names)) [
    | inl missing ↦ rw (match_category, missing) refl
    | inr (name, found) ↦ let h' = rw (match_category, found) at h in cc h'
  ]

  build_extraction_out-IsExtractionOf :
      (raw : RawExtraction) (reference_time : DateTime) (out : ExtractionOut)
      → build_extraction_out py raw db.fx_rates user
          (known_category_names db.categories)
          reference_time
        ≡ ok out
      → IsExtractionOf raw out
  unfolding build_extraction_out
  build_extraction_out-IsExtractionOf raw reference_time out h =
      let currency = normalize_currency_code_or_none py raw.currency in
      let spent_at = parse_spent_at py raw.spent_at reference_time in
      let category = match_category py raw.category (known_category_names db.categories) in
      elim (Result-cases
        (base_amount py db.fx_rates raw.amount currency user.base_currency (day_of py spent_at))) [
          | inl (e, raised) ↦ absurd (ground arith)
          | inr (amount, converted) ↦
              let made : ExtractionOut = record {
                amount_original = raw.amount;
                currency_original = currency;
                amount_base = amount;
                currency_base = some user.base_currency;
                category = category.0;
                category_is_known = category.1;
                payment_method = raw.payment_method;
                merchant = raw.merchant;
                spent_at = spent_at;
                confidence = raw.confidence;
              } in
              let same : made ≡ out = ground arith in
              subst (λ (o : ExtractionOut). IsExtractionOf raw o) same
                (record {
                  amount = refl;
                  payment_method = refl;
                  merchant = refl;
                  confidence = refl;
                  code = normalize-IsCodeOf raw.currency;
                  base_currency = refl;
                  base = converted;
                  known = match_category-IsKnown raw.category (known_category_names db.categories);
                  unknown =
                      match_category-unknown raw.category (known_category_names db.categories);
                })
        ]

  abbrev IsConsistentResult :
      Settings
      → Option RawExtraction
      → Result Failure (ParseOutcome × Option ExtractionOut)
      → Type 0
  IsConsistentResult settings raw (ok (status, extraction)) =
      IsConsistent settings raw status extraction
  IsConsistentResult settings raw (err e) = Unit

  built :
      (settings : Settings) (status : ParseOutcome) (raw : RawExtraction)
      (reference_time : DateTime)
      → ((out : ExtractionOut)
          → IsExtractionOf raw out
          → IsConsistent settings (some raw) status (some out))
      → IsConsistentResult settings (some raw) (
          build_extraction_out py raw db.fx_rates user
            (known_category_names db.categories)
            reference_time
          >>= λ out. ok (status, some out))
  built settings status raw reference_time make =
      let r =
        build_extraction_out py raw db.fx_rates user (known_category_names db.categories)
          reference_time in
      elim (Result-cases r) [
        | inl (e, raised) ↦ rw raised tt
        | inr (out, done) ↦
            rw done (make out (build_extraction_out-IsExtractionOf raw reference_time out done))
      ]

  to_response-IsConsistent :
      (settings : Settings) (outcome : ExtractionResult) (reference_time : DateTime)
      → IsConsistentResult settings outcome.raw (
          to_response py settings outcome db user
            (known_category_names db.categories)
            reference_time)
  unfolding to_response status_of respond_with
  to_response-IsConsistent settings outcome reference_time = elim (Option-cases outcome.raw) [
    | inl missing ↦ rw (missing, to_response) (refl, refl)
    | inr (raw, found) ↦
        elim (Bool-cases (at_least raw.confidence settings.confidence_ok_threshold)) [
          | inl high ↦
              rw (found, high, to_response, status_of)
                (built settings parse_ok raw reference_time
                  λ out p. (λ h. (refl, (out, refl, p)), λ h. cc (high, h), λ h. cc (high, h)))
          | inr low ↦
              elim (Bool-cases (at_least raw.confidence settings.confidence_low_threshold)) [
                | inl mid ↦
                    rw (found, low, mid, to_response, status_of)
                      (built settings low_confidence raw reference_time λ out p.
                        (λ h. cc (low, h), λ h k. (refl, (out, refl, p)), λ h k. cc (mid, k)))
                | inr none_met ↦
                    rw (found, low, none_met, to_response, status_of)
                      (λ h. cc h, λ h k. cc k, λ h k. (refl, refl))
              ]
        ]
  ]

  finish_extraction-IsConsistent :
      (settings : Settings) (text : String) (extractor : LlmExtractor) (outcome : ExtractionResult)
      (trace_id : Option String) (entitlement : EntitlementSignal) (raw : Option RawExtraction)
      (r : Result Failure (ParseOutcome × Option ExtractionOut)) (response : ParseResponse)
      → IsConsistentResult settings raw r
      → (finish_extraction py text extractor outcome trace_id entitlement r).result ≡ ok response
      → IsConsistent settings raw response.status response.extraction
        × (response.entitlement ≡ entitlement)
  unfolding finish_extraction
  finish_extraction-IsConsistent settings text extractor outcome trace_id entitlement raw (err e)
        response c h =
      cc h
  finish_extraction-IsConsistent settings text extractor outcome trace_id entitlement raw
        (ok (s, x)) response c h =
      let same = ok-injective h in
      (
        subst (λ (p : ParseResponse). IsConsistent settings raw p.status p.extraction) same c,
        ap (λ (p : ParseResponse). p.entitlement) (sym same),
      )

  -- What the model makes of a text, asked with the user's base currency, the system's categories and
  -- a time; none where the call raises.
  abbrev pub answer_of : LlmExtractor → String → DateTime → Option RawExtraction
  answer_of extractor text reference_time =
      (outcome_of_call py (
        extractor.extract text (record {
          base_currency = user.base_currency;
          known_categories = known_category_names db.categories;
          reference_time = reference_time;
        }))).raw

  pub run_extraction-IsConsistent :
      (settings : Settings) (langfuse : Option Langfuse) (text : String) (reference_time : DateTime)
      (extractor : LlmExtractor) (entitlement : EntitlementSignal) (response : ParseResponse)
      → (run_extraction py settings langfuse text user db reference_time extractor
          entitlement).result
        ≡ ok response
      → IsConsistent settings
          (answer_of extractor text reference_time)
          response.status
          response.extraction
        × (response.entitlement ≡ entitlement)
  unfolding run_extraction
  run_extraction-IsConsistent settings langfuse text reference_time extractor entitlement response
        h =
      finish_extraction-IsConsistent settings text extractor _ _ entitlement _ _ response
        (to_response-IsConsistent settings _ reference_time) h

  -- A response to a parse has the entitlement signal from before the call. Over quota, it has the
  -- status `quota_exceeded` and no extraction. Otherwise the model's answer decides: without one the
  -- parse has failed; with one it is `ok` if its confidence reaches the upper threshold,
  -- `low_confidence` if it reaches the lower one only, both with an extraction, and failed, with none,
  -- if it reaches neither. The extraction has the model's amount, payment method, merchant and
  -- confidence; a currency exactly if the model's is a code of three letters, and then that code in
  -- capitals; the conversion of the amount to the user's base currency by the rates as of its day;
  -- and one of the system's categories if it calls it known, and otherwise the model's.
  pub parse_expense-IsConsistent :
      (settings : Settings) (env : Env) (langfuse : Option Langfuse) (now : DateTime)
      (extractor : LlmExtractor) (text : String) (reference_time : Option DateTime)
      (response : ParseResponse)
      → (parse_expense py settings env langfuse now db user extractor text reference_time).result
        ≡ ok response
      → let entitlement = build_entitlement_signal settings.free_monthly_log_quota env db user in
        (response.entitlement ≡ entitlement)
        × (entitlement.over_quota ≡ true
            → (response.status ≡ quota_exceeded) × (response.extraction ≡ none))
        × (entitlement.over_quota ≡ false
            → IsConsistent settings
                (answer_of extractor text (or_else reference_time now))
                response.status
                response.extraction)
  unfolding parse_expense
  parse_expense-IsConsistent settings env langfuse now extractor text reference_time response h =
      let entitlement = build_entitlement_signal settings.free_monthly_log_quota env db user in
      elim (Bool-cases (ltb settings.parse_max_text_length (count text))) [
        | inl long ↦ absurd (ground arith)
        | inr short ↦ elim (Bool-cases entitlement.over_quota) [
          | inl over ↦
              let same : quota_answer py entitlement ≡ response = ground arith in
              (
                ap (λ (p : ParseResponse). p.entitlement) (sym same),
                λ e. (
                  ap (λ (p : ParseResponse). p.status) (sym same),
                  ap (λ (p : ParseResponse). p.extraction) (sym same),
                ),
                λ e. cc (over, e),
              )
          | inr under ↦
              let (graded, signal) =
                run_extraction-IsConsistent settings langfuse text (or_else reference_time now)
                  extractor entitlement response (ground arith) in
              (signal, λ e. cc (under, e), λ e. graded)
        ]
      ]
