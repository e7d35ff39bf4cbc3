-- ===== src/Prelude/Dict.antt =====
-- Python's `dict` with UUID keys, in insertion order: assignment to a key that is present keeps
-- its place, and to a new one appends.
use Prim.Native.Nat.{ℕ}
use mathlib.Core.Path.{◌≡◌, refl}
use mathlib.Core.Bool.{Bool}
use mathlib.Core.List.{List, [], ◌∷◌, map}
use mathlib.Core.Option.{Option, none, some}
use native.Mathlib.Omega.{arith}
use voice_spend.Prelude.Tests.{if◌then◌else◌, ◌==◌, is_some}

abbrev pub Dict : Type 0 → Type 0
Dict V = List (ℕ × V)

module _ {V : Type 0} where
  -- d.get(k)
  unfoldable pub get : Dict V → ℕ → Option V
  get [] k = none
  get ((j, v) ∷ d) k = let rest = get d k in if j == k then some v else rest

  -- d[k] = v
  unfoldable pub put : Dict V → ℕ → V → Dict V
  put [] k v = (k, v) ∷ []
  put ((j, w) ∷ d) k v = let rest = put d k v in if j == k then (k, v) ∷ d else (j, w) ∷ rest

  -- k in d
  abbrev pub has : Dict V → ℕ → Bool
  has d k = is_some (get d k)

  abbrev pub keys : Dict V → List ℕ
  keys = map (λ e. e.0)

  abbrev pub values : Dict V → List V
  values = map (λ e. e.1)

  -- d.setdefault(k, v)
  unfoldable pub setdefault : Dict V → ℕ → V → Dict V
  setdefault d k v = if has d k then d else put d k v

  pub get-empty : (k : ℕ) → get [] k ≡ none
  unfolding get
  get-empty k = refl

  pub get-put :
      (d : Dict V) (k j : ℕ) (v : V) → get (put d k v) j ≡ (if k == j then some v else get d j)
  unfolding get put
  get-put [] k j v = refl
  get-put ((i, w) ∷ d) k j v = ground (arith, get-put d k j v)

  pub get-setdefault :
      (d : Dict V) (k j : ℕ) (v : V)
      → get (setdefault d k v) j ≡ (if has d j then get d j else if k == j then some v else none)
  unfolding setdefault
  get-setdefault d k j v = ground (arith, get-put d k j v)

pub ruleset dict_laws = (get-empty, get-put, get-setdefault)
