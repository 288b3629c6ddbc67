-- ===== src/Base/Dicts.antt =====
-- A Python dict and a Python set over numbers, in insertion order.
use Prim.Native.Nat.{ℕ}
use mathlib.Core.Path.{◌≡◌, refl}
use mathlib.Core.Logic.{◌≢◌}
use mathlib.Core.Bool.{Bool, true, false}
use mathlib.Core.Option.{Option, none, some}
use mathlib.Core.List.{List, [], ◌∷◌}
use native.Mathlib.Omega.{arith}
use nexus_trading.Base.Tests.{◌==◌, if◌then◌else◌}

module _ {ℓ} {V : Type ℓ} where
  -- `d.get(key)`
  abbrev pub find : List (ℕ × V) → ℕ → Option V
  find [] key = none
  find ((k, v) ∷ rest) key = if k == key then some v else find rest key

  -- `d[key] = v`
  abbrev pub store : List (ℕ × V) → ℕ → V → List (ℕ × V)
  store [] key v = (key, v) ∷ []
  store ((k, u) ∷ rest) key v = if k == key then (k, v) ∷ rest else (k, u) ∷ store rest key v

  abbrev pub keys : List (ℕ × V) → List ℕ
  keys [] = []
  keys ((k, v) ∷ rest) = k ∷ keys rest

  abbrev pub values : List (ℕ × V) → List V
  values [] = []
  values ((k, v) ∷ rest) = v ∷ values rest

  -- `d.pop(key, None)`
  abbrev pub erase : List (ℕ × V) → ℕ → List (ℕ × V)
  erase [] key = []
  erase ((k, v) ∷ rest) key = if k == key then erase rest key else (k, v) ∷ erase rest key

  pub find-erase : (d : List (ℕ × V)) (key : ℕ) → find (erase d key) key ≡ none
  find-erase [] key = refl
  find-erase ((k, v) ∷ rest) key = ground (arith, find-erase rest key)

  pub find-erase_ne :
      (d : List (ℕ × V)) (key other : ℕ) → key ≢ other → find (erase d key) other ≡ find d other
  find-erase_ne [] key other h = refl
  find-erase_ne ((k, v) ∷ rest) key other h = ground (arith, find-erase_ne rest key other h)

  pub find-store : (d : List (ℕ × V)) (key : ℕ) (v : V) → find (store d key v) key ≡ some v
  find-store [] key v = ground arith
  find-store ((k, u) ∷ rest) key v = ground (arith, find-store rest key v)

  pub find-store_ne :
      (d : List (ℕ × V)) (key other : ℕ) (v : V)
      → key ≢ other
      → find (store d key v) other ≡ find d other
  find-store_ne [] key other v h = ground arith
  find-store_ne ((k, u) ∷ rest) key other v h = ground (arith, find-store_ne rest key other v h)

-- `key in s`
abbrev pub elem : ℕ → List ℕ → Bool
elem key [] = false
elem key (k ∷ rest) = if k == key then true else elem key rest

-- `s.add(key)`
abbrev pub add : List ℕ → ℕ → List ℕ
add s key = if elem key s then s else key ∷ s

-- `s.discard(key)`
abbrev pub discard : List ℕ → ℕ → List ℕ
discard [] key = []
discard (k ∷ rest) key = if k == key then discard rest key else k ∷ discard rest key

pub elem-add : (s : List ℕ) (key : ℕ) → elem key (add s key) ≡ true
elem-add s key = ground arith

pub elem-add_ne : (s : List ℕ) (key other : ℕ) → key ≢ other → elem other (add s key) ≡ elem other s
elem-add_ne s key other h = ground arith

pub elem-discard : (s : List ℕ) (key : ℕ) → elem key (discard s key) ≡ false
elem-discard [] key = refl
elem-discard (k ∷ rest) key = ground (arith, elem-discard rest key)

pub elem-discard_ne :
    (s : List ℕ) (key other : ℕ) → key ≢ other → elem other (discard s key) ≡ elem other s
elem-discard_ne [] key other h = refl
elem-discard_ne (k ∷ rest) key other h = ground (arith, elem-discard_ne rest key other h)
