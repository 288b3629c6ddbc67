-- ===== src/Base/Lists.antt =====
-- Lists measured and indexed by native numbers, under the library's names.
use Prim.Native.Nat.{ℕ, zero, suc, ◌+◌, ◌-◌, ◌<◌, ◌≤◌, min}
use mathlib.Core.Path.{◌≡◌, refl, ap, ◌∙◌}
use mathlib.Core.Logic.{◌≢◌, inl, inr}
use mathlib.Core.List.{List, [], ◌∷◌, ◌++◌, map}
use mathlib.Core.Option.{Option, none, some}
use native.Mathlib.Omega.{arith}
use nexus_trading.Base.Tests.{ltb, if◌then◌else◌, Bool-cases}

module _ {ℓ} {A : Type ℓ} where
  abbrev pub length : List A → ℕ
  length [] = 0
  length (x ∷ xs) = suc (length xs)

  abbrev pub get_elem? : List A → ℕ → Option A
  get_elem? [] i = none
  get_elem? (x ∷ xs) zero = some x
  get_elem? (x ∷ xs) (suc i) = get_elem? xs i

  -- A write out of bounds changes nothing.
  abbrev pub set : List A → ℕ → A → List A
  set [] i v = []
  set (x ∷ xs) zero v = v ∷ xs
  set (x ∷ xs) (suc i) v = x ∷ set xs i v

  pub length-append : (xs ys : List A) → length (xs ++ ys) ≡ length xs + length ys
  length-append [] ys = omega arith
  length-append (x ∷ xs) ys = omega (arith, length-append xs ys)

module _ {ℓ} {A : Type ℓ} where
  pub length-set : (xs : List A) (i : ℕ) (v : A) → length (set xs i v) ≡ length xs
  length-set [] i v = refl
  length-set (x ∷ xs) zero v = refl
  length-set (x ∷ xs) (suc i) v = ap suc (length-set xs i v)

  pub get_elem?-set_self :
      (xs : List A) (i : ℕ) (v : A) → i < length xs → get_elem? (set xs i v) i ≡ some v
  get_elem?-set_self [] i v h = elim h [ ]
  get_elem?-set_self (x ∷ xs) zero v h = refl
  get_elem?-set_self (x ∷ xs) (suc i) v h = get_elem?-set_self xs i v (omega arith)

  pub get_elem?-set_ne :
      (xs : List A) {i j : ℕ} (v : A) → i ≢ j → get_elem? (set xs i v) j ≡ get_elem? xs j
  get_elem?-set_ne [] v h = refl
  get_elem?-set_ne (x ∷ xs) {i = zero} {j = zero} v h = absurd (h refl)
  get_elem?-set_ne (x ∷ xs) {i = zero} {j = suc j} v h = refl
  get_elem?-set_ne (x ∷ xs) {i = suc i} {j = zero} v h = refl
  get_elem?-set_ne (x ∷ xs) {i = suc i} {j = suc j} v h = get_elem?-set_ne xs v (λ e. h (ap suc e))

module _ {ℓ} {A : Type ℓ} where
  abbrev pub get_or : List A → ℕ → A → A
  get_or [] i d = d
  get_or (x ∷ xs) zero d = x
  get_or (x ∷ xs) (suc i) d = get_or xs i d

  abbrev pub take : ℕ → List A → List A
  take zero xs = []
  take (suc n) [] = []
  take (suc n) (x ∷ xs) = x ∷ take n xs

  abbrev pub drop : ℕ → List A → List A
  drop zero xs = xs
  drop (suc n) [] = []
  drop (suc n) (x ∷ xs) = drop n xs

  abbrev pub replicate : ℕ → A → List A
  replicate zero a = []
  replicate (suc n) a = a ∷ replicate n a

  pub take-append-drop : (n : ℕ) (xs : List A) → take n xs ++ drop n xs ≡ xs
  take-append-drop zero xs = refl
  take-append-drop (suc n) [] = refl
  take-append-drop (suc n) (x ∷ xs) = rw (take-append-drop n xs)

  pub length-take : (n : ℕ) (xs : List A) → length (take n xs) ≡ min n (length xs)
  length-take zero xs = omega arith
  length-take (suc n) [] = omega arith
  length-take (suc n) (x ∷ xs) = omega (arith, length-take n xs)

  pub length-drop : (n : ℕ) (xs : List A) → length (drop n xs) ≡ length xs - n
  length-drop zero xs = omega arith
  length-drop (suc n) [] = omega arith
  length-drop (suc n) (x ∷ xs) = omega (arith, length-drop n xs)

  pub length-replicate : (n : ℕ) (a : A) → length (replicate n a) ≡ n
  length-replicate zero a = refl
  length-replicate (suc n) a = ap suc (length-replicate n a)

  pub length-map {κ} : {B : Type κ} (xs : List A) (f : A → B) → length (map f xs) ≡ length xs
  length-map [] f = refl
  length-map (x ∷ xs) f = ap suc (length-map xs f)

-- `deque.append` on a deque with a maxlen; also `append`, and `pop(0)` when the list is longer.
module _ {ℓ} {A : Type ℓ} where
  abbrev pub drop_first : List A → List A
  drop_first [] = []
  drop_first (x ∷ xs) = xs

  unfoldable pub push_bounded : ℕ → List A → A → List A
  push_bounded maxlen xs x =
      let longer = xs ++ x ∷ [] in if ltb maxlen (length longer) then drop_first longer else longer

  -- The last entries of a list.
  abbrev pub last : ℕ → List A → List A
  last n xs = drop (length xs - n) xs

  drop-append :
      (i : ℕ) (xs : List A) (x : A) → i ≤ length xs → drop i xs ++ x ∷ [] ≡ drop i (xs ++ x ∷ [])
  drop-append zero xs x h = refl
  drop-append (suc i) [] x h = absurd (ground (arith, h))
  drop-append (suc i) (y ∷ ys) x h = drop-append i ys x (omega arith)

  drop_first-drop : (i : ℕ) (xs : List A) → drop_first (drop i xs) ≡ drop (suc i) xs
  drop_first-drop zero [] = refl
  drop_first-drop zero (x ∷ xs) = refl
  drop_first-drop (suc i) [] = refl
  drop_first-drop (suc i) (x ∷ xs) = drop_first-drop i xs

  pub push_bounded-last :
      (n : ℕ) (xs : List A) (x : A) → push_bounded n (last n xs) x ≡ last n (xs ++ x ∷ [])
  unfolding push_bounded
  push_bounded-last n xs x =
      let k = length xs - n in
      let kept = drop-append k xs x (omega arith) in
      let all : length (xs ++ x ∷ []) ≡ length xs + 1 = length-append xs (x ∷ []) in
      let size : length (drop k xs ++ x ∷ []) ≡ length xs - k + 1 =
        length-append (drop k xs) (x ∷ []) ∙ ap (λ m. m + 1) (length-drop k xs) in
      elim (Bool-cases (ltb n (length (drop k xs ++ x ∷ [])))) [
        | inl long ↦
            let e : suc k ≡ length (xs ++ x ∷ []) - n = ground (arith, long, size, all) in
            rw long (
              ap drop_first kept
              ∙ drop_first-drop k (xs ++ x ∷ [])
              ∙ ap (λ i. drop i (xs ++ x ∷ [])) e)
        | inr short ↦
            let e : k ≡ length (xs ++ x ∷ []) - n = ground (arith, short, size, all) in
            rw short (kept ∙ ap (λ i. drop i (xs ++ x ∷ [])) e)
      ]

  drop_first-le : (xs : List A) → length (drop_first xs) ≤ length xs - 1
  drop_first-le [] = omega arith
  drop_first-le (x ∷ xs) = omega arith

  pub push_bounded-le :
      (n : ℕ) (xs : List A) (x : A) → length xs ≤ n → length (push_bounded n xs x) ≤ n
  unfolding push_bounded
  push_bounded-le n xs x h =
      let size : length (xs ++ x ∷ []) ≡ length xs + 1 = length-append xs (x ∷ []) in
      elim (Bool-cases (ltb n (length (xs ++ x ∷ [])))) [
        | inl long ↦ rw long (omega (arith, drop_first-le (xs ++ x ∷ []), size, h))
        | inr short ↦ rw short (ground (arith, short))
      ]
