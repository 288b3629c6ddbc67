-- ===== src/Supervisor/Recent.antt =====
-- Deques of the supervisor that are bounded, and the entries of a window of time in them.
use nexus_trading.Base.{
  ℕ, ◌+◌, ◌≡◌, ◌<◌, ap, inl, inr, true, List, [], ◌∷◌, ◌++◌, ltb, length, push_bounded, drop_first,
  length-append, Bool-cases, arith,
}
use mathlib.Core.List.{append_assoc}
use nexus_trading.Supervisor.Trades.{recent}

-- A list that ends in another.
pub record EndsIn (xs ys : List ℕ) : Type 0 where
  pub before : List ℕ
  pub split : xs ≡ before ++ ys

-- Dropping the first of a list that is too long leaves its last entries.
cut_front :
    (maxlen : ℕ) (before ys : List ℕ) (x : ℕ) (longer : List ℕ)
    → longer ≡ before ++ (ys ++ x ∷ [])
    → ltb maxlen (length longer) ≡ true
    → length ys < maxlen
    → EndsIn (drop_first longer) (ys ++ x ∷ [])
cut_front maxlen [] ys x longer e long h =
    let n : length longer ≡ length ys + 1 = rw e (length-append ys (x ∷ [])) in
    absurd (ground (arith, n, long, h))
cut_front maxlen (b ∷ bs) ys x longer e long h = record { before = bs; split = ap drop_first e }

pub push_bounded-EndsIn :
    (maxlen : ℕ) (xs ys : List ℕ) (x : ℕ)
    → EndsIn xs ys
    → length ys < maxlen
    → EndsIn (push_bounded maxlen xs x) (ys ++ x ∷ [])
unfolding push_bounded
push_bounded-EndsIn maxlen xs ys x e h =
    let whole : (b : List ℕ) → (b ++ ys) ++ x ∷ [] ≡ b ++ (ys ++ x ∷ []) =
      λ b. append_assoc b ys (x ∷ []) in
    elim (Bool-cases (ltb maxlen (length (xs ++ x ∷ [])))) [
      | inl long ↦
          rw long
            (cut_front maxlen e.before ys x (xs ++ x ∷ []) (rw e.split (whole e.before)) long h)
      | inr short ↦ rw short (record { before = e.before; split = rw e.split (whole e.before) })
    ]

pub length-recent :
    (now window : ℕ) (xs ys : List ℕ)
    → length (recent now window (xs ++ ys))
      ≡ length (recent now window xs) + length (recent now window ys)
length-recent now window [] ys = omega arith
length-recent now window (x ∷ xs) ys = ground (arith, length-recent now window xs ys)
