-- ===== src/Broker/Accounts.antt =====
-- The books of a broker's credit line over any series of consume_credit and release_credit.
use nexus_trading.Base.{
  ℕ, ◌+◌, ◌≤◌, ◌≡◌, refl, ap, ◌∙◌, inl, inr, true, false, none, some, List, [], ◌∷◌, ◌==◌,
  if◌then◌else◌, arith, Bool-cases, Option-cases,
}
use nexus_trading.Broker.Credit.{PrimeBroker, value, CreditLine, consume, release}
use nexus_trading.Broker.Router.{Router, line_of, replace_line, consume_credit, release_credit}
use nexus_trading.Broker.Limits.{WithinLimit, consume-WithinLimit, release-WithinLimit}

-- The calls that change credit.
pub data Call : Type 0 where
  consumes releases : PrimeBroker → ℕ → Call

unfoldable pub step : Call → Router → Router
step (consumes b n) r = (consume_credit b n r).1
step (releases b n) r = release_credit b n r

unfoldable pub run : List Call → Router → Router
run [] r = r
run (c ∷ cs) r = run cs (step c r)

-- What the accepted requests of a run on one broker, and its releases, come to.
abbrev pub accepted_by : PrimeBroker → Call → Router → ℕ
accepted_by b (consumes c n) r =
    if value c == value b then (if (consume_credit c n r).0 then n else 0) else 0
accepted_by b (releases c n) r = 0

abbrev pub released_by : PrimeBroker → Call → ℕ
released_by b (consumes c n) = 0
released_by b (releases c n) = if value c == value b then n else 0

abbrev pub accepted : PrimeBroker → List Call → Router → ℕ
accepted b [] r = 0
accepted b (c ∷ cs) r = accepted_by b c r + accepted b cs (step c r)

abbrev pub released : PrimeBroker → List Call → ℕ
released b [] = 0
released b (c ∷ cs) = released_by b c + released b cs

pub line_of_same :
    (lines : List (PrimeBroker × CreditLine)) (c b : PrimeBroker)
    → (value c == value b) ≡ true
    → line_of lines c ≡ line_of lines b
line_of_same [] c b h = refl
line_of_same ((k, line) ∷ lines) c b h = ground (arith, line_of_same lines c b)

line_of-replace_line :
    (lines : List (PrimeBroker × CreditLine)) (c b : PrimeBroker) (old new : CreditLine)
    → (value c == value b) ≡ true
    → line_of lines c ≡ some old
    → line_of (replace_line lines c new) b ≡ some new
line_of-replace_line [] c b old new e h = ground arith
line_of-replace_line ((k, line) ∷ lines) c b old new e h =
    ground (arith, line_of-replace_line lines c b old new)

line_of-replace_line_ne :
    (lines : List (PrimeBroker × CreditLine)) (c b : PrimeBroker) (new : CreditLine)
    → (value c == value b) ≡ false
    → line_of (replace_line lines c new) b ≡ line_of lines b
line_of-replace_line_ne [] c b new h = refl
line_of-replace_line_ne ((k, line) ∷ lines) c b new h =
    ground (arith, line_of-replace_line_ne lines c b new)

-- One broker's line before and after a call.
record Kept (b : PrimeBroker) (line : CreditLine) (c : Call) (r : Router) : Type 0 where
  after : CreditLine
  there : line_of (step c r).credit_lines b ≡ some after
  same_limit : after.limit_usd ≡ line.limit_usd
  same_hard : after.hard_limit ≡ line.hard_limit
  in_limit : WithinLimit line → WithinLimit after
  upper : after.used_usd ≤ line.used_usd + accepted_by b c r
  lower : line.used_usd + accepted_by b c r ≤ after.used_usd + released_by b c

consume_bounds :
    (n : ℕ) (line : CreditLine)
    → let (took, line') = consume n line in
      (line'.limit_usd ≡ line.limit_usd)
      × (line'.hard_limit ≡ line.hard_limit)
      × (line'.used_usd ≡ line.used_usd + (if took then n else 0))
unfolding consume
consume_bounds n line = ground arith

-- The two calls on a broker that has a line, and on one that has none.
abbrev pub with_line : (c : PrimeBroker) (new : CreditLine) (r : Router) → Router
with_line c new r = record r { credit_lines = replace_line r.credit_lines c new }

pub consume_credit_found :
    (c : PrimeBroker) (n : ℕ) (line : CreditLine) (r : Router)
    → line_of r.credit_lines c ≡ some line
    → consume_credit c n r ≡ ((consume n line).0, with_line c (consume n line).1 r)
unfolding consume_credit
consume_credit_found c n line r found = rw (consume_credit, found) refl

consume_credit_missing :
    (c : PrimeBroker) (n : ℕ) (r : Router)
    → line_of r.credit_lines c ≡ none
    → consume_credit c n r ≡ (false, r)
unfolding consume_credit
consume_credit_missing c n r missing = rw (consume_credit, missing) refl

release_credit_found :
    (c : PrimeBroker) (n : ℕ) (line : CreditLine) (r : Router)
    → line_of r.credit_lines c ≡ some line
    → release_credit c n r ≡ with_line c (release n line) r
unfolding release_credit
release_credit_found c n line r found = rw (release_credit, found) refl

release_credit_missing :
    (c : PrimeBroker) (n : ℕ) (r : Router)
    → line_of r.credit_lines c ≡ none
    → release_credit c n r ≡ r
unfolding release_credit
release_credit_missing c n r missing = rw (release_credit, missing) refl

with_line_ne :
    (c b : PrimeBroker) (new : CreditLine) (r : Router)
    → (value c == value b) ≡ false
    → line_of (with_line c new r).credit_lines b ≡ line_of r.credit_lines b
with_line_ne c b new r other = line_of-replace_line_ne r.credit_lines c b new other

with_line_self :
    (c b : PrimeBroker) (old new : CreditLine) (r : Router)
    → (value c == value b) ≡ true
    → line_of r.credit_lines c ≡ some old
    → line_of (with_line c new r).credit_lines b ≡ some new
with_line_self c b old new r same found = line_of-replace_line r.credit_lines c b old new same found

step_elsewhere :
    (b c : PrimeBroker) (n : ℕ) (r : Router)
    → (value c == value b) ≡ false
    → (line_of (consume_credit c n r).1.credit_lines b ≡ line_of r.credit_lines b)
      × (line_of (release_credit c n r).credit_lines b ≡ line_of r.credit_lines b)
step_elsewhere b c n r other = elim (Option-cases (line_of r.credit_lines c)) [
  | inl missing ↦
      rw (consume_credit_missing c n r missing, release_credit_missing c n r missing) (refl, refl)
  | inr (l, found) ↦
      rw (consume_credit_found c n l r found, release_credit_found c n l r found)
        (with_line_ne c b (consume n l).1 r other, with_line_ne c b (release n l) r other)
]

consumes-Kept :
    (b c : PrimeBroker) (n : ℕ) (line : CreditLine) (r : Router)
    → line_of r.credit_lines b ≡ some line
    → Kept b line (consumes c n) r
unfolding step
consumes-Kept b c n line r here = elim (Bool-cases (value c == value b)) [
  | inl same ↦
      let found : line_of r.credit_lines c ≡ some line =
        line_of_same r.credit_lines c b same ∙ here in
      let took = consume_credit_found c n line r found in
      let (limit, hard, used) = consume_bounds n line in
      record {
        after = (consume n line).1;
        there =
            ap (λ x. line_of x.1.credit_lines b) took
            ∙ with_line_self c b line (consume n line).1 r same found;
        same_limit = limit;
        same_hard = hard;
        in_limit = consume-WithinLimit n line;
        upper = rw (same, took) (omega (arith, used));
        lower = rw (released_by, same, took) (omega (arith, used));
      }
  | inr other ↦ record {
    after = line;
    there = (step_elsewhere b c n r other).0 ∙ here;
    same_limit = refl;
    same_hard = refl;
    in_limit = λ h. h;
    upper = rw other (omega arith);
    lower = rw other (omega arith);
  }
]

releases-Kept :
    (b c : PrimeBroker) (n : ℕ) (line : CreditLine) (r : Router)
    → line_of r.credit_lines b ≡ some line
    → Kept b line (releases c n) r
unfolding step release
releases-Kept b c n line r here = elim (Bool-cases (value c == value b)) [
  | inl same ↦
      let found : line_of r.credit_lines c ≡ some line =
        line_of_same r.credit_lines c b same ∙ here in
      record {
        after = release n line;
        there =
            rw (release_credit_found c n line r found)
              (with_line_self c b line (release n line) r same found);
        same_limit = refl;
        same_hard = refl;
        in_limit = release-WithinLimit n line;
        upper = omega arith;
        lower = rw same (omega arith);
      }
  | inr other ↦ record {
    after = line;
    there = (step_elsewhere b c n r other).1 ∙ here;
    same_limit = refl;
    same_hard = refl;
    in_limit = λ h. h;
    upper = omega arith;
    lower = rw other (omega arith);
  }
]

kept :
    (c : Call) (b : PrimeBroker) (line : CreditLine) (r : Router)
    → line_of r.credit_lines b ≡ some line
    → Kept b line c r
kept (consumes c n) b line r here = consumes-Kept b c n line r here
kept (releases c n) b line r here = releases-Kept b c n line r here

-- Over any series of requests for credit and releases on any brokers, the line of a broker that
-- starts within its hard limit stays within it, its limits do not change, and the credit in use is
-- what was in use and what was accepted on that broker, less at most what was released on it.
pub run_accounts :
    (cs : List Call) (b : PrimeBroker) (line : CreditLine) (r : Router)
    → line_of r.credit_lines b ≡ some line
    → WithinLimit line
    → (after : CreditLine) × (line_of (run cs r).credit_lines b ≡ some after)
      × (after.limit_usd ≡ line.limit_usd)
      × (after.hard_limit ≡ line.hard_limit)
      × WithinLimit after
      × (after.used_usd ≤ line.used_usd + accepted b cs r)
      × (line.used_usd + accepted b cs r ≤ after.used_usd + released b cs)
unfolding run
run_accounts [] b line r here h = (line, here, refl, refl, h, omega arith, omega arith)
run_accounts (c ∷ cs) b line r here h =
    let k = kept c b line r here in
    let (after, there, limit, hard, within, upper, lower) =
      run_accounts cs b k.after (step c r) k.there (k.in_limit h) in
    let up = k.upper in
    let low = k.lower in
    (after, there, limit ∙ k.same_limit, hard ∙ k.same_hard, within, omega arith, omega arith)
