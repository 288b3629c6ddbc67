-- ===== src/KernelBypass/Adapter.antt =====
-- KernelBypassAdapter: the loop of `run` and `stop`, over any source of ticks. A handler
-- has a number and the ticks for which it raises.
use nexus_trading.Base.{
  ℕ, Bool, true, false, Option, none, some, List, [], ◌∷◌, ◌++◌, Result, ok, err, if◌then◌else◌,
}
use nexus_trading.KernelBypass.Feed.{Error}

-- Where `run` stands: in a `poll`, at its end, or left by an error, of a handler or of `poll`.
pub data Phase : Type 0 where
  polling ended handler_raised : Phase
  raised : Error → Phase

pub record Handler (R : Type 0) : Type 0 where
  pub number : ℕ
  pub fails : R → Bool

pub record KernelBypassAdapter (S R : Type 0) : Type 0 where
  pub feed : S
  pub running : Bool
  pub phase : Phase
  pub delivered : List (ℕ × R)

-- A tick is produced, a turn of the loop in `poll` is taken, its deadline passes, `stop` is called.
pub data Event (T : Type 0) : Type 0 where
  produces : ℕ → T → Event T
  looks : Event T
  expires : Event T
  stops : Event T

-- The test of the loop in `run`.
abbrev pub again : Bool → Phase
again true = polling
again false = ended

-- The calls of the loop over the handlers, and whether they all return.
abbrev pub called : {R : Type 0} → List (Handler R) → R → List (ℕ × R)
called [] r = []
called (h ∷ hs) r = (h.number, r) ∷ (if h.fails r then [] else called hs r)

abbrev pub all_return : {R : Type 0} → List (Handler R) → R → Bool
all_return [] r = true
all_return (h ∷ hs) r = if h.fails r then false else all_return hs r

abbrev pub after_handlers : Bool → Bool → Phase
after_handlers true running = again running
after_handlers false running = handler_raised

module _ {S R : Type 0} where
  unfoldable pub start : S → KernelBypassAdapter S R
  start feed = record { feed = feed; running = true; phase = polling; delivered = [] }

  abbrev pub after_look :
      List (Handler R)
      → Option (Result Error R)
      → S
      → KernelBypassAdapter S R
      → KernelBypassAdapter S R
  after_look handlers none f a = record a { feed = f }
  after_look handlers (some (ok r)) f a = record a {
    feed = f;
    delivered = a.delivered ++ called handlers r;
    phase = after_handlers (all_return handlers r) a.running;
  }
  after_look handlers (some (err e)) f a = record a { feed = f; phase = raised e }

  abbrev pub in_poll :
      Phase → KernelBypassAdapter S R → KernelBypassAdapter S R → KernelBypassAdapter S R
  in_poll polling a b = a
  in_poll ended a b = b
  in_poll handler_raised a b = b
  in_poll (raised e) a b = b

module _ {S T R : Type 0} where
  unfoldable pub step :
      (S → Option (Result Error R) × S)
      → (ℕ → T → S → S)
      → List (Handler R)
      → Event T
      → KernelBypassAdapter S R
      → KernelBypassAdapter S R
  step look produce handlers (produces now t) a = record a { feed = produce now t a.feed }
  step look produce handlers looks a =
      in_poll a.phase (after_look handlers (look a.feed).0 (look a.feed).1 a) a
  step look produce handlers expires a = in_poll a.phase (record a { phase = again a.running }) a
  step look produce handlers stops a = record a { running = false }

  unfoldable pub run :
      (S → Option (Result Error R) × S)
      → (ℕ → T → S → S)
      → List (Handler R)
      → List (Event T)
      → KernelBypassAdapter S R
      → KernelBypassAdapter S R
  run look produce handlers [] a = a
  run look produce handlers (e ∷ es) a =
      run look produce handlers es (step look produce handlers e a)
