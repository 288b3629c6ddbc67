-- ===== src/Dma/Runs.antt =====
-- Orders that sleep and wake in any order, with resets of the day between.
use nexus_trading.Base.{Floats, ℕ, zero, suc, Option, none, some, List, [], ◌∷◌, ◌++◌, get_elem?}
use nexus_trading.Dma.Path.{
  Rates, ExchangeMember, daily_reset, Order, Sleeper, Ack, DmaOrderPath, new_path, submit_order,
  acknowledge,
}

module _ (F : Floats) where
  pub data Step : Type 0 where
    submits : Order F → Step
    wakes : ℕ → Step
    resets : Step

  -- The path with what it has answered: the ACKs of each day that was reset, with the rebate that
  -- its reset returned, and the ACKs of the present day, the newest last.
  pub record World : Type 0 where
    pub path : DmaOrderPath F
    pub past : List (List (Ack F) × F.Float)
    pub today : List (Ack F)

  unfoldable pub start : List (ℕ × ExchangeMember) → World
  start members = record { path = new_path F members; past = []; today = [] }

module _ {F : Floats} where
  abbrev pub without : ℕ → List (Sleeper F) → List (Sleeper F)
  without i [] = []
  without zero (s ∷ ss) = ss
  without (suc i) (s ∷ ss) = s ∷ without i ss

module _ {F : Floats} (R : Rates F) where
  abbrev pub wake : ℕ → Option (Sleeper F) → World F → World F
  wake i none w = w
  wake i (some s) w =
      let (ack, p) = acknowledge R s w.path in
      record {
        path = record p { sleepers = without i p.sleepers };
        past = w.past;
        today = w.today ++ ack ∷ [];
      }

  unfoldable pub step : Step F → World F → World F
  step (submits o) w = record w { path = (submit_order o w.path).1 }
  step (wakes i) w = wake i (get_elem? w.path.sleepers i) w
  step resets w =
      let (day, t) = daily_reset w.path.rebates in
      record {
        path = record w.path { rebates = t };
        past = w.past ++ (w.today, day) ∷ [];
        today = [];
      }

  unfoldable pub run : List (Step F) → World F → World F
  unfolding step
  run [] w = w
  run (x ∷ xs) w = run xs (step x w)
