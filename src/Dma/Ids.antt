-- ===== src/Dma/Ids.antt =====
-- The ids of orders that sleep at the same time.
use nexus_trading.Base.{Floats, ℕ, suc, ◌≡◌, refl, ap, ◌∙◌, some, List, [], ◌∷◌, ◌++◌, find}
use mathlib.Core.List.{append_assoc}
use nexus_trading.Broker.Venues.{number}
use nexus_trading.Dma.Path.{
  Rates, ExchangeMember, MakerRebateTracker, Order, Ack, active_member, fall_asleep, submit_order,
  acknowledge,
}
use nexus_trading.Dma.Runs.{submits, wakes, World, step, run}

module _ {F : Floats} where
  -- A path at rest, with whatever members, rebates, counters and answers.
  abbrev pub at_rest :
      List (ℕ × ExchangeMember)
      → MakerRebateTracker F
      → ℕ
      → ℕ
      → List (List (Ack F) × F.Float)
      → List (Ack F)
      → World F
  at_rest members rebates submitted acked past today = record {
    path = record {
      members = members;
      rebates = rebates;
      submitted = submitted;
      acked = acked;
      sleepers = [];
    };
    past = past;
    today = today;
  }

  -- Two orders for venues where the firm is an active member, the second sent while the first still
  -- sleeps, and then woken in turn: both are acknowledged with the number of the second, so that on
  -- one venue they get the same order id.
  pub same_id :
      (R : Rates F) (members : List (ℕ × ExchangeMember)) (rebates : MakerRebateTracker F)
      (submitted acked : ℕ) (past : List (List (Ack F) × F.Float)) (today : List (Ack F))
      (o o' : Order F) (m m' : ExchangeMember)
      → active_member (find members (number o.venue)) ≡ some m
      → active_member (find members (number o'.venue)) ≡ some m'
      → let w = at_rest members rebates submitted acked past today in
        (a : Ack F) × (a' : Ack F) × ((run R
            (submits o ∷ submits o' ∷ wakes 0 ∷ wakes 0 ∷ [])
            w).today
          ≡ today ++ a ∷ a' ∷ [])
        × (a.order ≡ o)
        × (a'.order ≡ o')
        × (a.order_id ≡ (o.venue, suc (suc submitted)))
        × (a'.order_id ≡ (o'.venue, suc (suc submitted)))
  unfolding run step submit_order acknowledge
  same_id R members rebates submitted acked past today o o' m m' e e' =
      let w = at_rest members rebates submitted acked past today in
      let p = (fall_asleep (some m) o w.path).1 in
      let one : (submit_order o w.path).1 ≡ p = ap (λ f. (fall_asleep f o w.path).1) e in
      let two : (submit_order o' p).1 ≡ (fall_asleep (some m') o' p).1 =
        ap (λ f. (fall_asleep f o' p).1) e' in
      let s = ap (λ q. (submit_order o' q).1) one ∙ two in
      (
        _,
        _,
        ap (λ q. (step R (wakes 0) (step R (wakes 0) (record w { path = q }))).today) s
            ∙ append_assoc today _ _,
        refl,
        refl,
        refl,
        refl,
      )
