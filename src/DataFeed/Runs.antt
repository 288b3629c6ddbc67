-- ===== src/DataFeed/Runs.antt =====
-- The caches of the feed through any series of events.
use native.Mathlib.Decide.{ℕ_discrete}
use mathlib.Core.List.{append-nil, append_assoc}
use nexus_trading.Base.{
  ==_iff, subst, drop, Floats, ℕ, zero, suc, ◌-◌, ◌==◌, ◌≡◌, refl, sym, ap, ◌∙◌, false, List, [],
  ◌∷◌, ◌++◌, map, if◌then◌else◌, last, length, length-map, arith,
}
use nexus_trading.DataFeed.Ticks.{
  MarketTick, Quote, Bar, AlpacaDataFeed, Event, quotes, bars, subscribes, unsubscribes,
  adds_tick_handler, adds_bar_handler, new_feed, on_quote, on_bar, from_end, get_latest_tick,
  get_tick_history, subscribe, unsubscribe, step, run,
}
use nexus_trading.DataFeed.Caches.{
  part, map_option, newest, quotes_of, numbered, Cached, quote_own-Cached, quote_other-Cached,
  bar-latest,
}

drop-nil {ℓ} : {A : Type ℓ} (n : ℕ) → drop {A = A} n [] ≡ []
drop-nil zero = refl
drop-nil (suc n) = refl

module _ {F : Floats} where
  bar-Cached :
      (now : ℕ) (b : Bar F) (s : ℕ) (qs : List (Quote F)) (f : AlpacaDataFeed F)
      → Cached s qs f
      → Cached s qs (on_bar now b f)
  unfolding on_bar
  bar-Cached now b s qs f h = record {
    counter = h.counter;
    history = h.history;
    latest = bar-latest now b s f ∙ h.latest;
  }

  subscribe-Cached :
      (upper : ℕ → ℕ) (ss : List ℕ) (s : ℕ) (qs : List (Quote F)) (f : AlpacaDataFeed F)
      → Cached s qs f
      → Cached s qs (subscribe upper ss f)
  unfolding subscribe
  subscribe-Cached upper [] s qs f h = h
  subscribe-Cached upper (x ∷ ss) s qs f h =
      subscribe-Cached upper ss s qs _
        (record { counter = h.counter; history = h.history; latest = h.latest })

  unsubscribe-Cached :
      (upper : ℕ → ℕ) (ss : List ℕ) (s : ℕ) (qs : List (Quote F)) (f : AlpacaDataFeed F)
      → Cached s qs f
      → Cached s qs (unsubscribe upper ss f)
  unfolding unsubscribe
  unsubscribe-Cached upper [] s qs f h = h
  unsubscribe-Cached upper (x ∷ ss) s qs f h =
      unsubscribe-Cached upper ss s qs _
        (record { counter = h.counter; history = h.history; latest = h.latest })

  quote-Cached :
      (now : ℕ) (q : Quote F) (s : ℕ) (qs : List (Quote F)) (f : AlpacaDataFeed F)
      → Cached s qs f
      → Cached s (qs ++ (if q.symbol == s then q ∷ [] else [])) (on_quote now q f)
  quote-Cached now q s qs f h = elim (ℕ_discrete q.symbol s) [
    | yes e ↦ rw ((==_iff q.symbol s).1 e) (
        subst (λ x. Cached x (qs ++ q ∷ []) (on_quote now q f)) e
          (quote_own-Cached now q qs f (subst (λ x. Cached x qs f) (sym e) h)))
    | no ne ↦
        let apart : (q.symbol == s) ≡ false = ground arith in
        rw (apart, append-nil qs) (quote_other-Cached now q s qs f ne h)
  ]

  step-Cached :
      (upper : ℕ → ℕ) (e : Event F) (s : ℕ) (qs : List (Quote F)) (f : AlpacaDataFeed F)
      → Cached s qs f
      → Cached s (qs ++ quotes_of s (e ∷ [])) (step upper e f)
  unfolding step
  step-Cached upper (quotes now q) s qs f h = quote-Cached now q s qs f h
  step-Cached upper (bars now b) s qs f h = rw (append-nil qs) (bar-Cached now b s qs f h)
  step-Cached upper (subscribes ss) s qs f h =
      rw (append-nil qs) (subscribe-Cached upper ss s qs f h)
  step-Cached upper (unsubscribes ss) s qs f h =
      rw (append-nil qs) (unsubscribe-Cached upper ss s qs f h)
  step-Cached upper (adds_tick_handler k) s qs f h =
      rw (append-nil qs) (record { counter = h.counter; history = h.history; latest = h.latest })
  step-Cached upper (adds_bar_handler k) s qs f h =
      rw (append-nil qs) (record { counter = h.counter; history = h.history; latest = h.latest })

  quotes_of-cons :
      (s : ℕ) (e : Event F) (es : List (Event F))
      → quotes_of s (e ∷ es) ≡ quotes_of s (e ∷ []) ++ quotes_of s es
  quotes_of-cons s (quotes now q) es = ground arith
  quotes_of-cons s (bars now b) es = refl
  quotes_of-cons s (subscribes ss) es = refl
  quotes_of-cons s (unsubscribes ss) es = refl
  quotes_of-cons s (adds_tick_handler k) es = refl
  quotes_of-cons s (adds_bar_handler k) es = refl

  pub run-Cached :
      (upper : ℕ → ℕ) (es : List (Event F)) (s : ℕ) (qs : List (Quote F)) (f : AlpacaDataFeed F)
      → Cached s qs f
      → Cached s (qs ++ quotes_of s es) (run upper es f)
  unfolding run
  run-Cached upper [] s qs f h = rw (append-nil qs) h
  run-Cached upper (e ∷ es) s qs f h =
      let before = qs ++ quotes_of s (e ∷ []) in
      let all : qs ++ quotes_of s (e ∷ es) ≡ before ++ quotes_of s es =
        ap (λ l. qs ++ l) (quotes_of-cons s e es)
        ∙ sym (append_assoc qs (quotes_of s (e ∷ [])) (quotes_of s es)) in
      subst (λ l. Cached s l (run upper es (step upper e f))) (sym all)
        (run-Cached upper es s before (step upper e f) (step-Cached upper e s qs f h))

  pub new_feed-Cached : (size s : ℕ) → Cached s [] (new_feed F size)
  unfolding new_feed
  new_feed-Cached size s = record {
    counter = refl;
    history = sym (drop-nil (0 - size));
    latest = refl;
  }

  subscribe-size :
      (upper : ℕ → ℕ) (ss : List ℕ) (f : AlpacaDataFeed F)
      → (subscribe upper ss f).tick_cache_size ≡ f.tick_cache_size
  unfolding subscribe
  subscribe-size upper [] f = refl
  subscribe-size upper (x ∷ ss) f = subscribe-size upper ss _

  unsubscribe-size :
      (upper : ℕ → ℕ) (ss : List ℕ) (f : AlpacaDataFeed F)
      → (unsubscribe upper ss f).tick_cache_size ≡ f.tick_cache_size
  unfolding unsubscribe
  unsubscribe-size upper [] f = refl
  unsubscribe-size upper (x ∷ ss) f = unsubscribe-size upper ss _

  step-size :
      (upper : ℕ → ℕ) (e : Event F) (f : AlpacaDataFeed F)
      → (step upper e f).tick_cache_size ≡ f.tick_cache_size
  unfolding step on_quote on_bar
  step-size upper (quotes now q) f = refl
  step-size upper (bars now b) f = refl
  step-size upper (subscribes ss) f = subscribe-size upper ss f
  step-size upper (unsubscribes ss) f = unsubscribe-size upper ss f
  step-size upper (adds_tick_handler k) f = refl
  step-size upper (adds_bar_handler k) f = refl

  run-size :
      (upper : ℕ → ℕ) (es : List (Event F)) (f : AlpacaDataFeed F)
      → (run upper es f).tick_cache_size ≡ f.tick_cache_size
  unfolding run
  run-size upper [] f = refl
  run-size upper (e ∷ es) f = run-size upper es (step upper e f) ∙ step-size upper e f

  map-drop : (n : ℕ) (xs : List (MarketTick F)) → map part (drop n xs) ≡ drop n (map part xs)
  map-drop zero xs = refl
  map-drop (suc n) [] = refl
  map-drop (suc n) (x ∷ xs) = map-drop n xs

  map-from_end :
      (n : ℕ) (xs : List (MarketTick F)) → map part (from_end n xs) ≡ from_end n (map part xs)
  map-from_end zero xs = refl
  map-from_end (suc n) xs =
      map-drop (length xs - suc n) xs
      ∙ ap (λ k. drop (k - suc n) (map part xs)) (sym (length-map xs part))

  -- After any series of quotes, bars and calls, for every symbol, written as `upper` writes it: the
  -- latest tick has the bid and ask of the symbol's last quote, with a missing price as 0, and the
  -- history has those of its last `size` quotes in their order, or its last `n` entries for an `n`
  -- other than 0, and the whole history for 0. The ticks are numbered by the symbol's quotes from 0
  -- on, without a gap.
  pub caches_lem :
      (upper : ℕ → ℕ) (size : ℕ) (es : List (Event F)) (s n : ℕ)
      → upper s ≡ s
      → let f = run upper es (new_feed F size) in
        let ticks = numbered 0 (quotes_of s es) in
        (map_option part (get_latest_tick upper s f) ≡ newest ticks)
        × (map part (get_tick_history upper s n f) ≡ from_end n (last size ticks))
  unfolding get_latest_tick get_tick_history new_feed
  caches_lem upper size es s n e =
      let h = run-Cached upper es s [] (new_feed F size) (new_feed-Cached size s) in
      rw e (
        h.latest,
        map-from_end n _
            ∙ ap (from_end n) (
                h.history
                ∙ ap (λ k. last k (numbered 0 (quotes_of s es)))
                    (run-size upper es (new_feed F size))),
      )
