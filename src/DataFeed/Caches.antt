-- ===== src/DataFeed/Caches.antt =====
-- What the caches of the feed hold after any series of events.
use native.Mathlib.Decide.{ℕ_discrete}
use nexus_trading.Base.{
  Floats, ℕ, ◌+◌, ◌==◌, ◌≡◌, ◌≢◌, refl, sym, ap, ◌∙◌, Option, none, some, List, [], ◌∷◌, ◌++◌, map,
  find, find-store, find-store_ne, if◌then◌else◌, push_bounded, push_bounded-last, drop_first, last,
  ltb, Bool-cases, inl, inr, length, length-map, length-append, arith,
}
use nexus_trading.DataFeed.Ticks.{
  MarketTick, Quote, Bar, AlpacaDataFeed, Event, quotes, or_else, price, new_tick, on_quote,
  with_close, on_bar,
}

-- Of a tick, what its quote and its number make: a bar may replace the rest.
pub record Part (F : Floats) : Type 0 where
  pub bid : F.Float
  pub ask : F.Float
  pub sequence : ℕ

abbrev pub part : {F : Floats} → MarketTick F → Part F
part t = record { bid = t.bid; ask = t.ask; sequence = t.sequence }

abbrev pub map_option {ℓ κ} : {A : Type ℓ} {B : Type κ} → (A → B) → Option A → Option B
map_option f none = none
map_option f (some a) = some (f a)

abbrev pub newest {ℓ} : {A : Type ℓ} → List A → Option A
newest [] = none
newest (x ∷ []) = some x
newest (x ∷ y ∷ xs) = newest (y ∷ xs)

-- The quotes of one symbol, in the order of their arrival.
abbrev pub quotes_of : {F : Floats} → ℕ → List (Event F) → List (Quote F)
quotes_of s [] = []
quotes_of s (quotes now q ∷ es) = if q.symbol == s then q ∷ quotes_of s es else quotes_of s es
quotes_of s (_ ∷ es) = quotes_of s es

abbrev pub part_of : {F : Floats} → ℕ → Quote F → Part F
part_of {F = F} n q = record { bid = price F q.bid_price; ask = price F q.ask_price; sequence = n }

-- The quotes of one symbol, numbered.
abbrev pub numbered : {F : Floats} → ℕ → List (Quote F) → List (Part F)
numbered n [] = []
numbered n (q ∷ qs) = part_of n q ∷ numbered (n + 1) qs

module _ {ℓ κ} {A : Type ℓ} {B : Type κ} (f : A → B) where
  map-snoc : (xs : List A) (x : A) → map f (xs ++ x ∷ []) ≡ map f xs ++ f x ∷ []
  map-snoc [] x = refl
  map-snoc (y ∷ xs) x = ap (λ l. f y ∷ l) (map-snoc xs x)

  map-drop_first : (xs : List A) → map f (drop_first xs) ≡ drop_first (map f xs)
  map-drop_first [] = refl
  map-drop_first (x ∷ xs) = refl

  pub map-push_bounded :
      (n : ℕ) (xs : List A) (x : A) → map f (push_bounded n xs x) ≡ push_bounded n (map f xs) (f x)
  unfolding push_bounded
  map-push_bounded n xs x =
      let longer = xs ++ x ∷ [] in
      let same : ltb n (length (map f longer)) ≡ ltb n (length longer) =
        ap (ltb n) (length-map longer f) in
      rw (sym (map-snoc xs x), same)
        (elim (Bool-cases (ltb n (length longer))) [
          | inl long ↦ rw long (map-drop_first longer)
          | inr short ↦ rw short refl
        ])

newest-snoc {ℓ} : {A : Type ℓ} (xs : List A) (x : A) → newest (xs ++ x ∷ []) ≡ some x
newest-snoc [] x = refl
newest-snoc (y ∷ []) x = refl
newest-snoc (y ∷ z ∷ xs) x = newest-snoc (z ∷ xs) x

module _ {F : Floats} where
  numbered-snoc :
      (n : ℕ) (qs : List (Quote F)) (q : Quote F)
      → numbered n (qs ++ q ∷ []) ≡ numbered n qs ++ part_of (n + length qs) q ∷ []
  numbered-snoc n [] q = let e : n ≡ n + 0 = omega arith in ap (λ m. part_of m q ∷ []) e
  numbered-snoc n (p ∷ qs) q =
      let e : n + 1 + length qs ≡ n + length (p ∷ qs) = omega arith in
      ap (λ l. part_of n p ∷ l)
        (numbered-snoc (n + 1) qs q ∙ ap (λ m. numbered (n + 1) qs ++ part_of m q ∷ []) e)

  -- What the caches hold for one symbol, after its quotes `qs`.
  pub record Cached (s : ℕ) (qs : List (Quote F)) (f : AlpacaDataFeed F) : Type 0 where
    pub counter : or_else (find f.sequence s) 0 ≡ length qs
    pub history :
        map part (or_else (find f.tick_history s) []) ≡ last f.tick_cache_size (numbered 0 qs)
    pub latest : map_option part (find f.latest_ticks s) ≡ newest (numbered 0 qs)

  pub quote_own-Cached :
      (now : ℕ) (q : Quote F) (qs : List (Quote F)) (f : AlpacaDataFeed F)
      → Cached q.symbol qs f
      → Cached q.symbol (qs ++ q ∷ []) (on_quote now q f)
  unfolding on_quote
  quote_own-Cached now q qs f h =
      let tick : MarketTick F = new_tick now (length qs) (find f.latest_ticks q.symbol) q in
      let snoc : numbered 0 (qs ++ q ∷ []) ≡ numbered 0 qs ++ part tick ∷ [] =
        numbered-snoc 0 qs q ∙ ap (λ n. numbered 0 qs ++ part_of n q ∷ []) (omega arith) in
      rw (h.counter) (record {
        counter =
            ap (λ o. or_else o 0) (find-store f.sequence q.symbol _)
            ∙ sym (length-append qs (q ∷ []));
        history =
            ap (λ o. map part (or_else o [])) (find-store f.tick_history q.symbol _)
            ∙ map-push_bounded part f.tick_cache_size (or_else (find f.tick_history q.symbol) [])
                tick
            ∙ ap (λ l. push_bounded f.tick_cache_size l (part tick)) h.history
            ∙ push_bounded-last f.tick_cache_size (numbered 0 qs) (part tick)
            ∙ ap (last f.tick_cache_size) (sym snoc);
        latest =
            ap (map_option part) (find-store f.latest_ticks q.symbol tick)
            ∙ sym (newest-snoc (numbered 0 qs) (part tick))
            ∙ ap newest (sym snoc);
      })

  pub quote_other-Cached :
      (now : ℕ) (q : Quote F) (s : ℕ) (qs : List (Quote F)) (f : AlpacaDataFeed F)
      → q.symbol ≢ s
      → Cached s qs f
      → Cached s qs (on_quote now q f)
  unfolding on_quote
  quote_other-Cached now q s qs f ne h = record {
    counter = ap (λ o. or_else o 0) (find-store_ne f.sequence q.symbol s _ ne) ∙ h.counter;
    history =
        ap (λ o. map part (or_else o [])) (find-store_ne f.tick_history q.symbol s _ ne)
        ∙ h.history;
    latest = ap (map_option part) (find-store_ne f.latest_ticks q.symbol s _ ne) ∙ h.latest;
  }

  with_close-part :
      (o : Option (MarketTick F)) (b : Bar F) (d : List (ℕ × MarketTick F))
      → find d b.symbol ≡ o
      → map_option part (find (with_close o b d) b.symbol) ≡ map_option part o
  with_close-part none b d e = ap (map_option part) e
  with_close-part (some t) b d e = ap (map_option part) (find-store d b.symbol _)

  with_close_other :
      (o : Option (MarketTick F)) (b : Bar F) (d : List (ℕ × MarketTick F)) (s : ℕ)
      → b.symbol ≢ s
      → find (with_close o b d) s ≡ find d s
  with_close_other none b d s ne = refl
  with_close_other (some t) b d s ne = find-store_ne d b.symbol s _ ne

  pub bar-latest :
      (now : ℕ) (b : Bar F) (s : ℕ) (f : AlpacaDataFeed F)
      → map_option part (find (on_bar now b f).latest_ticks s)
        ≡ map_option part (find f.latest_ticks s)
  unfolding on_bar
  bar-latest now b s f = elim (ℕ_discrete b.symbol s) [
    | yes e ↦ rw (← e) (with_close-part (find f.latest_ticks b.symbol) b f.latest_ticks refl)
    | no ne ↦
        ap (map_option part) (with_close_other (find f.latest_ticks b.symbol) b f.latest_ticks s ne)
  ]
