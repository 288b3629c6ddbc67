-- ===== src/KernelBypass/Queue.antt =====
-- KernelBypassFeed against a queue that forgets what is further back than the capacity.
use native.Mathlib.Nat.{mod-lt, mod-le}
use native.Mathlib.Decide.{ℕ_discrete, dec_lt}
use nexus_trading.Base.{
  Floats, ℕ, zero, suc, ◌+◌, ◌^◌, ◌%◌, ◌<◌, ◌≤◌, ◌≡◌, refl, sym, ap, ◌∙◌, ◌⊎◌, inl, inr, Bool, true,
  false, Option, none, some, List, [], ◌∷◌, ◌++◌, length, length-append, get_elem?, leb, le→leb,
  Bool-cases, if◌then◌else◌, arith, Result,
}
use nexus_trading.Base.Bits.{mod_distinct}
use nexus_trading.KernelBypass.Feed.{
  Error, Tick, KernelBypassFeed, Received, frame_of, zero_frame, produce_tick, ring_capacity, look,
  decoded,
}
use nexus_trading.KernelBypass.Frames.{arrives, look-see, see_own, see_other}
use nexus_trading.KernelBypass.Window.{Holds, produce-Holds}

get_elem?-past {ℓ} : {A : Type ℓ} (xs : List A) (i : ℕ) → length xs ≤ i → get_elem? xs i ≡ none
get_elem?-past [] i h = refl
get_elem?-past (x ∷ xs) zero h = absurd (omega arith)
get_elem?-past (x ∷ xs) (suc i) h = get_elem?-past xs i (omega arith)

module _ (F : Floats) where
  -- The ticks that were produced, and how many were taken.
  pub record Queue : Type 0 where
    pub sent : List (ℕ × Tick F)
    pub taken : ℕ

module _ {F : Floats} where
  abbrev pub queue_found :
      (List ℕ → Bool) → Option (ℕ × Tick F) → Queue F → Option (Result Error (Received F)) × Queue F
  queue_found u none q = (none, q)
  queue_found u (some (now, tick)) q =
      (some (decoded u (arrives now tick)), record q { taken = q.taken + 1 })

  queue_found-sent :
      (u : List ℕ → Bool) (o : Option (ℕ × Tick F)) (q : Queue F)
      → (queue_found u o q).1.sent ≡ q.sent
  queue_found-sent u none q = refl
  queue_found-sent u (some c) q = refl

  abbrev pub queue_look : (List ℕ → Bool) → Queue F → Option (Result Error (Received F)) × Queue F
  queue_look u q =
      if leb (length q.sent) (q.taken + ring_capacity)
      then queue_found u (get_elem? q.sent q.taken) q
      else (none, q)

  abbrev pub queue_produce : ℕ → Tick F → Queue F → Queue F
  queue_produce now tick q = record q { sent = q.sent ++ (now, tick) ∷ [] }

  pub record Same (f : KernelBypassFeed F) (q : Queue F) : Type 0 where
    pub holds : Holds q.sent f
    pub read : f.read_seq ≡ q.taken
    pub behind : q.taken ≤ length q.sent

  apart :
      (sent : List (ℕ × Tick F)) (s read : ℕ)
      → s < length sent
      → length sent ≤ s + ring_capacity
      → s % ring_capacity ≡ read % ring_capacity
      → read < length sent
      → length sent ≤ read + ring_capacity
      → s ≡ read
  apart sent s read l w e l' w' = elim (ℕ_discrete s read) [
    | yes same ↦ same
    | no ne ↦ elim (dec_lt s read) [
      | yes lt ↦ absurd (mod_distinct ring_capacity s read lt (omega arith) e)
      | no ge ↦ absurd (mod_distinct ring_capacity read s (omega arith) (omega arith) (sym e))
    ]
  ]

  -- The queue has nothing for a reader that is at its end, or too far back.
  queue_look-none :
      (u : List ℕ → Bool) (q : Queue F)
      → (length q.sent ≤ q.taken) ⊎ (q.taken + ring_capacity < length q.sent)
      → queue_look u q ≡ (none, q)
  queue_look-none u q (inl past) =
      rw
        (
          le→leb (length q.sent) (q.taken + ring_capacity) (omega arith),
          get_elem?-past q.sent q.taken past,
        )
        refl
  queue_look-none u q (inr far) =
      let out : leb (length q.sent) (q.taken + ring_capacity) ≡ false = ground arith in rw out refl

  abbrev pub Answers : (u : List ℕ → Bool) → KernelBypassFeed F → Queue F → Type 0
  Answers u f q = ((look u f).0 ≡ (queue_look u q).0) × Same (look u f).1 (queue_look u q).1

  nothing-Answers :
      (u : List ℕ → Bool) (f : KernelBypassFeed F) (q : Queue F)
      → Same f q
      → look u f ≡ (none, f)
      → (length q.sent ≤ q.taken) ⊎ (q.taken + ring_capacity < length q.sent)
      → Answers u f q
  nothing-Answers u f q h e out = rw (e, queue_look-none u q out) (refl, h)

  pub look-Answers :
      (u : List ℕ → Bool) (f : KernelBypassFeed F) (q : Queue F)
      → length q.sent ≤ 2 ^ 64
      → Same f q
      → Answers u f q
  look-Answers u f q fits h =
      elim (h.holds.held (f.read_seq % ring_capacity) (mod-lt f.read_seq (omega arith))) [
        | inl (zeros, below) ↦
            nothing-Answers u f q h (look-see u f (zero_frame F) zeros)
              (inl (omega (arith, h.read, h.behind, mod-le f.read_seq ring_capacity)))
        | inr (s, now, tick, at, is, below, recent, here) ↦ elim (ℕ_discrete f.read_seq s) [
          | yes own ↦
              let q_own : q.taken ≡ s = sym h.read ∙ own in
              let within : leb (length q.sent) (q.taken + ring_capacity) ≡ true =
                le→leb _ _ (omega arith) in
              let found : get_elem? q.sent q.taken ≡ some (now, tick) =
                ap (get_elem? q.sent) q_own ∙ at in
              let seen =
                look-see u f (frame_of f.read_seq now tick)
                  (is ∙ ap (λ n. frame_of n now tick) (sym own))
                ∙ see_own u f now tick (omega arith) in
              rw (seen, within, found)
                (
                  refl,
                  record {
                    holds = record { counted = h.holds.counted; held = h.holds.held };
                    read = ap (λ n. n + 1) h.read;
                    behind = omega arith;
                  },
                )
          | no ne ↦
              nothing-Answers u f q h
                (look-see u f (frame_of s now tick) is ∙ see_other u f s now tick ne (omega arith))
                (elim (dec_lt (q.taken + ring_capacity) (length q.sent)) [
                  | yes far ↦ inr far
                  | no near ↦ elim (dec_lt q.taken (length q.sent)) [
                    | yes more ↦ absurd (
                        ne (
                          h.read
                          ∙ sym (
                              apart q.sent s q.taken below recent
                                (here ∙ ap (λ n. n % ring_capacity) h.read) more (omega arith))))
                    | no past ↦ inl (omega arith)
                  ]
                ])
        ]
      ]

  pub produce-Same :
      (now : ℕ) (tick : Tick F) (f : KernelBypassFeed F) (q : Queue F)
      → Same f q
      → Same (produce_tick now tick f) (queue_produce now tick q)
  unfolding produce_tick
  produce-Same now tick f q h = record {
    holds = produce-Holds q.sent now tick f h.holds;
    read = h.read;
    behind = omega (arith, h.behind, length-append q.sent ((now, tick) ∷ []));
  }

  pub queue_look-sent : (u : List ℕ → Bool) (q : Queue F) → (queue_look u q).1.sent ≡ q.sent
  queue_look-sent u q = elim (Bool-cases (leb (length q.sent) (q.taken + ring_capacity))) [
    | inl within ↦ rw within (queue_found-sent u (get_elem? q.sent q.taken) q)
    | inr far ↦ rw far refl
  ]
