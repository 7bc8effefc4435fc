-- ===== src/Payload/Mixed/Draw.antt =====
-- payload/mixed_payload.go: `NewMixedPayloadProvider` and `selectProvider` together.
use chain_stresser.Common.{
  ℕ, zero, suc, ◌+◌, ◌-◌, ◌<◌, ◌≡◌, refl, true, Option, none, some, List, [], ◌∷◌, ◌++◌, Result, ok,
  err, ◌>>=◌, length, length-append, length-map, get_elem?, arith, All, Bool-cases, inl, inr,
}
use chain_stresser.Common.Float.{Floats}
use chain_stresser.Payload.Mixed.{
  Kind, kinds, MixedError, sum_f, normalize_frequencies, MixedPayloadProvider, add_section,
  add_sections, finish, new_mixed_payload_provider, select_from, or_last, select_provider,
}

module _ (fl : Floats) {P : Type 0} (frequency : Kind → Option fl.Float)
    (create : Kind → Option P) where
  open fl use {Float, zero_f, ltb_f, leb_f, eqb_f, add_f}

  -- A provider that a section with a frequency above 0 has made.
  abbrev pub IsConfigured : P → Type 0
  IsConfigured p =
      (k : Kind) × (f : Float) × (frequency k ≡ some f)
      × (ltb_f zero_f f ≡ true)
      × (create k ≡ some p)

  record Invariant (s : List P × List Float) : Type 0 where
    same_length : length s.0 ≡ length s.1
    configured : All IsConfigured s.0

  All-snoc :
      (ps : List P) (p : P) → All IsConfigured ps → IsConfigured p → All IsConfigured (ps ++ p ∷ [])
  All-snoc [] p h hp = (hp, tt)
  All-snoc (q ∷ ps) p (hq, h) hp = (hq, All-snoc ps p h hp)

  -- A result that is not an error satisfies the predicate.
  abbrev Holds : {A : Type 0} → (A → Type 0) → Result MixedError A → Type 0
  Holds Q (err e) = Unit
  Holds Q (ok a) = Q a

  section-Invariant :
      (k : Kind) (of : Option Float) (op : Option P) (s : List P × List Float)
      → frequency k ≡ of
      → create k ≡ op
      → Invariant s
      → Holds Invariant (add_section fl k of op s)
  section-Invariant k none op s ef ec inv = inv
  section-Invariant k (some f) none s ef ec inv = elim (Bool-cases (ltb_f zero_f f)) [
    | inl on ↦ rw on tt
    | inr off ↦ rw off inv
  ]
  section-Invariant k (some f) (some p) s ef ec inv = elim (Bool-cases (ltb_f zero_f f)) [
    | inl on ↦ rw on (record {
      same_length =
          omega (arith, length-append s.0 (p ∷ []), length-append s.1 (f ∷ []), inv.same_length);
      configured = All-snoc s.0 p inv.configured (k, f, ef, on, ec);
    })
    | inr off ↦ rw off inv
  ]

  Holds-bind :
      {A B : Type 0} (Q : A → Type 0) (R : B → Type 0) (m : Result MixedError A)
      (g : A → Result MixedError B)
      → Holds Q m
      → ((a : A) → Q a → Holds R (g a))
      → Holds R (m >>= g)
  Holds-bind Q R (err e) g h k = tt
  Holds-bind Q R (ok a) g h k = k a h

  sections-Invariant :
      (ks : List Kind) (s : List P × List Float)
      → Invariant s
      → Holds Invariant (add_sections fl frequency create ks s)
  unfolding add_sections
  sections-Invariant [] s inv = inv
  sections-Invariant (k ∷ ks) s inv =
      Holds-bind Invariant Invariant (add_section fl k (frequency k) (create k) s)
        (λ t. add_sections fl frequency create ks t)
        (section-Invariant k (frequency k) (create k) s refl refl inv)
        (λ t h. sections-Invariant ks t h)

  -- At least one provider, no more frequencies than providers, and each provider configured.
  pub record IsReady (m : MixedPayloadProvider Float P) : Type 0 where
    pub some_provider : 0 < length m.providers
    pub same_length : length m.frequencies ≡ length m.providers
    pub all_configured : All IsConfigured m.providers

  normalized-length : (fs : List Float) → length (normalize_frequencies fl fs) ≡ length fs
  unfolding normalize_frequencies
  normalized-length fs = ground (arith, length-map (λ f. fl.div_f f (sum_f fl zero_f fs)) fs)

  finish-IsReady : (s : List P × List Float) → Invariant s → Holds IsReady (finish fl s)
  finish-IsReady ([], fs) inv = tt
  finish-IsReady (p ∷ ps, fs) inv = record {
    some_provider = omega arith;
    same_length = omega (arith, normalized-length fs, inv.same_length);
    all_configured = inv.configured;
  }

  new-IsReady : Holds IsReady (new_mixed_payload_provider fl frequency create)
  unfolding new_mixed_payload_provider
  new-IsReady =
      Holds-bind Invariant IsReady (add_sections fl frequency create kinds ([], [])) (finish fl)
        (sections-Invariant kinds ([], []) (record { same_length = refl; configured = tt }))
        finish-IsReady

  select_from-lt :
      (r c : Float) (i : ℕ) (fs : List Float) (j : ℕ)
      → select_from fl r c i fs ≡ some j
      → j < i + length fs
  unfolding select_from
  select_from-lt r c i [] j e = absurd (cc)
  select_from-lt r c i (f ∷ fs) j e = ground (arith, select_from-lt r (add_f c f) (suc i) fs j)

  element :
      (ps : List P) (i : ℕ)
      → i < length ps
      → All IsConfigured ps
      → (p : P) × (get_elem? ps i ≡ some p) × IsConfigured p
  element [] i h all = elim h [ ]
  element (p ∷ ps) zero h all = (p, refl, all.0)
  element (p ∷ ps) (suc i) h all = element ps i (omega arith) all.1

  or_last-IsConfigured :
      (m : MixedPayloadProvider Float P) (o : Option ℕ)
      → IsReady m
      → ((j : ℕ) → o ≡ some j → j < length m.providers)
      → (p : P) × (or_last fl m.providers o ≡ some p) × IsConfigured p
  or_last-IsConfigured m none ready below =
      element m.providers (length m.providers - 1) (omega (arith, ready.some_provider))
        ready.all_configured
  or_last-IsConfigured m (some j) ready below =
      element m.providers j (below j refl) ready.all_configured

  draw :
      (m : MixedPayloadProvider Float P) (r : Float)
      → IsReady m
      → (p : P) × (select_provider fl m r ≡ some p) × IsConfigured p
  unfolding select_provider
  draw m r ready =
      or_last-IsConfigured m (select_from fl r zero_f 0 m.frequencies) ready
        (λ j e. omega (arith, select_from-lt r zero_f 0 m.frequencies j e, ready.same_length))

  -- A mixed payload that was made from a configuration draws, whatever the random number and the
  -- rounding of the frequencies are, a provider that a section with a frequency above 0 has made: the
  -- draw never runs out of the list.
  pub select_provider-IsConfigured :
      (m : MixedPayloadProvider Float P) (r : Float)
      → new_mixed_payload_provider fl frequency create ≡ ok m
      → (p : P) × (select_provider fl m r ≡ some p) × IsConfigured p
  select_provider-IsConfigured m r e = draw m r (rw e at new-IsReady)
