-- ===== src/Obsv/Journal/Durable.antt =====
-- obsv/journal/journal.go: a journal that is opened again from its file.
use aa.Base.{
  ℕ, suc, ◌≤◌, String, false, Option, none, some, List, [], ◌∷◌, ◌++◌, ◌≡◌, refl, ap, ◌∙◌, sym,
  subst, str_eq, ltb, if◌then◌else◌, if_rule, if_false, Bool-cases, inl, inr, Result, ok, err,
  arith, append-nil, append_assoc,
}
use aa.Base.Int.{ℤ, pos, negsuc}
use aa.Obsv.Journal.{
  Event, Error, is_closed, Memory, current, validate, stamped, stored, taken, append, raised,
  load_all,
}

abbrev pub place_of : ℤ → ℕ
place_of (pos k) = k
place_of (negsuc k) = 0

module _ (trim : String → String) where
  -- Taken events with rising sequences, the first at least n.
  abbrev pub Rising : ℕ → List Event → Type 0
  Rising n [] = Unit
  Rising n (ev ∷ evs) =
      (ev.sequence ≡ pos (place_of ev.sequence))
      × (n ≤ place_of ev.sequence)
      × (validate trim ev ≡ none)
      × Rising (suc (place_of ev.sequence)) evs

  -- The sequence after the last one.
  abbrev pub after : ℕ → List Event → ℕ
  after n [] = n
  after n (ev ∷ evs) = after (suc (place_of ev.sequence)) evs

  pub snoc-Rising :
      (n k : ℕ) (evs : List Event) (ev : Event)
      → Rising n evs
      → after n evs ≤ k
      → ev.sequence ≡ pos k
      → validate trim ev ≡ none
      → Rising n (evs ++ ev ∷ [])
  snoc-Rising n k [] ev r l e t =
      let p : place_of ev.sequence ≡ k = ap place_of e in
      (e ∙ ap pos (sym p), omega (arith, p), t, tt)
  snoc-Rising n k (x ∷ evs) ev r l e t =
      (r.0, r.1, r.2, snoc-Rising (suc (place_of x.sequence)) k evs ev r.3 l e t)

  pub after-snoc :
      (n k : ℕ) (evs : List Event) (ev : Event)
      → ev.sequence ≡ pos k
      → after n (evs ++ ev ∷ []) ≡ suc k
  after-snoc n k [] ev e = ap (λ s. suc (place_of s)) e
  after-snoc n k (x ∷ evs) ev e = after-snoc (suc (place_of x.sequence)) k evs ev e

  valid_named : (ev : Event) → validate trim ev ≡ none → str_eq ev.version "" ≡ false
  unfolding validate
  valid_named ev h = elim (Bool-cases (str_eq ev.version "")) [
    | inl t ↦ absurd (ground (arith, t, h))
    | inr t ↦ t
  ]

  stamped_same :
      (m : Memory) (ev : Event)
      → validate trim ev ≡ none
      → ev.sequence ≡ pos m.next
      → stamped trim m ev ≡ ev
  stamped_same m ev v s =
      let p : (if str_eq ev.version "" then current else ev.version) ≡ ev.version =
        if_false current ev.version (valid_named ev v) in
      λ i. record ev { version = p i; sequence = sym s i }

  raised_next : (m : Memory) (k : ℕ) → m.next ≤ k → (raised trim m (pos k)).next ≡ k
  raised_next m k l = ground arith

  raised_open : (m : Memory) (s : ℤ) → m.closed ≡ false → (raised trim m s).closed ≡ false
  raised_open m (negsuc k) c = c
  raised_open m (pos k) c =
      if_rule (λ (x : Memory). x.closed ≡ false) (ltb m.next k) (λ _. c) (λ _. c)

  raised_events : (m : Memory) (s : ℤ) → (raised trim m s).events ≡ m.events
  raised_events m (negsuc k) = refl
  raised_events m (pos k) =
      if_rule (λ (x : Memory). x.events ≡ m.events) (ltb m.next k) (λ _. refl) (λ _. refl)

  append_taken :
      (m : Memory) (ev : Event)
      → m.closed ≡ false
      → validate trim ev ≡ none
      → ev.sequence ≡ pos m.next
      → append trim m ev ≡ ok (stored trim m ev, ev)
  unfolding append
  append_taken m ev c t s =
      if_false (err is_closed)
        (taken trim m (stamped trim m ev) (validate trim (stamped trim m ev))) c
      ∙ subst (λ x. taken trim m x (validate trim x) ≡ ok (stored trim m ev, ev))
          (sym (stamped_same m ev t s)) (ap (taken trim m ev) t)

  -- Loading events with rising sequences keeps them all as they are.
  pub load_all-Rising :
      (evs : List Event) (m : Memory)
      → m.closed ≡ false
      → Rising m.next evs
      → (m' : Memory) × (load_all trim m evs ≡ ok m')
        × (m'.events ≡ m.events ++ evs)
        × (m'.next ≡ after m.next evs)
  unfolding load_all
  load_all-Rising [] m c r = (m, refl, sym (append-nil m.events), refl)
  load_all-Rising (ev ∷ evs) m c r =
      let k = place_of ev.sequence in
      let n : (raised trim m ev.sequence).next ≡ k =
        ap (λ s. (raised trim m s).next) r.0 ∙ raised_next m k r.1 in
      let m' : Memory = stored trim (raised trim m ev.sequence) ev in
      let a : append trim (raised trim m ev.sequence) ev ≡ ok (m', ev) =
        append_taken (raised trim m ev.sequence) ev (raised_open m ev.sequence c) r.2
          (r.0 ∙ ap pos (sym n)) in
      let t =
        load_all-Rising evs m' (raised_open m ev.sequence c)
          (subst (λ x. Rising x evs) (ap suc (sym n) ∙ omega arith) r.3) in
      (
        t.0,
        rw a t.1,
        t.2
            ∙ ap (λ es. (es ++ ev ∷ []) ++ evs) (raised_events m ev.sequence)
            ∙ append_assoc m.events (ev ∷ []) evs,
        t.3 ∙ ap (λ x. after x evs) (omega (arith, n)),
      )

  -- What an answer of `append` holds.
  abbrev pub Stored : Memory → Result Error (Memory × Event) → Type 0
  Stored m (err e) = Unit
  Stored m (ok (m', ev)) =
      (validate trim ev ≡ none) × (ev.sequence ≡ pos m.next) × (m'.next ≡ suc m.next)

  taken-Stored :
      (m : Memory) (ev : Event) (o : Option Error)
      → validate trim ev ≡ o
      → ev.sequence ≡ pos m.next
      → Stored m (taken trim m ev o)
  taken-Stored m ev none v s = (v, s, omega arith)
  taken-Stored m ev (some e) v s = tt

  pub append-Stored : (m : Memory) (ev : Event) → Stored m (append trim m ev)
  unfolding append
  append-Stored m ev =
      if_rule (Stored m) m.closed (λ _. tt)
        λ _. taken-Stored m (stamped trim m ev) (validate trim (stamped trim m ev)) refl refl
