-- ===== src/Obsv/Journal/Delivery.antt =====
-- obsv/journal/journal.go: what a subscription is given.
use aa.Base.{
  ℕ, zero, suc, ◌+◌, ◌-◌, ◌≤◌, ◌<◌, String, false, Option, none, some, List, [], ◌∷◌, ◌++◌, ◌≡◌,
  refl, ap, ◌∙◌, sym, length, take, get_elem?, ltb, if_rule, if_false, Bool-cases, inl, inr, Result,
  ok, err, arith, ok_inj, append-nil, append_assoc, length-append, lt→ltb, get_elem?-map,
  get_elem?-last,
}
use aa.Base.Int.{ℤ}
use aa.Obsv.Journal.{
  Event, Error, Memory, Subscription, deliver, replay, subscribe, append, taken, stamped, validate,
}

-- Deliver the events one after another.
abbrev deliver_all : Subscription → List Event → Subscription
deliver_all s [] = s
deliver_all s (ev ∷ evs) = deliver_all (deliver ev s) evs

abbrev opened : List Event → ℕ → ℕ → Subscription
opened waiting capacity dropped = record {
  waiting = waiting;
  capacity = capacity;
  dropped = dropped;
  closed = false;
}

opened_eq : {v w : List Event} {d e : ℕ} (c : ℕ) → v ≡ w → d ≡ e → opened v c d ≡ opened w c e
opened_eq c p q i = opened (p i) c (q i)

deliver-room :
    (w : List Event) (c d : ℕ) (ev : Event)
    → length w < c
    → deliver ev (opened w c d) ≡ opened (w ++ ev ∷ []) c d
unfolding deliver
deliver-room w c d ev l = rw (lt→ltb (length w) c l) refl

deliver-full :
    (w : List Event) (c d : ℕ) (ev : Event)
    → c ≤ length w
    → deliver ev (opened w c d) ≡ opened w c (d + 1)
unfolding deliver
deliver-full w c d ev l = let t : ltb (length w) c ≡ false = ground (arith, l) in rw t refl

deliver_all-opened :
    (evs w : List Event) (room c d : ℕ)
    → length w + room ≡ c
    → deliver_all (opened w c d) evs ≡ opened (w ++ take room evs) c (d + (length evs - room))
deliver_all-opened [] w zero c d e = opened_eq c (sym (append-nil w)) (omega arith)
deliver_all-opened [] w (suc room) c d e = opened_eq c (sym (append-nil w)) (omega arith)
deliver_all-opened (ev ∷ evs) w zero c d e =
    ap (λ s. deliver_all s evs) (deliver-full w c d ev (omega (arith, e)))
    ∙ deliver_all-opened evs w zero c (d + 1) e
    ∙ opened_eq c refl (omega arith)
deliver_all-opened (ev ∷ evs) w (suc room) c d e =
    ap (λ s. deliver_all s evs) (deliver-room w c d ev (omega (arith, e)))
    ∙ deliver_all-opened evs (w ++ ev ∷ []) room c d (omega (arith, e, length-append w (ev ∷ [])))
    ∙ opened_eq c (append_assoc w (ev ∷ []) (take room evs)) (omega arith)

module _ (trim : String → String) where
  -- `Append` of each event in turn, with the events it answers with.
  abbrev pub answer : Memory → Result Error (Memory × Event) → Memory × List Event
  answer m (err e) = (m, [])
  answer m (ok (m', ev)) = (m', ev ∷ [])

  unfoldable pub append_all : Memory → List Event → Memory × List Event
  append_all m [] = (m, [])
  append_all m (ev ∷ evs) =
      let r = answer m (append trim m ev) in
      let rest = append_all r.0 evs in (rest.0, r.1 ++ rest.1)

  deliver_all-append :
      (s : Subscription) (xs ys : List Event)
      → deliver_all s (xs ++ ys) ≡ deliver_all (deliver_all s xs) ys
  deliver_all-append s [] ys = refl
  deliver_all-append s (x ∷ xs) ys = deliver_all-append (deliver x s) xs ys

  -- The subscription in this place has been given the answered events.
  abbrev Gives : ℕ → Subscription → Memory × List Event → Type 0
  Gives i s r = get_elem? r.0.subs i ≡ some (deliver_all s r.1)

  taken-Gives :
      (m : Memory) (i : ℕ) (s : Subscription) (ev : Event) (o : Option Error)
      → get_elem? m.subs i ≡ some s
      → Gives i s (answer m (taken trim m ev o))
  taken-Gives m i s ev none h = get_elem?-map (deliver ev) m.subs i s h
  taken-Gives m i s ev (some e) h = h

  append-Gives :
      (m : Memory) (i : ℕ) (s : Subscription) (ev : Event)
      → get_elem? m.subs i ≡ some s
      → Gives i s (answer m (append trim m ev))
  unfolding append
  append-Gives m i s ev h =
      if_rule (λ r. Gives i s (answer m r)) m.closed (λ _. h)
        λ _. taken-Gives m i s (stamped trim m ev) (validate trim (stamped trim m ev)) h

  append_all-Gives :
      (evs : List Event) (m : Memory) (i : ℕ) (s : Subscription)
      → get_elem? m.subs i ≡ some s
      → Gives i s (append_all m evs)
  unfolding append_all
  append_all-Gives [] m i s h = h
  append_all-Gives (ev ∷ evs) m i s h =
      let r = answer m (append trim m ev) in
      append_all-Gives evs r.0 i (deliver_all s r.1) (append-Gives m i s ev h)
      ∙ ap some (sym (deliver_all-append s r.1 (append_all r.0 evs).1))

  subscribe-opened :
      (m m' : Memory) (from : ℤ)
      → subscribe m from ≡ ok m'
      → get_elem? m'.subs (length m.subs)
        ≡ some (opened (replay m from) (length (replay m from) + 64) 0)
  unfolding subscribe replay
  subscribe-opened m m' from h = elim (Bool-cases m.closed) [
    | inl t ↦ absurd (ground (arith, t, h))
    | inr t ↦
        ap (λ (x : Memory). get_elem? x.subs (length m.subs))
          (sym (ok_inj (sym (if_false _ _ t) ∙ h)))
        ∙ get_elem?-last m.subs _
  ]

  -- A subscription that nobody reads or closes holds the events of `Replay` at its start, then the
  -- first 64 events that `Append` has answered with since, in order; it has dropped exactly the others.
  pub subscribe-delivers :
      (m m' : Memory) (from : ℤ) (evs : List Event)
      → subscribe m from ≡ ok m'
      → get_elem? (append_all m' evs).0.subs (length m.subs)
        ≡ some (record {
          waiting = replay m from ++ take 64 (append_all m' evs).1;
          capacity = length (replay m from) + 64;
          dropped = length (append_all m' evs).1 - 64;
          closed = false;
        })
  subscribe-delivers m m' from evs h =
      append_all-Gives evs m' (length m.subs) _ (subscribe-opened m m' from h)
      ∙ ap some (
          deliver_all-opened (append_all m' evs).1 (replay m from) 64 (length (replay m from) + 64)
            0 refl
          ∙ opened_eq (length (replay m from) + 64) refl (omega arith))
