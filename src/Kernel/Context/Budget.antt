-- ===== src/Kernel/Context/Budget.antt =====
-- kernel/context/compiler.go: a bundle never exceeds its budget, and drops nothing unless it says so.
use aa.Base.{
  ℕ, ◌+◌, ◌-◌, ◌*◌, ◌≤◌, String, ◌≡◌, refl, ap, ◌∙◌, true, false, not, List, [], ◌∷◌, ◌++◌, length,
  length-append, length-take-le, take, keep, map, is_empty, leb, if◌then◌else◌, arith, Bool-cases,
  inl, inr, leb→le, sym,
}
use aa.Base.Sort.{sort_by}
use mathlib.Core.List.{reverse, reverse-cons, append-nil, append_assoc}
use aa.Kernel.Context.{
  Runes, Input, Section, Bundle, estimate_tokens, trim_left, trim_space, ellipsis,
  truncate_to_tokens, Progress, section_of, fill, pack, input_less, empty_progress, budget_of,
  compile,
}

length-reverse : (text : Runes) → length (reverse text) ≡ length text
length-reverse [] = refl
length-reverse (rune ∷ text) = omega (
  arith,
  length-reverse text,
  length-append (reverse text) (rune ∷ []),
  ap length (reverse-cons rune text),
)

length-trim_left-le : (xs : Runes) → length (trim_left xs) ≤ length xs
unfolding trim_left
length-trim_left-le [] = omega arith
length-trim_left-le (x ∷ xs) = ground (arith, length-trim_left-le xs)

length-trim_space-le : (xs : Runes) → length (trim_space xs) ≤ length xs
unfolding trim_space
length-trim_space-le xs = omega (
  arith,
  length-reverse (trim_left (reverse (trim_left xs))),
  length-trim_left-le (reverse (trim_left xs)),
  length-reverse (trim_left xs),
  length-trim_left-le xs,
)

-- A truncated text is within the tokens that it was cut to.
pub estimate-truncate-le : (text : Runes) (n : ℕ) → estimate_tokens (truncate_to_tokens text n) ≤ n
unfolding estimate_tokens truncate_to_tokens
estimate-truncate-le text n = ground (
  arith,
  length-append (trim_space (take (n * 4 - 1) text)) (ellipsis ∷ []),
  length-trim_space-le (take (n * 4 - 1) text),
  length-take-le (n * 4 - 1) text,
)

unfoldable pub sum_tokens : List Section → ℕ
sum_tokens [] = 0
sum_tokens (s ∷ ss) = s.tokens + sum_tokens ss

sum_tokens-append : (xs ys : List Section) → sum_tokens (xs ++ ys) ≡ sum_tokens xs + sum_tokens ys
unfolding sum_tokens
sum_tokens-append [] ys = omega arith
sum_tokens-append (x ∷ xs) ys = omega (arith, sum_tokens-append xs ys)

record IsWithin (budget : ℕ) (p : Progress) : Type 0 where
  fits : p.used ≤ budget
  counted : p.used ≡ sum_tokens p.sections

fill-IsWithin : (b : ℕ) (input : Input) (p : Progress) → IsWithin b p → IsWithin b (fill b input p)
unfolding fill sum_tokens
fill-IsWithin b input p v = ground (
  arith,
  estimate-truncate-le input.text (b - p.used),
  sum_tokens-append p.sections (section_of input (truncate_to_tokens input.text (b - p.used)) ∷ []),
)

abbrev take_whole : Input → Progress → Progress
take_whole input p = record p {
  sections = p.sections ++ section_of input input.text ∷ [];
  used = p.used + estimate_tokens input.text;
}

pack_step :
    (b : ℕ) (input : Input) (inputs : List Input) (p : Progress)
    → IsWithin b p
    → (IsWithin b (take_whole input p) → IsWithin b (pack b inputs (take_whole input p)))
    → IsWithin b (
        if leb (p.used + estimate_tokens input.text) b
        then pack b inputs (take_whole input p)
        else fill b input p)
unfolding sum_tokens
pack_step b input inputs p v rest =
    elim (Bool-cases (leb (p.used + estimate_tokens input.text) b)) [
      | inl e ↦ rw e (
          rest (record {
            fits = leb→le _ _ e;
            counted =
                omega (arith, v, sum_tokens-append p.sections (section_of input input.text ∷ []));
          }))
      | inr e ↦ rw e (fill-IsWithin b input p v)
    ]

pack-IsWithin :
    (b : ℕ) (inputs : List Input) (p : Progress) → IsWithin b p → IsWithin b (pack b inputs p)
unfolding pack
pack-IsWithin b [] p v = v
pack-IsWithin b (input ∷ inputs) p v = elim (Bool-cases (is_empty input.text)) [
  | inl e ↦ rw e (pack-IsWithin b inputs p v)
  | inr e ↦ rw e (pack_step b input inputs p v (pack-IsWithin b inputs (take_whole input p)))
]

-- A bundle uses the tokens of its sections and no more than its budget, whatever the inputs.
pub compile-within_budget :
    (digest : Bundle → String) (max_tokens : ℕ) (project work_package : String)
    (inputs : List Input)
    → let b = compile digest max_tokens project work_package inputs in
      (b.tokens_used ≤ b.token_budget) × (b.tokens_used ≡ sum_tokens b.sections)
unfolding compile
compile-within_budget digest max_tokens project work_package inputs =
    let v =
      pack-IsWithin (budget_of max_tokens) (sort_by input_less inputs) empty_progress
        (unfold sum_tokens in record { fits = omega arith; counted = refl }) in
    (v.fits, v.counted)

-- The sections that hold every input with a text whole, in order.
unfoldable pub whole_sections : List Input → List Section
whole_sections inputs = map (λ i. section_of i i.text) (keep (λ i. not (is_empty i.text)) inputs)

fill-truncated : (b : ℕ) (input : Input) (p : Progress) → (fill b input p).truncated ≡ true
unfolding fill
fill-truncated b input p = ground arith

pack-whole :
    (b : ℕ) (inputs : List Input) (p : Progress)
    → (pack b inputs p).truncated ≡ false
    → (pack b inputs p).sections ≡ p.sections ++ whole_sections inputs
unfolding pack whole_sections
pack-whole b [] p h = sym (append-nil p.sections)
pack-whole b (input ∷ inputs) p h = elim (Bool-cases (is_empty input.text)) [
  | inl e ↦ rw e (pack-whole b inputs p (rw e at h))
  | inr e ↦ elim (Bool-cases (leb (p.used + estimate_tokens input.text) b)) [
    | inl f ↦
        rw (e, f)
          (pack-whole b inputs (take_whole input p) (rw (e, f) at h) ∙ append_assoc p.sections _ _)
    | inr f ↦ cc (fill-truncated b input p, rw (e, f) at h)
  ]
]

-- A bundle that is not marked truncated holds every input with a text, whole, by kind and id.
pub compile-whole :
    (digest : Bundle → String) (max_tokens : ℕ) (project work_package : String)
    (inputs : List Input)
    → (compile digest max_tokens project work_package inputs).truncated ≡ false
    → (compile digest max_tokens project work_package inputs).sections
      ≡ whole_sections (sort_by input_less inputs)
unfolding compile
compile-whole digest max_tokens project work_package inputs h =
    pack-whole (budget_of max_tokens) (sort_by input_less inputs) empty_progress h
