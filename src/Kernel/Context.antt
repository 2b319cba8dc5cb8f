-- ===== src/Kernel/Context.antt =====
-- kernel/context/compiler.go: context bundles within a token budget. A text is the list of its runes.
-- The digest (crypto/sha256) is a parameter of `compile`.
pub mod Budget
use aa.Base.{
  ℕ, ◌+◌, ◌-◌, ◌*◌, ◌/◌, String, Bool, true, false, not, ◌&&◌, ◌||◌, Option, none, some, List, [],
  ◌∷◌, ◌++◌, length, take, is_empty, str_eq, str_lt, ltb, leb, ◌==◌, if◌then◌else◌,
}
use aa.Base.Sort.{sort_by}
use mathlib.Core.List.{reverse}

abbrev pub Runes : Type 0
Runes = List ℕ

pub record Provenance : Type 0 where
  pub source : String
  pub kind : String
  pub id : String
  pub revision : ℕ
  pub hash : String

pub record Input : Type 0 where
  pub kind : String
  pub id : String
  pub text : Runes
  pub provenance : Option Provenance

pub record Section : Type 0 where
  pub kind : String
  pub id : String
  pub text : Runes
  pub tokens : ℕ
  pub provenance : Option Provenance

pub record Bundle : Type 0 where
  pub project_id : String
  pub work_package_id : String
  pub sections : List Section
  pub token_budget : ℕ
  pub tokens_used : ℕ
  pub truncated : Bool
  pub digest : String

-- Tokens are counted as runes by four, rounded up.
unfoldable pub estimate_tokens : Runes → ℕ
estimate_tokens text = let n = length text in if n == 0 then 0 else (n + 3) / 4

abbrev pub default_max_tokens : ℕ
default_max_tokens = 8000

-- unicode.IsSpace
unfoldable pub is_space : ℕ → Bool
is_space r =
    (leb 9 r && leb r 13)
    || r == 32
    || r == 0x85
    || r == 0xA0
    || r == 0x1680
    || (leb 0x2000 r && leb r 0x200A)
    || r == 0x2028
    || r == 0x2029
    || r == 0x202F
    || r == 0x205F
    || r == 0x3000

unfoldable pub trim_left : Runes → Runes
unfolding is_space
trim_left [] = []
trim_left (r ∷ rs) = let rest = trim_left rs in if is_space r then rest else r ∷ rs

-- strings.TrimSpace
unfoldable pub trim_space : Runes → Runes
unfolding trim_left
trim_space text = reverse (trim_left (reverse (trim_left text)))

abbrev pub ellipsis : ℕ
ellipsis = 0x2026

unfoldable pub truncate_to_tokens : Runes → ℕ → Runes
unfolding trim_space
truncate_to_tokens text max_tokens =
    let max_runes = max_tokens * 4 in
    if leb (length text) max_runes
    then text
    else if leb max_runes 1
    then []
    else trim_space (take (max_runes - 1) text) ++ ellipsis ∷ []

-- The loop's variables: the sections so far, the tokens that they use, and the flag.
pub record Progress : Type 0 where
  pub sections : List Section
  pub used : ℕ
  pub truncated : Bool

abbrev pub section_of : Input → Runes → Section
section_of input text = record {
  kind = input.kind;
  id = input.id;
  text = text;
  tokens = estimate_tokens text;
  provenance = input.provenance;
}

-- The last round, for an input that does not fit whole.
unfoldable pub fill : ℕ → Input → Progress → Progress
unfolding truncate_to_tokens
fill budget input p =
    let remaining = budget - p.used in
    let text = truncate_to_tokens input.text remaining in
    if leb remaining 0
    then record p { truncated = true }
    else if is_empty text
    then record p { truncated = true }
    else record {
      sections = p.sections ++ section_of input text ∷ [];
      used = p.used + estimate_tokens text;
      truncated = true;
    }

-- The loop over the sorted inputs; `budget - used` is not negative, since what is used fits.
unfoldable pub pack : ℕ → List Input → Progress → Progress
unfolding fill
pack budget [] p = p
pack budget (input ∷ inputs) p =
    if is_empty input.text
    then pack budget inputs p
    else (let rest = pack budget inputs (record p {
      sections = p.sections ++ section_of input input.text ∷ [];
      used = p.used + estimate_tokens input.text;
    }) in
        if leb (p.used + estimate_tokens input.text) budget then rest else fill budget input p)

abbrev pub input_less : Input → Input → Bool
input_less a b = if not (str_eq a.kind b.kind) then str_lt a.kind b.kind else str_lt a.id b.id

abbrev pub empty_progress : Progress
empty_progress = record { sections = []; used = 0; truncated = false }

-- A budget that is not positive is 0.
abbrev pub budget_of : ℕ → ℕ
budget_of max_tokens = if max_tokens == 0 then default_max_tokens else max_tokens

unfoldable pub compile : (Bundle → String) → ℕ → String → String → List Input → Bundle
unfolding pack
compile digest max_tokens project_id work_package_id inputs =
    let budget = budget_of max_tokens in
    let p = pack budget (sort_by input_less inputs) empty_progress in
    let bundle : Bundle = record {
      project_id = project_id;
      work_package_id = work_package_id;
      sections = p.sections;
      token_budget = budget;
      tokens_used = p.used;
      truncated = p.truncated;
      digest = "";
    } in
    record bundle { digest = digest bundle }
