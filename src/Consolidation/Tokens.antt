-- ===== src/Consolidation/Tokens.antt =====
-- CORE/runtime/memory_consolidation.py: `_compact`, `_tokens` and `_near_score`. Python's `\s` is the
-- class of `str.isspace`, so that a run of spaces becomes one space as in `squeeze`. A set of tokens
-- is a list in which none stands twice.
use Prim.Native.Char.{Char, code}
use Prim.Native.String.{[] as nil, ◌∷◌ as ◌∷ₛ◌}
use super_memory_brain.Base.{
  ℕ, suc, zero, ◌*◌, String, Bool, ◌&&◌, ◌||◌, List, [], ◌∷◌, ◌++◌, leb, length, member,
  if◌then◌else◌,
}
use super_memory_brain.Json.{Value, null, bool, int, negative, float, text, arr, obj}
use super_memory_brain.Text.{size, squeeze}

-- `s[:n]`
abbrev pub prefix : ℕ → String → String
prefix zero s = nil
prefix (suc n) nil = nil
prefix (suc n) (c ∷ₛ s) = c ∷ₛ prefix n s

unfoldable pub compact : ℕ → Value → String
unfolding squeeze
compact maximum (text s) = prefix maximum (squeeze s)
compact maximum null = nil
compact maximum (bool b) = nil
compact maximum (int n) = nil
compact maximum (negative n) = nil
compact maximum float = nil
compact maximum (arr xs) = nil
compact maximum (obj fs) = nil

-- `[a-z0-9]`, `[a-z0-9_-]` and the ideographs
abbrev pub is_lead : ℕ → Bool
is_lead n = (leb b'a' n && leb n b'z') || (leb b'0' n && leb n b'9')

abbrev pub is_part : ℕ → Bool
is_part n = is_lead n || leb b'_' n && leb n b'_' || leb b'-' n && leb n b'-'

abbrev pub is_han : ℕ → Bool
is_han n = leb 19968 n && leb n 40959

-- The character before the first run of the rest, if the rest starts with that run.
abbrev pub onto_run : (ℕ → Bool) → Char → String → List String → List String
onto_run part c (d ∷ₛ s) (w ∷ ws) = if part (code d) then (c ∷ₛ w) ∷ ws else (c ∷ₛ nil) ∷ w ∷ ws
onto_run part c nil ws = (c ∷ₛ nil) ∷ ws
onto_run part c (d ∷ₛ s) [] = (c ∷ₛ nil) ∷ []

-- The maximal runs of a class.
unfoldable pub runs : (ℕ → Bool) → String → List String
runs part nil = []
runs part (c ∷ₛ s) =
    let rest = runs part s in if part (code c) then onto_run part c s rest else rest

-- A run less the characters before its first lead.
abbrev pub from_lead : String → String
from_lead nil = nil
from_lead (c ∷ₛ s) = if is_lead (code c) then c ∷ₛ s else from_lead s

-- `re.findall(r"[a-z0-9][a-z0-9_-]{1,}", s)`: a match takes all that is left of its run.
unfoldable pub long_words : List String → List String
long_words [] = []
long_words (w ∷ ws) =
    let rest = long_words ws in if leb 2 (size (from_lead w)) then from_lead w ∷ rest else rest

-- The pairs of neighbours of a run.
unfoldable pub pairs : String → List String
pairs nil = []
pairs (c ∷ₛ nil) = []
pairs (c ∷ₛ d ∷ₛ s) = (c ∷ₛ d ∷ₛ nil) ∷ pairs (d ∷ₛ s)

unfoldable pub han_tokens : List String → List String
unfolding pairs
han_tokens [] = []
han_tokens (run ∷ rest) =
    (if leb (size run) 16 then run ∷ [] else []) ++ pairs run ++ han_tokens rest

-- `set(names)`
unfoldable pub distinct : List String → List String
distinct [] = []
distinct (a ∷ names) = let rest = distinct names in if member a rest then rest else a ∷ rest

-- `_tokens` of a text that is lowered and has its spaces normalized.
unfoldable pub tokens : String → List String
unfolding distinct long_words han_tokens runs
tokens lowered = distinct (long_words (runs is_part lowered) ++ han_tokens (runs is_han lowered))

-- `left & right` and the tokens of `right` that `left` lacks
abbrev pub common : List String → List String → List String
common [] right = []
common (a ∷ left) right = let rest = common left right in if member a right then a ∷ rest else rest

abbrev pub lacking : List String → List String → List String
lacking left [] = []
lacking left (a ∷ right) = let rest = lacking left right in if member a left then rest else a ∷ rest

-- `_near_score`: how many tokens the two share and how many they have, of which the source has the
-- quotient as a float.
pub record Score : Type 0 where
  pub overlap : ℕ
  pub union_ : ℕ

unfoldable pub near_score : List String → List String → Score
near_score left right = record {
  overlap = length (common left right);
  union_ = length (left ++ lacking left right);
}

-- `overlap >= 2 and score >= 0.34`: of quotients of small numbers only 17/50 is the float 0.34.
abbrev pub is_near : Score → Bool
is_near s = leb 2 s.overlap && leb (34 * s.union_) (100 * s.overlap)
