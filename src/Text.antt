-- ===== src/Text.antt =====
-- Python's text operations that the runtime validates identifiers with: `str.isspace`, `strip`,
-- `split`, `" ".join`, and the fixed shapes of the regular expressions.
pub mod Squeeze
use Prim.Native.Char.{Char, code}
use Prim.Native.String.{[] as nil, ◌∷◌ as ◌∷ₛ◌}
use super_memory_brain.Base.{
  ℕ, suc, String, Bool, true, false, not, ◌&&◌, ◌||◌, Option, none, some, List, [], ◌∷◌, leb, eqb,
  ◌==◌, if◌then◌else◌,
}

-- the code points for which `str.isspace` holds
unfoldable pub is_space : ℕ → Bool
is_space n =
    (leb 9 n && leb n 13)
    || (leb 28 n && leb n 32)
    || eqb n 133
    || eqb n 160
    || eqb n 5760
    || (leb 8192 n && leb n 8202)
    || eqb n 8232
    || eqb n 8233
    || eqb n 8239
    || eqb n 8287
    || eqb n 12288

-- `len(s)`
abbrev pub size : String → ℕ
size nil = 0
size (c ∷ₛ s) = suc (size s)

unfoldable pub lstrip : String → String
unfolding is_space
lstrip nil = nil
lstrip (c ∷ₛ s) = if is_space (code c) then lstrip s else c ∷ₛ s

unfoldable pub rstrip : String → String
unfolding is_space
rstrip nil = nil
rstrip (c ∷ₛ s) = let rest = rstrip s in if is_space (code c) && rest == "" then nil else c ∷ₛ rest

unfoldable pub strip : String → String
unfolding lstrip rstrip
strip s = rstrip (lstrip s)

-- `s.split()`: the maximal runs of characters that are no spaces
abbrev pub next_visible : String → Bool
next_visible nil = false
next_visible (c ∷ₛ s) = not (is_space (code c))

abbrev pub extend_first : Char → List String → List String
extend_first c [] = (c ∷ₛ nil) ∷ []
extend_first c (w ∷ ws) = (c ∷ₛ w) ∷ ws

unfoldable pub words : String → List String
unfolding is_space
words nil = []
words (c ∷ₛ s) =
    let rest = words s in
    if is_space (code c)
    then rest
    else if next_visible s
    then extend_first c rest
    else (c ∷ₛ nil) ∷ rest

-- `s + t`
abbrev pub append : String → String → String
append nil t = t
append (c ∷ₛ s) t = c ∷ₛ append s t

-- `s.replace("Z", "+00:00")`
unfoldable pub replace_z : String → String
replace_z nil = nil
replace_z (c ∷ₛ s) =
    let rest = replace_z s in if eqb (code c) b'Z' then append "+00:00" rest else c ∷ₛ rest

-- `" ".join(words)`
unfoldable pub join : List String → String
join [] = ""
join (w ∷ []) = w
join (w ∷ v ∷ ws) = append w (append " " (join (v ∷ ws)))

-- `" ".join(s.strip().split())`
unfoldable pub squeeze : String → String
unfolding strip words join
squeeze s = join (words (strip s))

-- The shape of a regular expression `^prefix[class]{low,high}$` under `fullmatch`.
unfoldable pub all_in : (ℕ → Bool) → String → Bool
all_in class nil = true
all_in class (c ∷ₛ s) = class (code c) && all_in class s

unfoldable pub after : String → String → Option String
after nil s = some s
after (p ∷ₛ ps) nil = none
after (p ∷ₛ ps) (c ∷ₛ s) = if eqb (code p) (code c) then after ps s else none

unfoldable pub sized_in : (ℕ → Bool) → ℕ → ℕ → String → Bool
unfolding all_in
sized_in class low high s = all_in class s && leb low (size s) && leb (size s) high

unfoldable pub shape : String → (ℕ → Bool) → ℕ → ℕ → String → Bool
unfolding after sized_in
shape prefix class low high s = elim (after prefix s) [
  | none ↦ false
  | some rest ↦ sized_in class low high rest
]

-- The same with another class for the first character, `^[lead][class]{low,high}$`.
unfoldable pub led_shape : (ℕ → Bool) → (ℕ → Bool) → ℕ → ℕ → String → Bool
unfolding sized_in
led_shape lead class low high nil = false
led_shape lead class low high (c ∷ₛ s) = lead (code c) && sized_in class low high s

-- `[a-f0-9]`, `[A-Za-z]`, `[A-Za-z0-9]`
unfoldable pub is_hex : ℕ → Bool
is_hex n = (leb b'a' n && leb n b'f') || (leb b'0' n && leb n b'9')

unfoldable pub is_letter : ℕ → Bool
is_letter n = (leb b'a' n && leb n b'z') || (leb b'A' n && leb n b'Z')

unfoldable pub is_alnum : ℕ → Bool
unfolding is_letter
is_alnum n = is_letter n || (leb b'0' n && leb n b'9')
