-- ===== src/Continuation/Reading.antt =====
-- CORE/runtime/continuation_policy.py: blockers, the next action and the counts of the canonical
-- plan. `str(item)` of a blocker or an action that is no string is a parameter.
use Prim.Native.String.{[] as nil, ◌∷◌ as ◌∷ₛ◌}
use super_memory_brain.Base.{
  ℕ, ◌+◌, String, Bool, true, false, ◌&&◌, ◌||◌, not, Option, none, some, List, [], ◌∷◌, eqb, ltb,
  ◌==◌, if◌then◌else◌,
}
use super_memory_brain.Json.{
  Value, null, bool, int, negative, float, text, arr, obj, Items, end, item, Fields, none_left,
  field, find, get_or_null, Python, to_text, is_falsy, is_true,
}
use super_memory_brain.Text.{after, strip, words, join}

-- `marker in s`
unfoldable pub starts : String → String → Bool
unfolding after
starts marker s = elim (after marker s) [ none ↦ false | some _ ↦ true ]

unfoldable pub contains : String → String → Bool
unfolding starts
contains marker nil = starts marker nil
contains marker (c ∷ₛ s) = starts marker (c ∷ₛ s) || contains marker s

unfoldable pub contains_any : List String → String → Bool
unfolding contains
contains_any [] s = false
contains_any (marker ∷ markers) s = contains marker s || contains_any markers s

abbrev pub nonblocking_markers : List String
nonblocking_markers =
    "not blocking" ∷ "does not block" ∷ "non-blocking" ∷ "nonblocking" ∷ "不阻断" ∷ "不影响核心" ∷ "不影响当前"
    ∷ []

abbrev pub user_input_markers : List String
user_input_markers =
    "awaiting user" ∷ "wait for user" ∷ "requires user" ∷ "needs user" ∷ "real desktop host"
    ∷ "等待用户" ∷ "需要用户" ∷ "需要你确认" ∷ "请用户" ∷ "真实 desktop" ∷ "真实宿主" ∷ []

-- `" ".join(s.strip().lower().split())`
unfoldable pub compact : Python → String → String
unfolding strip words join
compact py s = join (words (py.lower (strip s)))

unfoldable pub item_texts : Python → Items → List String
item_texts py end = []
item_texts py (item v items) = to_text py v ∷ item_texts py items

unfoldable pub field_texts : Python → Fields → List String
field_texts py none_left = []
field_texts py (field key v fields) = to_text py v ∷ field_texts py fields

-- `_blockers`
unfoldable pub blockers : Python → Value → List String
unfolding item_texts field_texts
blockers py (text s) = s ∷ []
blockers py (arr items) = item_texts py items
blockers py (obj fields) = field_texts py fields
blockers py _ = []

unfoldable pub is_blocking : Python → String → Bool
unfolding compact contains_any
is_blocking py s = let c = compact py s in not (c == "") && not (contains_any nonblocking_markers c)

unfoldable pub any_blocking : Python → List String → Bool
unfolding is_blocking
any_blocking py [] = false
any_blocking py (s ∷ rest) = is_blocking py s || any_blocking py rest

unfoldable pub has_blocking_blocker : Python → Value → Bool
unfolding any_blocking blockers
has_blocking_blocker py v = any_blocking py (blockers py v)

-- `_requires_user_input`
unfoldable pub requires_user_input : Python → Value → Bool
unfolding compact contains_any starts
requires_user_input py v =
    let c = compact py (if is_falsy v then "" else to_text py v) in
    c == "" || starts "no automatic action:" c || contains_any user_input_markers c

pub record Counts : Type 0 where
  pub items : ℕ
  pub completed : ℕ
  pub pending : ℕ
  pub cancelled : ℕ

-- A count field that is an `int`, no `bool`, and not negative.
abbrev pub as_count : Value → Option ℕ
as_count (int n) = some n
as_count null = none
as_count (bool b) = none
as_count (negative n) = none
as_count float = none
as_count (text s) = none
as_count (arr xs) = none
as_count (obj fs) = none

abbrev pub four_counts : Option ℕ → Option ℕ → Option ℕ → Option ℕ → Option Counts
four_counts (some a) (some b) (some c) (some d) =
    some (record { items = a; completed = b; pending = c; cancelled = d })
four_counts (some a) (some b) (some c) none = none
four_counts (some a) (some b) none d = none
four_counts (some a) none c d = none
four_counts none b c d = none

abbrev pub present : String → Fields → Bool
present name fields = elim (find name fields) [ none ↦ false | some _ ↦ true ]

unfoldable pub has_counts : Fields → Bool
unfolding find
has_counts fields =
    present "itemCount" fields
    && present "completedCount" fields
    && present "pendingCount" fields
    && present "cancelledCount" fields

-- `str(item.get("status", ""))` of one item
abbrev pub status_text : Python → Option Value → String
status_text py none = ""
status_text py (some v) = to_text py v

-- The counts with one more item of this status.
unfoldable pub count_status : String → Counts → Option Counts
count_status s c =
    if s == "completed"
    then some (record c { items = c.items + 1; completed = c.completed + 1 })
    else if s == "pending" || s == "in_progress"
    then some (record c { items = c.items + 1; pending = c.pending + 1 })
    else if s == "cancelled"
    then some (record c { items = c.items + 1; cancelled = c.cancelled + 1 })
    else none

abbrev pub no_counts : Counts
no_counts = record { items = 0; completed = 0; pending = 0; cancelled = 0 }

abbrev add_item : Option Counts → String → Option Counts
add_item none s = none
add_item (some c) s = count_status s c

unfoldable pub count_items : Python → Items → Option Counts
unfolding count_status find
count_items py end = some no_counts
count_items py (item (obj fields) items) =
    add_item (count_items py items) (status_text py (find "status" fields))
count_items py (item v items) = none

abbrev nonempty_counts : Python → Value → Option Counts
nonempty_counts py (arr (item v items)) = count_items py (item v items)
nonempty_counts py (arr end) = none
nonempty_counts py null = none
nonempty_counts py (bool b) = none
nonempty_counts py (int n) = none
nonempty_counts py (negative n) = none
nonempty_counts py float = none
nonempty_counts py (text s) = none
nonempty_counts py (obj fs) = none

-- `_canonical_plan_counts`
unfoldable pub canonical_plan_counts : Python → Value → Option Counts
unfolding has_counts count_items get_or_null
canonical_plan_counts py (obj fields) =
    if has_counts fields
    then four_counts (as_count (get_or_null "itemCount" fields))
        (as_count (get_or_null "completedCount" fields))
        (as_count (get_or_null "pendingCount" fields))
        (as_count (get_or_null "cancelledCount" fields))
    else nonempty_counts py (get_or_null "items" fields)
canonical_plan_counts py _ = none

abbrev pub counts_are_terminal : Option Counts → Bool
counts_are_terminal none = false
counts_are_terminal (some c) =
    ltb 0 c.items && eqb c.pending 0 && eqb (c.completed + c.cancelled) c.items

-- `_has_verified_terminal_completion`
unfoldable pub has_verified_terminal_completion : Python → Fields → Bool
unfolding canonical_plan_counts get_or_null strip
has_verified_terminal_completion py fields =
    let phase = py.casefold (strip (status_text py (find "currentPhase" fields))) in
    (phase == "complete" || phase == "completed" || phase == "done")
    && not (is_true (get_or_null "canResumeParent" fields))
    && counts_are_terminal (canonical_plan_counts py (get_or_null "canonicalPlan" fields))
