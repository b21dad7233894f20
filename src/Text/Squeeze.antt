-- ===== src/Text/Squeeze.antt =====
-- The laws of `" ".join(s.strip().split())`, by which the runtime normalizes identifiers.
use Prim.Native.Char.{Char, code}
use Prim.Native.String.{[] as nil, ◌∷◌ as ◌∷ₛ◌}
use super_memory_brain.Base.{
  ◌≡◌, refl, ap, sym, ◌∙◌, String, Bool, true, false, not, ◌&&◌, List, [], ◌∷◌, All, arith, ◌==◌,
  eq_iff, Bool-cases, inl, inr,
}
use super_memory_brain.Text.{
  is_space, lstrip, rstrip, strip, append, next_visible, extend_first, words, join, squeeze,
}

-- No character is a space.
abbrev visible : String → Bool
visible nil = true
visible (c ∷ₛ s) = not (is_space (code c)) && visible s

abbrev IsWord : String → Type 0
IsWord nil = ⊥
IsWord (c ∷ₛ s) = (not (is_space (code c)) && visible s) ≡ true

IsWord-visible : (w : String) → IsWord w → visible w ≡ true
IsWord-visible nil h = absurd h
IsWord-visible (c ∷ₛ s) h = h

extend_first-IsWord :
    (c : Char) (ws : List String)
    → is_space (code c) ≡ false
    → All IsWord ws
    → All IsWord (extend_first c ws)
extend_first-IsWord c [] v h = (ground arith, tt)
extend_first-IsWord c (w ∷ ws) v h = (ground (arith, IsWord-visible w h.0), h.1)

words-IsWord : (s : String) → All IsWord (words s)
unfolding words
words-IsWord nil = tt
words-IsWord (c ∷ₛ s) = elim (Bool-cases (is_space (code c))) [
  | inl space ↦ rw space (words-IsWord s)
  | inr v ↦ elim (Bool-cases (next_visible s)) [
    | inl n ↦ rw (v, n) (extend_first-IsWord c (words s) v (words-IsWord s))
    | inr n ↦ rw (v, n) (ground arith, words-IsWord s)
  ]
]

words_last :
    (c : Char) (s : String)
    → is_space (code c) ≡ false
    → next_visible s ≡ false
    → words (c ∷ₛ s) ≡ (c ∷ₛ nil) ∷ words s
unfolding words
words_last c s v n = rw (v, n)

words_inner :
    (c : Char) (s : String)
    → is_space (code c) ≡ false
    → next_visible s ≡ true
    → words (c ∷ₛ s) ≡ extend_first c (words s)
unfolding words
words_inner c s v n = rw (v, n)

words_space : (s : String) → words (append " " s) ≡ words s
unfolding words is_space
words_space s = refl

-- A word and what stands after it, which is nothing or starts with a space.
words-append :
    (c : Char) (s t : String)
    → IsWord (c ∷ₛ s)
    → next_visible t ≡ false
    → words (c ∷ₛ (append s t)) ≡ (c ∷ₛ s) ∷ words t
words-append c nil t h n = words_last c t (ground arith) n
words-append c (d ∷ₛ s) t h n =
    words_inner c (d ∷ₛ (append s t)) (ground arith) (ground arith)
    ∙ ap (extend_first c) (words-append d s t (ground arith) n)

words-nil : words nil ≡ []
unfolding words
words-nil = refl

words_word : (c : Char) (s : String) → IsWord (c ∷ₛ s) → words (c ∷ₛ s) ≡ (c ∷ₛ s) ∷ []
words_word c nil h = words_last c nil (ground arith) refl ∙ ap (λ rest. (c ∷ₛ nil) ∷ rest) words-nil
words_word c (d ∷ₛ s) h =
    words_inner c (d ∷ₛ s) (ground arith) (ground arith)
    ∙ ap (extend_first c) (words_word d s (ground arith))

space_is_hidden : (s : String) → next_visible (append " " s) ≡ false
unfolding is_space
space_is_hidden s = refl

-- Splitting the joined words gives the words again.
pub words-join : (ws : List String) → All IsWord ws → words (join ws) ≡ ws
unfolding join
words-join [] h = words-nil
words-join (nil ∷ ws) h = absurd h.0
words-join ((c ∷ₛ s) ∷ []) h = words_word c s h.0
words-join ((c ∷ₛ s) ∷ v ∷ ws) h =
    words-append c s (append " " (join (v ∷ ws))) h.0 (space_is_hidden (join (v ∷ ws)))
    ∙ ap (λ rest. (c ∷ₛ s) ∷ rest) (words_space (join (v ∷ ws)) ∙ words-join (v ∷ ws) h.1)

rstrip_step :
    (c : Char) (s : String) → is_space (code c) ≡ false → rstrip s ≡ s → rstrip (c ∷ₛ s) ≡ c ∷ₛ s
unfolding rstrip
rstrip_step c s v h = rw (h, v)

rstrip-append : (w t : String) → visible w ≡ true → rstrip t ≡ t → rstrip (append w t) ≡ append w t
rstrip-append nil t v h = h
rstrip-append (c ∷ₛ w) t v h =
    rstrip_step c (append w t) (ground arith) (rstrip-append w t (ground arith) h)

rstrip-nil : rstrip nil ≡ nil
unfolding rstrip
rstrip-nil = refl

rstrip_word : (w : String) → visible w ≡ true → rstrip w ≡ w
rstrip_word nil v = rstrip-nil
rstrip_word (c ∷ₛ w) v = rstrip_step c w (ground arith) (rstrip_word w (ground arith))

rstrip_space :
    (s : String) → (s == "") ≡ false → rstrip s ≡ s → rstrip (append " " s) ≡ append " " s
unfolding rstrip is_space
rstrip_space s n h = rw (h, n)

cons-ne : (c : Char) (s : String) → ((c ∷ₛ s) == "") ≡ false
cons-ne c s = elim (Bool-cases ((c ∷ₛ s) == "")) [
  | inl e ↦ let same : (c ∷ₛ s) ≡ nil = (eq_iff (c ∷ₛ s) nil).0 e in cc
  | inr e ↦ e
]

join-ne : (v : String) (ws : List String) → IsWord v → (join (v ∷ ws) == "") ≡ false
unfolding join
join-ne nil ws h = absurd h
join-ne (c ∷ₛ v) [] h = cons-ne c v
join-ne (c ∷ₛ v) (w ∷ ws) h = cons-ne c (append v (append " " (join (w ∷ ws))))

rstrip-join : (ws : List String) → All IsWord ws → rstrip (join ws) ≡ join ws
unfolding join
rstrip-join [] h = rstrip-nil
rstrip-join (w ∷ []) h = rstrip_word w (IsWord-visible w h.0)
rstrip-join (w ∷ v ∷ ws) h =
    rstrip-append w (append " " (join (v ∷ ws))) (IsWord-visible w h.0)
      (rstrip_space (join (v ∷ ws)) (join-ne v ws h.1.0) (rstrip-join (v ∷ ws) h.1))

lstrip_visible : (c : Char) (s : String) → is_space (code c) ≡ false → lstrip (c ∷ₛ s) ≡ c ∷ₛ s
unfolding lstrip
lstrip_visible c s v = rw v

lstrip-nil : lstrip nil ≡ nil
unfolding lstrip
lstrip-nil = refl

lstrip-join : (ws : List String) → All IsWord ws → lstrip (join ws) ≡ join ws
unfolding join
lstrip-join [] h = lstrip-nil
lstrip-join (nil ∷ ws) h = absurd h.0
lstrip-join ((c ∷ₛ s) ∷ []) h = lstrip_visible c s (ground arith)
lstrip-join ((c ∷ₛ s) ∷ v ∷ ws) h =
    lstrip_visible c (append s (append " " (join (v ∷ ws)))) (ground arith)

squeeze_at : (s : String) → squeeze s ≡ join (words (strip s))
unfolding squeeze
squeeze_at s = refl

strip_at : (s : String) → strip s ≡ rstrip (lstrip s)
unfolding strip
strip_at s = refl

-- A normalized text is its own normal form.
pub squeeze_idem : (s : String) → squeeze (squeeze s) ≡ squeeze s
squeeze_idem s =
    let ws = words (strip s) in
    let h = words-IsWord (strip s) in
    let at = squeeze_at s in
    squeeze_at (squeeze s)
    ∙ ap (λ t. join (words (strip t))) at
    ∙ ap (λ t. join (words t))
        (strip_at (join ws) ∙ ap rstrip (lstrip-join ws h) ∙ rstrip-join ws h)
    ∙ ap join (words-join ws h)
    ∙ sym at
