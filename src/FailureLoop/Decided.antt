-- ===== src/FailureLoop/Decided.antt =====
-- When `evaluate_failure_loop` of failure_loop_guard.py comes to a decision, and which one it is.
use super_memory_brain.Base.{
  ◌≡◌, refl, Bool, true, false, ◌||◌, Option, none, some, List, Bool-cases, Option-cases, inl, inr,
}
use super_memory_brain.Json.{Value, bool, Items}
use super_memory_brain.FailureLoop.Token.{Digests4, token, privacy_key_present, four, digest_all}
use super_memory_brain.FailureLoop.Decision.{
  Body, Hashing, decide, parse_history, history_items, evaluate_parsed, evaluate_tokens,
  evaluate_body, evaluate_failure_loop,
}

-- The tokens of the four arguments.
abbrev pub tokens_of : Value → Value → Value → Value → Option Digests4
tokens_of failure evidence action phase =
    four (token failure true) (token evidence false) (token action false) (token phase false)

-- Arguments that the guard takes: they hold no private key and are of the right shape, and the
-- history is not too long and can be read.
pub record IsTaken (h : Hashing) (failure history evidence action phase correction : Value)
    : Type 0 where
  pub tokens : Digests4
  pub corrected : Bool
  pub items : Items
  pub past : List (Digests4 × Bool)
  pub plain : (privacy_key_present failure || privacy_key_present history) ≡ false
  pub read : tokens_of failure evidence action phase ≡ some tokens
  pub asked : correction ≡ bool corrected
  pub listed : history_items history ≡ some items
  pub parsed : parse_history h.digest items ≡ some past

-- The digests of the current attempt.
abbrev pub current_digests : Hashing → Digests4 → Digests4
current_digests h t = digest_all h.digest t

-- The guard has come to a decision, to retry or to withhold.
abbrev pub is_decision : Body → Bool
is_decision b = b.retry_allowed || b.fused

module _ (h : Hashing) (failure history evidence action phase correction : Value) where
  abbrev body : Body
  body = (evaluate_failure_loop h failure history evidence action phase correction).body

  -- The decision on arguments that are taken.
  pub evaluate-decide :
      (k : IsTaken h failure history evidence action phase correction)
      → body ≡ decide h (current_digests h k.tokens) k.corrected k.past
  unfolding evaluate_failure_loop
  evaluate-decide k =
      rw (k.plain, evaluate_body)
        (rw (k.read, k.asked, evaluate_tokens)
          (rw (k.listed, evaluate_parsed) (rw (k.parsed, evaluate_parsed) refl)))

  parsed-IsTaken :
      (t : Digests4) (b : Bool) (o : Option Items)
      → (privacy_key_present failure || privacy_key_present history) ≡ false
      → tokens_of failure evidence action phase ≡ some t
      → correction ≡ bool b
      → history_items history ≡ o
      → is_decision (evaluate_parsed h (digest_all h.digest t) b o) ≡ true
      → IsTaken h failure history evidence action phase correction
  unfolding evaluate_parsed
  parsed-IsTaken t b none p r a l e = cc
  parsed-IsTaken t b (some is) p r a l e = elim (Option-cases (parse_history h.digest is)) [
    | inl bad ↦ let f : false ≡ true = rw (bad, evaluate_parsed) at e in cc
    | inr (ps, good) ↦ record {
      tokens = t;
      corrected = b;
      items = is;
      past = ps;
      plain = p;
      read = r;
      asked = a;
      listed = l;
      parsed = good;
    }
  ]

  tokens-IsTaken :
      (o : Option Digests4) (c : Value)
      → (privacy_key_present failure || privacy_key_present history) ≡ false
      → tokens_of failure evidence action phase ≡ o
      → correction ≡ c
      → is_decision (evaluate_tokens h o c history) ≡ true
      → IsTaken h failure history evidence action phase correction
  unfolding evaluate_tokens
  tokens-IsTaken none c p r a e = cc
  tokens-IsTaken (some t) (bool b) p r a e = parsed-IsTaken t b (history_items history) p r a refl e
  tokens-IsTaken (some t) _ p r a e = cc

  -- Only on such arguments is there a decision.
  pub evaluate-IsTaken :
      is_decision body ≡ true → IsTaken h failure history evidence action phase correction
  unfolding evaluate_failure_loop evaluate_body
  evaluate-IsTaken e =
      elim (Bool-cases (privacy_key_present failure || privacy_key_present history)) [
        | inl secret ↦ let f : false ≡ true = rw (secret, evaluate_body) at e in cc
        | inr plain ↦
            tokens-IsTaken (tokens_of failure evidence action phase) correction plain refl refl
              (rw (plain, evaluate_body) at e)
      ]
