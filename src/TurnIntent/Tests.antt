-- ===== src/TurnIntent/Tests.antt =====
-- A greeting with the memory mode left open.
use super_memory_brain.Base.{◌≡◌, refl, String}
use super_memory_brain.Json.{null, text, Python}
use super_memory_brain.Text.{strip}
use super_memory_brain.TurnIntent.Table.{intent_of, greeting}
use super_memory_brain.TurnIntent.Resolve.{
  Profile, current, memory_mode_invalid, IsSound, normalized, profile, resolve_turn_intent,
  resolve_turn_intent-IsSound,
}

abbrev python : Python
python = record { str = λ v. ""; lower = λ s. s; casefold = λ s. s }

abbrev mode_as_hash : Profile → String
mode_as_hash p = p.memory_mode

resolves_greeting :
    resolve_turn_intent python mode_as_hash (text " greeting ") null
    ≡ current (profile greeting "auto") "off"
unfolding resolve_turn_intent profile intent_of strip
resolves_greeting = refl

refuses_mode :
    resolve_turn_intent python mode_as_hash null (text "always") ≡ memory_mode_invalid "direct"
unfolding resolve_turn_intent profile intent_of strip
refuses_mode = refl

resolve_turn_intent-IsSound_example :
    IsSound mode_as_hash
      (normalized python "direct" (text " greeting "))
      (normalized python "auto" null)
      (resolve_turn_intent python mode_as_hash (text " greeting ") null)
resolve_turn_intent-IsSound_example =
    resolve_turn_intent-IsSound python mode_as_hash (text " greeting ") null
