-- ===== src/Broker/Printed.antt =====
-- The registry file of scope_broker.py: what `_write_registry` writes, `_read_registry` reads back.
use super_memory_brain.Base.{
  ◌≡◌, refl, ap, ◌∙◌, Bool, true, false, Option, none, some, List, [], ◌∷◌, eq_refl, arith, ◌↔◌,
}
use super_memory_brain.Json.{Value, obj, none_left, get_or_null, has_exactly, without_field}
use super_memory_brain.Broker.Types.{sha256_re}
use super_memory_brain.Broker.Registry.{WorklineRecord}
use super_memory_brain.Broker.Contract.{Libraries}
use super_memory_brain.Broker.Durable.{SessionRecord, Registry, registry_valid}
use super_memory_brain.Broker.File.{
  ◌>>◌, demand, session_of, workline_of, add_item, sessions_of, worklines_of, registry_of, File,
  json, read_file, session_items, workline_items, registry_dictionary, registry_value, write_file,
}

-- SHA-256 in hexadecimal has 64 digits, whatever is hashed.
pub record IsHash (l : Libraries) : Type 0 where
  pub digits : (v : Value) → sha256_re (l.canonical_hash v) ≡ true

sessions_of-items :
    (sessions : List SessionRecord) → sessions_of (session_items sessions) ≡ some sessions
unfolding sessions_of session_of has_exactly get_or_null
sessions_of-items [] = refl
sessions_of-items (s ∷ sessions) = ap (add_item (some s)) (sessions_of-items sessions)

worklines_of-items :
    (worklines : List WorklineRecord) → worklines_of (workline_items worklines) ≡ some worklines
unfolding worklines_of workline_of has_exactly get_or_null
worklines_of-items [] = refl
worklines_of-items (w ∷ worklines) = ap (add_item (some w)) (worklines_of-items worklines)

-- The last test of `_registry_valid`.
abbrev checked : Libraries → Registry → Option Registry
checked l r = demand (registry_valid l r) >> some r

registry_of-value :
    (l : Libraries) (r : Registry) → IsHash l → registry_of l (registry_value l r) ≡ checked l r
unfolding registry_of registry_value has_exactly get_or_null without_field
registry_of-value l r hashed =
    rw
      (
        hashed.digits (obj (registry_dictionary r none_left)),
        eq_refl (l.canonical_hash (obj (registry_dictionary r none_left))),
        sessions_of-items r.sessions,
        worklines_of-items r.worklines,
      )
      refl

-- A valid registry that is written is read back.
pub read_file-registry_value :
    (l : Libraries) (r : Registry)
    → IsHash l
    → registry_valid l r ≡ true
    → read_file l (json (registry_value l r)) ≡ some r
unfolding read_file
read_file-registry_value l r hashed v =
    registry_of-value l r hashed ∙ ap (λ t. demand t >> some r) v

written_when :
    (l : Libraries) (r : Registry) (file : File) (valid : Bool)
    → elim (demand valid >> some r) as (λ _. Option File) [
      | none ↦ none
      | some _ ↦ some (json (registry_value l r))
    ]
      ≡ some file
    → (valid ≡ true) × (file ≡ json (registry_value l r))
written_when l r file true e = (refl, ground (arith, e))
written_when l r file false e = cc

pub write_file-checked :
    (l : Libraries) (writable : Bool) (r : Registry) (file : File)
    → IsHash l
    → write_file l writable r ≡ some file
    → (registry_valid l r ≡ true) × (file ≡ json (registry_value l r))
unfolding write_file
write_file-checked l true r file hashed e =
    written_when l r file (registry_valid l r) (rw (← registry_of-value l r hashed) e)
write_file-checked l false r file hashed e = cc

write_file-valid :
    (l : Libraries) (r : Registry)
    → IsHash l
    → registry_valid l r ≡ true
    → write_file l true r ≡ some (json (registry_value l r))
unfolding write_file
write_file-valid l r hashed v =
    ap
      (λ o. elim o as (λ _. Option File) [
        | none ↦ none
        | some _ ↦ some (json (registry_value l r))
      ])
      (registry_of-value l r hashed ∙ ap (λ t. demand t >> some r) v)

write_file-writable :
    (l : Libraries) (writable : Bool) (r : Registry) (file : File)
    → write_file l writable r ≡ some file
    → writable ≡ true
unfolding write_file
write_file-writable l true r file e = refl
write_file-writable l false r file e = cc

-- Where hashes have the shape of one, a registry is written exactly if the file can be written and
-- the registry is valid; and whenever one is written, the file that it gives is read back as that
-- registry.
pub write_file_iff :
    (l : Libraries) (writable : Bool) (r : Registry)
    → IsHash l
    → (((file : File) × (write_file l writable r ≡ some file))
        ↔ ((writable ≡ true) × (registry_valid l r ≡ true)))
      × ((file : File) → write_file l writable r ≡ some file → read_file l file ≡ some r)
write_file_iff l writable r hashed = (
  (
    λ h.
        let (file, e) = h in
        (
          write_file-writable l writable r file e,
          (write_file-checked l writable r file hashed e).0,
        ),
    λ h. let (w, v) = h in (json (registry_value l r), rw w (write_file-valid l r hashed v)),
  ),
  λ file e.
      let (v, same) = write_file-checked l writable r file hashed e in
      rw same (read_file-registry_value l r hashed v),
)
