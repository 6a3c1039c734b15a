-- ===== src/KvConfig.antt =====
-- The generic `key=value` loader, `vc::config::load` of common/include/vc/config/kv_config.h.
-- The file is its content, none where it cannot be opened.
pub mod Invariant
use virtualchime.Base.{
  ℕ, Bool, true, false, not, ◌&&◌, ◌||◌, List, [], ◌∷◌, Option, none, some, if◌then◌else◌, is_empty,
  Bytes, bytes_eq, split_at, map, ◌==◌,
}
use virtualchime.Text.{trim, get_lines}

-- A setter returns the target, which it may have changed even where it returns false.
pub record Field (T : Type 0) : Type 0 where
  pub key : Bytes
  pub setter : T → Bytes → T × Bool
  pub required : Bool

pub data LoadResult (T : Type 0) : Type 0 where
  loaded : T → LoadResult T
  open_failed : LoadResult T
  missing_key : Bytes → LoadResult T

abbrev pub starts_with_hash : Bytes → Bool
starts_with_hash [] = false
starts_with_hash (c ∷ cs) = c == b'#'

-- The key and the value of a line, none where the loop goes on to the next line.
unfoldable pub key_value : Bytes → Option (Bytes × Bytes)
unfolding trim split_at
key_value line =
    let cleaned = trim line in
    if is_empty cleaned || starts_with_hash cleaned then none else elim (split_at b'=' cleaned) [
      | none ↦ none
      | some (key, value) ↦ some (trim key, trim value)
    ]

module _ {T : Type 0} where
  -- The `for` over the fields: the first field with the key is set, and marked if that worked.
  pub set_field : List (Field T) → Bytes → Bytes → T → List Bool → T × List Bool
  unfolding bytes_eq
  set_field [] key value config seen = (config, seen)
  set_field (f ∷ fs) key value config [] = (config, [])
  set_field (f ∷ fs) key value config (s ∷ seen) = elim (bytes_eq key f.key) [
    | true ↦ ((f.setter config value).0, ((f.setter config value).1 || s) ∷ seen)
    | false ↦ (let (config', seen') = set_field fs key value config seen in (config', s ∷ seen'))
  ]

  abbrev pub set_line : List (Field T) → T × List Bool → Option (Bytes × Bytes) → T × List Bool
  set_line fields (config, seen) none = (config, seen)
  set_line fields (config, seen) (some (key, value)) = set_field fields key value config seen

  pub read_lines : List (Field T) → List Bytes → T × List Bool → T × List Bool
  unfolding set_field key_value
  read_lines fields [] state = state
  read_lines fields (line ∷ lines) state =
      read_lines fields lines (set_line fields state (key_value line))

  -- The first required field that no line set. `seen` has one entry for each field.
  pub find_missing : List (Field T) → List Bool → Option Bytes
  find_missing [] seen = none
  find_missing (f ∷ fs) [] =
      let rest = find_missing fs [] in if f.required then some f.key else rest
  find_missing (f ∷ fs) (s ∷ seen) =
      let rest = find_missing fs seen in if f.required && not s then some f.key else rest

  abbrev pub load_state : List (Field T) → T × List Bool → LoadResult T
  load_state fields (config, seen) = elim (find_missing fields seen) [
    | none ↦ loaded config
    | some key ↦ missing_key key
  ]

  unfoldable pub load : List (Field T) → T → Option Bytes → LoadResult T
  unfolding read_lines find_missing get_lines
  load fields defaults none = open_failed
  load fields defaults (some content) =
      load_state fields (read_lines fields (get_lines content) (defaults, map (λ f. false) fields))
