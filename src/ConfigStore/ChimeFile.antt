-- ===== src/ConfigStore/ChimeFile.antt =====
-- chime.conf as the configuration store reads and rewrites it: `ExtractConfigValue`, `ParseInt`,
-- `ParseBool`, and the line rewriting of `SaveChimeConfig` in chime/src/webd/config_store.cpp.
pub mod Extract
pub mod Update
pub mod Written
use virtualchime.Base.{
  ℕ, Bool, true, false, not, ◌&&◌, ◌||◌, List, [], ◌∷◌, ◌++◌, Option, none, some, if◌then◌else◌,
  is_empty, Bytes, codes, bytes_eq, member, strip_prefix, split_at, ℤ, pos, leb_ℤ,
}
use virtualchime.Text.{
  trim, parse_int, parse_bool, bool_of_word, to_lower, to_string, join_csv, unlines,
}
use virtualchime.KvConfig.{key_value, starts_with_hash}
use virtualchime.ConfigStore.Types.{CoreConfig, CoreConfigSnapshot, SaveRequest}

-- What one line gives for the prefix `key=`, none where the loop leaves `output` alone.
unfoldable pub line_value : Bytes → Bytes → Option Bytes
unfolding trim strip_prefix
line_value key line =
    let trimmed = trim line in
    if is_empty trimmed || starts_with_hash trimmed
    then none
    else elim (strip_prefix (key ++ codes "=") trimmed) [
      | none ↦ none
      | some value ↦ some (trim value)
    ]

pub extract_loop : Bytes → Bytes → List Bytes → Bytes
unfolding line_value
extract_loop key output [] = output
extract_loop key output (line ∷ lines) =
    extract_loop key (elim (line_value key line) [ none ↦ output | some value ↦ value ]) lines

unfoldable pub extract_config_value : List Bytes → Bytes → Bytes
unfolding extract_loop
extract_config_value lines key = extract_loop key [] lines

-- `ParseInt`, none where it returns false.
unfoldable pub store_parse_int : Bytes → ℕ → ℕ → Option ℤ
unfolding trim parse_int
store_parse_int text min_value max_value =
    let trimmed = trim text in
    if is_empty trimmed then none else parse_int min_value max_value trimmed

-- `ParseBool`, none where it returns false.
unfoldable pub store_parse_bool : Bytes → Option Bool
unfolding trim bool_of_word to_lower
store_parse_bool text =
    let trimmed = trim text in if is_empty trimmed then none else bool_of_word (to_lower trimmed)

unfoldable pub bool_to_config : Bool → Bytes
bool_to_config value = if value then codes "true" else codes "false"

-- `std::map<std::string, std::string>`, in the order of the keys.
abbrev pub Replacements : Type 0
Replacements = List (Bytes × Bytes)

unfoldable pub find : Bytes → Replacements → Option Bytes
unfolding bytes_eq
find key [] = none
find key ((k, v) ∷ rest) = let later = find key rest in if bytes_eq key k then some v else later

-- The key whose value replaces the line, and that value; none where the line stays.
abbrev replaced : Replacements → Option (Bytes × Bytes) → Option (Bytes × Bytes)
replaced replacements none = none
replaced replacements (some (key, old)) = elim (find key replacements) [
  | none ↦ none
  | some value ↦ some (key, value)
]

pub replacement : Replacements → Bytes → Option (Bytes × Bytes)
unfolding find key_value
replacement replacements line = replaced replacements (key_value line)

abbrev pub assignment : Bytes → Bytes → Bytes
assignment key value = key ++ (codes "=" ++ value)

-- The loop over the lines: the new lines, and the keys seen.
pub rewrite_lines : Replacements → List Bytes → List Bytes × List Bytes
unfolding replacement
rewrite_lines replacements [] = ([], [])
rewrite_lines replacements (line ∷ lines) =
    let (rest, seen) = rewrite_lines replacements lines in
    elim (replacement replacements line) [
      | none ↦ (line ∷ rest, seen)
      | some (key, value) ↦ (assignment key value ∷ rest, key ∷ seen)
    ]

-- The keys that no line had, in the order of the map.
pub missing_lines : List Bytes → Replacements → List Bytes
unfolding member
missing_lines seen [] = []
missing_lines seen ((key, value) ∷ rest) =
    let later = missing_lines seen rest in
    if member key seen then later else assignment key value ∷ later

unfoldable pub update_lines : Replacements → List Bytes → List Bytes
unfolding rewrite_lines missing_lines
update_lines replacements lines =
    let (rest, seen) = rewrite_lines replacements lines in rest ++ missing_lines seen replacements

-- The password that is written: it is forgotten when the user name goes or changes, and kept when
-- the request gives none or a blank one.
unfoldable pub next_mqtt_password : SaveRequest → CoreConfigSnapshot → Bytes
unfolding bytes_eq
next_mqtt_password request existing =
    let kept =
      if bytes_eq request.config.mqtt_username existing.config.mqtt_username
      then existing.config.mqtt_password
      else [] in
    if is_empty request.config.mqtt_username then [] else elim request.mqtt_password [
      | none ↦ kept
      | some password ↦ if is_empty password then kept else password
    ]

unfoldable pub replacements_of : CoreConfig → Bytes → Replacements
unfolding to_string bool_to_config
replacements_of c mqtt_password =
    (codes "mqtt_client_id", c.mqtt_client_id)
    ∷ (codes "mqtt_host", c.mqtt_host)
    ∷ (codes "mqtt_password", mqtt_password)
    ∷ (codes "mqtt_port", to_string c.mqtt_port)
    ∷ (codes "mqtt_tls_ca_file", c.mqtt_tls_ca_file)
    ∷ (codes "mqtt_tls_cert_file", c.mqtt_tls_cert_file)
    ∷ (codes "mqtt_tls_enabled", bool_to_config c.mqtt_tls_enabled)
    ∷ (codes "mqtt_tls_key_file", c.mqtt_tls_key_file)
    ∷ (codes "mqtt_tls_validate_certificate", bool_to_config c.mqtt_tls_validate_certificate)
    ∷ (codes "mqtt_topics", join_csv c.mqtt_topics)
    ∷ (codes "mqtt_username", c.mqtt_username)
    ∷ (codes "notification_failure_sound_path", c.notification_failure_sound_path)
    ∷ (codes "notification_success_sound_path", c.notification_success_sound_path)
    ∷ (codes "ring_topic", c.ring_topic)
    ∷ (codes "volume_bell", to_string c.volume_bell)
    ∷ (codes "volume_notifications", to_string c.volume_notifications)
    ∷ (codes "volume_other", to_string c.volume_other)
    ∷ []

-- `JoinLines`.
abbrev pub join_lines : List Bytes → Bytes
join_lines [] = codes "\n"
join_lines (line ∷ lines) = unlines (line ∷ lines)
