-- ===== src/Examples/Texts.antt =====
-- Concrete texts for chime/src/service/chime_service.cpp and common/include/vc/config/kv_config.h.
use virtualchime.Base.{Bool, true, [], ◌∷◌, ◌≡◌, ◌↔◌, refl, some, Bytes, codes, pos}
use virtualchime.Text.{split_csv, join_csv, parse_int, join}
use virtualchime.Text.Csv.{AllItems, IsItem, split_csv-join_csv}
use virtualchime.Base.{all}
use virtualchime.Text.Escape.{
  escape_shell_double_quotes, unescape_shell, unescape-escape_shell, is_print,
  sanitize_payload_for_log, sanitize_payload_for_log_printable,
}
use virtualchime.Topic.{topic_matches_filter}
use virtualchime.Topic.Matching.{Matches, topic_matches_filter_iff}
use virtualchime.KvConfig.{loaded}
use virtualchime.ChimeConfig
use virtualchime.ChimeConfig.{ChimeConfig, load_config}
use virtualchime.ChimeConfig.Ranges.{load_config_ranges, Ranged}
use virtualchime.ChimeConfig.Parsed.{InRange}

bell-IsItem : IsItem (codes "bell")
bell-IsItem = record {
  filled = refl;
  no_comma = refl;
  trimmed = record { starts = refl; ends = refl };
}

split_csv-join_csv_example :
    split_csv (join_csv (codes "bell" ∷ codes "bell" ∷ [])) ≡ codes "bell" ∷ codes "bell" ∷ []
split_csv-join_csv_example =
    split_csv-join_csv (codes "bell" ∷ codes "bell" ∷ [])
      (AllItems.cons bell-IsItem (AllItems.cons bell-IsItem AllItems.nil))

parsed_80 : parse_int 0 100 (codes "80") ≡ some (pos 80)
unfolding parse_int
parsed_80 = refl

topic_matches_filter_iff_example :
    (topic_matches_filter
        (join (b'/' ∷ []) (codes "home" ∷ codes "+" ∷ codes "#" ∷ []))
        (join (b'/' ∷ []) (codes "home" ∷ codes "door" ∷ codes "bell" ∷ []))
      ≡ true)
    ↔ Matches
        (codes "home" ∷ codes "+" ∷ codes "#" ∷ [])
        (codes "home" ∷ codes "door" ∷ codes "bell" ∷ [])
topic_matches_filter_iff_example =
    topic_matches_filter_iff (codes "home") (codes "+" ∷ codes "#" ∷ []) (codes "home")
      (codes "door" ∷ codes "bell" ∷ []) refl refl

abbrev small_conf : Bytes
small_conf = codes "mqtt_host=h\nmqtt_port = 1883\n# bell\nmqtt_topics=a, b\n"

abbrev small_config : ChimeConfig
small_config = record ChimeConfig.defaults {
  host = codes "h";
  port = pos 1883;
  topics = codes "a" ∷ codes "b" ∷ [];
}

-- The destroyed copies of the numbers are still as they were.
abbrev kept_copy : Bytes → Bool
kept_copy value = true

small_loads : load_config kept_copy (some small_conf) ≡ loaded small_config
unfolding load_config
small_loads = refl

load_config_ranges_example : InRange 1 65535 small_config.port × Ranged small_config
load_config_ranges_example = load_config_ranges kept_copy (some small_conf) small_loads

unescape-escape_shell_example :
    unescape_shell (escape_shell_double_quotes (codes "a\"$(b)`\\")) ≡ (codes "a\"$(b)`\\", true)
unescape-escape_shell_example = unescape-escape_shell (codes "a\"$(b)`\\")

sanitize_payload_for_log_printable_example :
    all is_print (sanitize_payload_for_log (codes "a\nb\t")) ≡ true
sanitize_payload_for_log_printable_example = sanitize_payload_for_log_printable (codes "a\nb\t")
