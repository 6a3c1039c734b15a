-- ===== src/Topic.antt =====
-- MQTT topic filters: `SplitTopic`, `TopicMatchesFilter` of chime/src/service/chime_service.cpp.
pub mod Matching
use virtualchime.Base.{
  ℕ, zero, suc, Bool, true, false, not, ◌&&◌, List, [], ◌∷◌, Option, none, some, if◌then◌else◌,
  length, is_empty, Bytes, codes, bytes_eq, split_at,
}

-- The loop of `SplitTopic`, on the text from `start` on. Each round takes a slash off it.
pub split_loop : ℕ → Bytes → List Bytes
split_loop zero s = []
split_loop (suc fuel) s = elim (split_at b'/' s) [
  | none ↦ s ∷ []
  | some (level, []) ↦ level ∷ [] ∷ []
  | some (level, c ∷ cs) ↦ level ∷ split_loop fuel (c ∷ cs)
]

unfoldable pub split_topic : Bytes → List Bytes
unfolding split_loop split_at
split_topic topic = split_loop (suc (length topic)) topic

-- The loop of `TopicMatchesFilter` over the levels from the two indices on.
pub match_levels : List Bytes → List Bytes → Bool
match_levels [] topic_levels = is_empty topic_levels
match_levels (filter_level ∷ filter_levels) topic_levels =
    elim (bytes_eq filter_level (codes "#")) [
      | true ↦ is_empty filter_levels
      | false ↦ elim topic_levels [
        | [] ↦ false
        | topic_level ∷ rest ↦
            elim (not (bytes_eq filter_level (codes "+"))
              && not (bytes_eq filter_level topic_level)) [
                | true ↦ false
                | false ↦ match_levels filter_levels rest
              ]
      ]
    ]

unfoldable pub topic_matches_filter : Bytes → Bytes → Bool
unfolding split_topic match_levels bytes_eq
topic_matches_filter filter topic = match_levels (split_topic filter) (split_topic topic)
