-- ===== src/Observed.antt =====
-- Observed topics: `RecordObservedTopic`, `LoadObservedTopics`, `PersistObservedTopics` of
-- chime/src/service/chime_service.cpp. The files are their contents; each call of the file
-- system that can fail has its outcome in `PersistEnv`.
pub mod Invariant
pub mod Persistence
use virtualchime.Base.{
  ℕ, Bool, true, false, not, ◌||◌, List, [], ◌∷◌, ◌++◌, Option, none, some, ltb, if◌then◌else◌,
  length, is_empty, Bytes, bytes_eq, member, erase,
}
use virtualchime.Text.{trim, get_lines, unlines}

pub record Observed : Type 0 where
  pub topics : List Bytes
  pub topics_set : List Bytes
  pub loaded : Bool

abbrev pub initial : Observed
initial = record { topics = []; topics_set = []; loaded = false }

abbrev pub max_observed_topics : ℕ
max_observed_topics = 256

-- `while (size > kMaxObservedTopics)`: the oldest topic leaves both containers.
pub evict : List Bytes → List Bytes → List Bytes × List Bytes
evict [] topics_set = ([], topics_set)
evict (t ∷ ts) topics_set = elim (ltb max_observed_topics (length (t ∷ ts))) [
  | true ↦ evict ts (erase t topics_set)
  | false ↦ (t ∷ ts, topics_set)
]

-- The `getline` loop of `LoadObservedTopics`.
pub load_loop : List Bytes → List Bytes → List Bytes → List Bytes × List Bytes
load_loop [] topics topics_set = (topics, topics_set)
load_loop (line ∷ lines) topics topics_set =
    let topic = trim line in
    let skip = is_empty topic || member topic topics_set in
    load_loop lines (if skip then topics else topics ++ topic ∷ [])
      (if skip then topics_set else topic ∷ topics_set)

abbrev finish_load : List Bytes × List Bytes → Observed
finish_load (topics, topics_set) =
    let (kept, kept_set) = evict topics topics_set in
    record { topics = kept; topics_set = kept_set; loaded = true }

-- The argument is the file's content, none where it cannot be opened.
unfoldable pub load_observed_topics : Option Bytes → Observed
unfolding load_loop evict member
load_observed_topics none = record { topics = []; topics_set = []; loaded = true }
load_observed_topics (some content) = finish_load (load_loop (get_lines content) [] [])

pub record TopicFiles : Type 0 where
  pub main : Option Bytes
  pub temp : Option Bytes

-- `write_ok` is `out.good()` behind the flush, `partial` what a failed write left in the file.
pub record PersistEnv : Type 0 where
  pub create_ok : Bool
  pub open_ok : Bool
  pub write_ok : Bool
  pub partial : Bytes
  pub rename_ok : Bool
  pub remove_ok : Bool

pub data PersistError : Type 0 where
  create_failed open_failed write_failed rename_failed : PersistError

unfoldable pub persist_observed_topics :
    PersistEnv → List Bytes → TopicFiles → TopicFiles × Option PersistError
persist_observed_topics env topics files =
    if not env.create_ok
    then (files, some create_failed)
    else if not env.open_ok
    then (files, some open_failed)
    else if not env.write_ok
    then (record files { temp = some env.partial }, some write_failed)
    else if not env.rename_ok
    then (
      record files { temp = if env.remove_ok then none else some (unlines topics) },
      some rename_failed,
    )
    else (record { main = some (unlines topics); temp = none }, none)

-- `push_back` and the eviction loop, for a topic that `insert` put into the set.
pub inserted : Bytes → Observed → Observed
unfolding evict
inserted topic s = record s {
  topics = (evict (s.topics ++ topic ∷ []) (topic ∷ s.topics_set)).0;
  topics_set = (evict (s.topics ++ topic ∷ []) (topic ∷ s.topics_set)).1;
}

-- None where the set had the topic, and nothing is done.
pub insert_topic : Bytes → Observed → Option Observed
unfolding inserted member
insert_topic topic s = if member topic s.topics_set then none else some (inserted topic s)

abbrev pub loaded_state : Option Bytes → Observed → Observed
loaded_state content s = if s.loaded then s else load_observed_topics content

abbrev record_loaded : PersistEnv → Observed → TopicFiles → Option Observed → Observed × TopicFiles
record_loaded env s files none = (s, files)
record_loaded env s files (some s') = (s', (persist_observed_topics env s'.topics files).0)

unfoldable pub record_observed_topic :
    PersistEnv → Bytes → Observed → TopicFiles → Observed × TopicFiles
unfolding insert_topic persist_observed_topics load_observed_topics
record_observed_topic env topic s files =
    if is_empty topic
    then (s, files)
    else record_loaded env (loaded_state files.main s) files
        (insert_topic topic (loaded_state files.main s))
