-- ===== src/Lib.antt =====
-- Verification of virtualchime: the door chime's service (chime/src/service), its configuration
-- (chime/src/config, common/include/vc/config), its player (chime/src/audio) and its web daemon
-- (chime/src/webd).
--
-- The service reads chime.conf, connects to the MQTT broker, plays a sound for a message on the
-- ring topic, and records the topics it sees in a file. The web daemon validates a request, writes
-- wpa_supplicant.conf and chime.conf, and starts jobs that restart the network and the service,
-- which then reads what the store wrote. The daemon serves an interface over HTTP: a request is read
-- from the connection, routed to a handler, and answered with JSON text or a file. It also answers
-- mDNS queries for its host name.
--
-- Files, with the code they model:
--   Base: lists, options, byte strings and `int` values that all parts share.
--   Text: `trim`, `split_csv`, `parse_bool` of common/include/vc/config/kv_config.h, `ParseInt` of
--     chime/src/webd/config_store.cpp, `Join`, `EscapeShellDoubleQuotes` and `SanitizePayloadForLog` of common/src/util/strings.cpp,
--     `ToLower` of chime/src/webd/string_utils.cpp, `getline`, `strtol` and `std::to_string`.
--   Topic: `SplitTopic`, `TopicMatchesFilter` of chime/src/service/chime_service.cpp.
--   Observed: `RecordObservedTopic`, `LoadObservedTopics`, `PersistObservedTopics` of the same file.
--   KvConfig: `vc::config::load` of kv_config.h.
--   ChimeConfig: the fields and `LoadConfig` of chime/src/config/chime_config.cpp, with `parse_int` of
--     kv_config.h, whose read of a destroyed string is a parameter.
--   ConfigStore: chime/src/webd/config_store.cpp. Validate is `ValidateRequest`, AtomicWrite
--     `AtomicWriteFile`, ChimeFile the reading and rewriting of chime.conf, Wpa that of
--     wpa_supplicant.conf; ConfigStore itself composes them to `LoadCoreConfig` and
--     `SaveCoreConfig`; at each read inside of a save the file may fail to open.
--   ApplyManager: chime/src/webd/apply_manager.cpp. The threads that `StartApply` detaches are a
--     list in Steps, and any of them may step next; Diagram is the job as a client sees it.
--   Service: `ChimeService` of chime/src/service/chime_service.cpp and `ReadState` of
--     chime/src/network/linux_wifi_monitor.cpp. Service has the callbacks, Startup the startup
--     notification, Rounds the loop of `Run`.
--   WifiScan: the wpa_cli scan of chime/src/webd/wifi_scan.cpp. The results of the commands are given;
--     `std::sort` leaves the order of equally strong networks open, the model takes an insertion sort.
--   Json: chime/src/webd/json.cpp, the lexical parsers and the writers; Json.Parser is the recursive
--     part of `Parser`. Render is the text of a document as the handlers write it.
--   WebServer: chime/src/webd/web_server.cpp. Request is `ReadHttpRequest` and `WriteAllSsl`, Route
--     `Route` and `HandleConnection`, CoreConfig the two handlers over the store and the apply
--     manager, Fields the readers of the payload, Texts the bodies, Sounds and Selection the handlers
--     of ring sounds, Ui `TryServeExternalUi`, Names the tests on names and paths.
--   Mdns: the names, queries and answers of chime/src/webd/mdns.cpp.
--   Audio: chime/src/audio/aplay_audio_player.cpp. Audio has the scaling of WAV files, Player the
--     commands of the playback thread, and the steps of `Play` and of that thread on `playing_`: the
--     `compare_exchange`, the checks, the join and start under the mutex, the clearing, the exit.
--   Examples: the theorems at concrete inputs.
--
-- Conventions: a `std::string` is a list of bytes (numbers), `std::set`, `std::unordered_set` and
-- `std::map` are lists. A file is its content, or missing, or not readable. The outcomes of system
-- calls are environment records (`WriteEnv`, `PersistEnv`, the fields of `Round`); calls of `write`
-- behind the outcomes that `WriteEnv` lists write all that is left. `long` has 32 bits, as on the
-- Raspberry Pi that the image is built for, and `strtol` saturates. The counters and job ids wrap at
-- 2 ^ 64. Times are nanoseconds of the steady clock. The macros of sys/wait.h are parameters.
-- Error texts that the store builds with `strerror` are constructors. The doubles of JSON numbers
-- are a parameter type, with `strtod` and the conversion to `int` as functions; the rounded product
-- of a sample and the gain is a function. A path of `std::filesystem` is its text, cut at slashes.
--
-- Fuel: `csv_loop`, `lines_loop` and `split_loop` are loops that take at least one byte off the text
-- in each round; their fuel is the length of the text (one more for `split_loop`), and the round
-- trips hold at that fuel. `string_loop` has the length of the text, `parse_value` and its loops twice
-- the length and one, `scan_chunks` the size of the file, `encode_loop` the length of the name, and
-- `decode_loop` nine times the length of the packet and one more; that each is enough is proved.
--
-- Not modelled: logging, the entry points, the other wifi scans, the MQTT client, and the sockets, TLS
-- and threads of the web server and of the mDNS responder, which are calls of libraries. The page that
-- is built in is a parameter. The calls of the player and of the MQTT client are effects of the
-- service, and their results are inputs of its rounds.
pub mod Base
pub mod Text
pub mod Topic
pub mod Observed
pub mod KvConfig
pub mod ChimeConfig
pub mod ConfigStore
pub mod ApplyManager
pub mod Service
pub mod WifiScan
pub mod Json
pub mod WebServer
pub mod Mdns
pub mod Audio
pub mod Examples
