-- ===== src/Service.antt =====
-- `ChimeService` of chime/src/service/chime_service.cpp, with the readings of
-- chime/src/network/linux_wifi_monitor.cpp: the callbacks of the MQTT client. What the service
-- does to the outside is a list of effects; the log is left out.
pub mod Startup
pub mod Rounds
pub mod Callbacks
use virtualchime.Base.{
  ℕ, ◌==◌, ◌+◌, ◌%◌, ◌^◌, Bool, true, false, not, ◌&&◌, ◌||◌, List, [], ◌∷◌, ◌++◌, Option, none,
  some, map, if◌then◌else◌, Bytes, codes, bytes_eq, ℤ, pos, negsuc,
}
use virtualchime.Text.{trim}
use virtualchime.Topic.{topic_matches_filter}
use virtualchime.ChimeConfig.{ChimeConfig}
use virtualchime.Observed.{Observed, TopicFiles, PersistEnv, record_observed_topic}

pub record WifiState : Type 0 where
  pub interface_present : Bool
  pub operstate : Bytes
  pub carrier : ℤ

unfoldable pub eq_ℤ : ℤ → ℤ → Bool
eq_ℤ (pos a) (pos b) = a == b
eq_ℤ (pos a) (negsuc b) = false
eq_ℤ (negsuc a) (pos b) = false
eq_ℤ (negsuc a) (negsuc b) = a == b

-- `ReadTrimmedFile`, on the first line of a file, none where it cannot be opened.
abbrev pub read_trimmed_file : Option Bytes → Bytes
read_trimmed_file none = []
read_trimmed_file (some line) = trim line

abbrev carrier_of : Bytes → ℤ
carrier_of raw =
    if bytes_eq raw (codes "0") then pos 0 else if bytes_eq raw (codes "1") then pos 1 else negsuc 0

-- `LinuxWifiMonitor::ReadState`: on another system it gives nothing. The arguments are the first
-- lines of operstate and carrier, none where the file cannot be opened.
unfoldable pub read_state : Bool → Option Bytes → Option Bytes → Option WifiState
unfolding trim bytes_eq
read_state false operstate carrier = none
read_state true none carrier =
    some record { interface_present = false; operstate = codes "unknown"; carrier = negsuc 0 }
read_state true (some operstate) carrier = some record {
  interface_present = true;
  operstate = trim operstate;
  carrier = carrier_of (read_trimmed_file carrier);
}

-- `WifiStateIsConnected`.
unfoldable pub wifi_state_is_connected : Option WifiState → Bool
unfolding bytes_eq eq_ℤ
wifi_state_is_connected none = false
wifi_state_is_connected (some state) =
    state.interface_present && (bytes_eq state.operstate (codes "up") && eq_ℤ state.carrier (pos 1))

-- Why a sound is played; the source gives only its path and volume to the player.
pub data Cause : Type 0 where
  ring success failure : Cause

-- Calls of the audio player and of the MQTT client.
pub data Effect : Type 0 where
  play : Cause → Bytes → ℤ → Effect
  subscribe : Bytes → ℤ → Effect
  publish : Bytes → Bytes → Effect
  reconnect : Effect
  disconnect : Effect

-- The members that change. The counters are `unsigned long long`.
pub record ServiceState : Type 0 where
  pub mqtt_connected : Bool
  pub messages_received : ℕ
  pub ring_messages_received : ℕ
  pub loop_errors : ℕ
  pub reconnect_attempts : ℕ
  pub heartbeats_sent : ℕ
  pub clock_was_unsynced : Bool
  pub observed : Observed
  pub files : TopicFiles

-- `fetch_add(1)`.
abbrev pub fetch_add : ℕ → ℕ
fetch_add n = (n + 1) % 2 ^ 64

-- `OnConnect`.
unfoldable pub on_connect : ChimeConfig → ℤ → ServiceState → ServiceState × List Effect
unfolding eq_ℤ
on_connect c rc s = if not (eq_ℤ rc (pos 0)) then (record s { mqtt_connected = false }, []) else (
  record s { mqtt_connected = true },
  map (λ topic. subscribe topic c.mqtt_subscribe_qos) c.topics,
)

-- `OnDisconnect`.
unfoldable pub on_disconnect : ℤ → ServiceState → ServiceState
on_disconnect rc s = record s { mqtt_connected = false }

-- `RingTopicMatches`.
abbrev pub ring_topic_matches : ChimeConfig → Bytes → Bool
ring_topic_matches c topic = topic_matches_filter c.ring_topic topic

-- The state of `OnMessage` behind `RecordObservedTopic`.
abbrev received : PersistEnv → Bytes → ServiceState → ServiceState
received env topic s = record s {
  messages_received = fetch_add s.messages_received;
  observed = (record_observed_topic env topic s.observed s.files).0;
  files = (record_observed_topic env topic s.observed s.files).1;
}

-- `OnMessage`.
unfoldable pub on_message :
    ChimeConfig → PersistEnv → Bytes → ServiceState → ServiceState × List Effect
unfolding record_observed_topic topic_matches_filter
on_message c env topic s =
    if c.audio_enabled && ring_topic_matches c topic
    then (
      record (received env topic s) { ring_messages_received = fetch_add s.ring_messages_received },
      play ring c.sound_path c.volume_bell ∷ [],
    )
    else (received env topic s, [])

-- What the client's loop calls back.
pub data Callback : Type 0 where
  connected : ℤ → Callback
  disconnected : ℤ → Callback
  message : PersistEnv → Bytes → Callback

unfoldable pub handle : ChimeConfig → Callback → ServiceState → ServiceState × List Effect
unfolding on_connect on_disconnect on_message
handle c (connected rc) s = on_connect c rc s
handle c (disconnected rc) s = (on_disconnect rc s, [])
handle c (message env topic) s = on_message c env topic s

pub handle_all : ChimeConfig → List Callback → ServiceState → ServiceState × List Effect
unfolding handle
handle_all c [] s = (s, [])
handle_all c (callback ∷ callbacks) s =
    let (s', effects) = handle c callback s in
    let (s'', more) = handle_all c callbacks s' in (s'', effects ++ more)

-- `PlayNotification`.
unfoldable pub play_notification : ChimeConfig → Cause → List Effect
play_notification c cause =
    let success_path = c.notification_success_sound_path in
    let failure_path = c.notification_failure_sound_path in
    if not c.audio_enabled then [] else elim cause [
      | success ↦ play success success_path c.volume_notifications ∷ []
      | failure ↦ play failure failure_path c.volume_notifications ∷ []
      | ring ↦ []
    ]
