-- ===== src/Service/Callbacks.antt =====
-- What the callbacks of chime/src/service/chime_service.cpp add up to.
use virtualchime.Base.{
  Bool, true, false, ◌&&◌, List, [], ◌∷◌, ◌≡◌, ◌↔◌, refl, sym, ap, ◌∙◌, arith, all, if◌then◌else◌,
  Bytes, pos,
}
use virtualchime.ChimeConfig.{ChimeConfig}
use virtualchime.Observed.{PersistEnv}
use virtualchime.Text.{join}
use virtualchime.Topic.Matching.{is_level, Matches, topic_matches_filter_iff}
use virtualchime.Service.{
  ServiceState, Effect, play, ring, Callback, connected, disconnected, message, on_connect,
  on_disconnect, on_message, handle, handle_all, ring_topic_matches, eq_ℤ,
}

-- Whether the client is connected after the callbacks, if it was `before`.
pub connection : List Callback → Bool → Bool
connection [] before = before
connection (connected rc ∷ callbacks) before = connection callbacks (eq_ℤ rc (pos 0))
connection (disconnected rc ∷ callbacks) before = connection callbacks false
connection (message env topic ∷ callbacks) before = connection callbacks before

handle-connected :
    (c : ChimeConfig) (callback : Callback) (s : ServiceState)
    → (handle c callback s).0.mqtt_connected ≡ connection (callback ∷ []) s.mqtt_connected
unfolding handle on_connect on_disconnect on_message connection
handle-connected c (connected rc) s = ground arith
handle-connected c (disconnected rc) s = refl
handle-connected c (message env topic) s = ground arith

connection-cons :
    (callback : Callback) (callbacks : List Callback) (before : Bool)
    → connection (callback ∷ callbacks) before
      ≡ connection callbacks (connection (callback ∷ []) before)
unfolding connection
connection-cons (connected rc) ks before = refl
connection-cons (disconnected rc) ks before = refl
connection-cons (message env topic) ks before = refl

-- After any callbacks `mqtt_connected_` says how the last connect or disconnect ended, and is as
-- before if there was none.
handle_all-mqtt_connected :
    (c : ChimeConfig) (callbacks : List Callback) (s : ServiceState)
    → (handle_all c callbacks s).0.mqtt_connected ≡ connection callbacks s.mqtt_connected
unfolding handle_all connection
handle_all-mqtt_connected c [] s = refl
handle_all-mqtt_connected c (k ∷ ks) s =
    handle_all-mqtt_connected c ks (handle c k s).0
    ∙ ap (connection ks) (handle-connected c k s)
    ∙ sym (connection-cons k ks s.mqtt_connected)

rings :
    (a m : Bool) (M : Type 0) (s t : ServiceState) (e : Effect)
    → (m ≡ true) ↔ M
    → ((if◌then◌else◌ {A = ServiceState × List Effect} (a && m) (s, e ∷ []) (t, [])).1 ≡ e ∷ [])
      ↔ ((a ≡ true) × M)
rings true true M s t e h = (λ p. (refl, h.0 refl), λ p. refl)
rings true false M s t e h =
    (λ p. absurd (cc p), λ p. let impossible = h.1 p.1 in absurd (cc impossible))
rings false m M s t e h = (λ p. absurd (cc p), λ p. let impossible = p.0 in absurd (cc impossible))

-- A message rings exactly when audio is enabled and the levels of the ring topic's filter accept
-- the levels of the message's topic; no level holds a slash.
pub on_message-ring :
    (c : ChimeConfig) (env : PersistEnv) (s : ServiceState) (f : Bytes) (fs : List Bytes)
    (t : Bytes) (ts : List Bytes)
    → c.ring_topic ≡ join (b'/' ∷ []) (f ∷ fs)
    → all is_level (f ∷ fs) ≡ true
    → all is_level (t ∷ ts) ≡ true
    → ((on_message c env (join (b'/' ∷ []) (t ∷ ts)) s).1
        ≡ play ring c.sound_path c.volume_bell ∷ [])
      ↔ ((c.audio_enabled ≡ true) × Matches (f ∷ fs) (t ∷ ts))
unfolding on_message
on_message-ring c env s f fs t ts same h k =
    let topic = join (b'/' ∷ []) (t ∷ ts) in
    let matches : (ring_topic_matches c topic ≡ true) ↔ Matches (f ∷ fs) (t ∷ ts) =
      rw same (topic_matches_filter_iff f fs t ts h k) in
    rings c.audio_enabled (ring_topic_matches c topic) (Matches (f ∷ fs) (t ∷ ts)) _ _
      (play ring c.sound_path c.volume_bell) matches
