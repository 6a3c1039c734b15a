-- ===== src/ConfigStore/Validate/Accepts.antt =====
-- `ValidateRequest` reports no error exactly for the requests that meet the documented limits.
use virtualchime.Base.{
  ℕ, ◌+◌, ◌≤◌, Bool, true, false, not, ◌&&◌, ◌||◌, List, [], ◌∷◌, ◌++◌, ◌≡◌, ◌↔◌, ◌⊎◌, inl, inr,
  refl, arith, Option, none, some, ltb, length, is_empty, Bytes, contains, ℤ, pos, negsuc,
}
use virtualchime.Text.{trim}
use virtualchime.ConfigStore.Types.{CoreConfig, SaveRequest}
use virtualchime.ConfigStore.Validate.{
  is_topic_valid, check, check_two, given, differ, topic_errors, topics_errors, sound_path_errors,
  outside, connection_errors, tls_errors, sound_errors, validate_request,
}

-- A text of at least `low` and at most `high` bytes.
abbrev pub Sized : ℕ → ℕ → Bytes → Type 0
Sized low high s = (low ≤ length s) × (length s ≤ high)

abbrev pub Between : ℕ → ℕ → ℤ → Type 0
Between low high v = (n : ℕ) × (v ≡ pos n) × (low ≤ n) × (n ≤ high)

abbrev pub Given : Option Bytes → (Bytes → Type 0) → Type 0
Given none P = Unit
Given (some p) P = P p

abbrev pub IsTopic : Bytes → Type 0
IsTopic t = (1 ≤ length t) × (contains b' ' t ≡ false) × (contains b'\t' t ≡ false)

abbrev pub AllTopics : List Bytes → Type 0
AllTopics [] = Unit
AllTopics (t ∷ ts) = IsTopic t × AllTopics ts

abbrev pub IsSoundPath : Bytes → Type 0
IsSoundPath s = ((contains b'\n' s ≡ false) × (contains b'\r' s ≡ false)) × Sized 1 256 (trim s)

-- Both are empty, or neither is.
abbrev pub Together : Bytes → Bytes → Type 0
Together a b = is_empty a ≡ is_empty b

abbrev pub ConnectionOk : SaveRequest → Type 0
ConnectionOk r =
    Sized 1 32 r.config.wifi_ssid
    × (Given r.wifi_password (λ p. (length p ≡ 0) ⊎ Sized 8 63 p)
        × (((1 ≤ length r.config.mqtt_host) × (contains b' ' r.config.mqtt_host ≡ false))
            × (Between 1 65535 r.config.mqtt_port
                × (Sized 1 128 r.config.mqtt_client_id
                    × ((length r.config.mqtt_username ≤ 128)
                        × (Given r.mqtt_password
                              (λ p. (1 ≤ length r.config.mqtt_username) ⊎ (length p ≡ 0))
                            × Given r.mqtt_password (λ p. length p ≤ 256)))))))

abbrev pub TlsOk : CoreConfig → Type 0
TlsOk c =
    (length c.mqtt_tls_ca_file ≤ 256)
    × ((length c.mqtt_tls_cert_file ≤ 256)
        × ((length c.mqtt_tls_key_file ≤ 256) × Together c.mqtt_tls_cert_file c.mqtt_tls_key_file))

abbrev pub SoundOk : CoreConfig → Type 0
SoundOk c =
    ((1 ≤ length c.mqtt_topics) × AllTopics c.mqtt_topics)
    × (IsTopic c.ring_topic
        × (IsSoundPath c.notification_success_sound_path
            × (IsSoundPath c.notification_failure_sound_path
                × (Between 0 100 c.volume_bell
                    × (Between 0 100 c.volume_notifications × Between 0 100 c.volume_other)))))

append_iff {ℓ} :
    {A : Type ℓ} {P Q : Type 0} (a b : List A)
    → (a ≡ []) ↔ P
    → (b ≡ []) ↔ Q
    → (a ++ b ≡ []) ↔ (P × Q)
append_iff [] b p q = (λ e. (p.0 refl, q.0 e), λ h. q.1 h.1)
append_iff (x ∷ a) b p q = (λ e. absurd (cc), λ h. absurd (let e = p.1 h.0 in cc))

check_iff : (b : Bool) (f m : Bytes) → (check b f m ≡ []) ↔ (b ≡ false)
check_iff true f m = (λ e. cc, λ e. cc)
check_iff false f m = (λ e. refl, λ e. refl)

Sized-iff :
    (f m n : Bytes) (high : ℕ) (s : Bytes)
    → (check_two f (is_empty s) m (ltb high (length s)) n ≡ []) ↔ Sized 1 high s
Sized-iff f m n high [] = (λ e. absurd (cc), λ h. absurd (omega arith))
Sized-iff f m n high (c ∷ s) = (λ e. ground arith, λ h. ground arith)

at_most_iff :
    (f m : Bytes) (high : ℕ) (s : Bytes)
    → (check (ltb high (length s)) f m ≡ []) ↔ (length s ≤ high)
at_most_iff f m high s = (λ e. ground arith, λ h. ground arith)

filled_iff :
    (f m n : Bytes) (c : ℕ) (s : Bytes)
    → (check_two f (is_empty s) m (contains c s) n ≡ []) ↔ ((1 ≤ length s) × (contains c s ≡ false))
filled_iff f m n c [] = (λ e. absurd (cc), λ h. absurd (omega (arith, h.0)))
filled_iff f m n c (d ∷ s) = (λ e. ground arith, λ h. ground arith)

Between-iff :
    (f m : Bytes) (low high : ℕ) (v : ℤ)
    → (check (outside v low high) f m ≡ []) ↔ Between low high v
Between-iff f m low high (pos n) = (λ e. (n, refl, ground arith, ground arith), λ h. ground arith)
Between-iff f m low high (negsuc n) = (λ e. absurd (cc), λ h. absurd (cc (h.1)))

password_iff :
    (f m : Bytes) (p : Option Bytes)
    → (check (given p (λ p. not (is_empty p) && (ltb (length p) 8 || ltb 63 (length p)))) f m ≡ [])
      ↔ Given p (λ p. (length p ≡ 0) ⊎ Sized 8 63 p)
password_iff f m none = (λ e. tt, λ h. refl)
password_iff f m (some []) = (λ e. inl refl, λ h. refl)
password_iff f m (some (c ∷ p)) = (λ e. ground arith, λ h. ground arith)

username_iff :
    (f m user : Bytes) (p : Option Bytes)
    → (check (is_empty user && given p (λ p. not (is_empty p))) f m ≡ [])
      ↔ Given p (λ p. (1 ≤ length user) ⊎ (length p ≡ 0))
username_iff f m [] none = (λ e. tt, λ h. refl)
username_iff f m (c ∷ user) none = (λ e. tt, λ h. refl)
username_iff f m [] (some []) = (λ e. inr refl, λ h. refl)
username_iff f m [] (some (c ∷ p)) = (λ e. absurd (cc), λ h. absurd (ground arith))
username_iff f m (c ∷ user) (some p) = (λ e. inl (omega arith), λ h. refl)

given_at_most_iff :
    (f m : Bytes) (p : Option Bytes)
    → (check (given p (λ p. ltb 256 (length p))) f m ≡ []) ↔ Given p (λ p. length p ≤ 256)
given_at_most_iff f m none = (λ e. tt, λ h. refl)
given_at_most_iff f m (some p) = at_most_iff f m 256 p

Together-iff :
    (f m a b : Bytes)
    → (check (differ (not (is_empty a)) (not (is_empty b))) f m ≡ []) ↔ Together a b
Together-iff f m a b = (λ e. ground arith, λ h. ground arith)

IsTopic-iff : (f m t : Bytes) → (check (not (is_topic_valid t)) f m ≡ []) ↔ IsTopic t
unfolding is_topic_valid
IsTopic-iff f m [] = (λ e. absurd (cc), λ h. absurd (omega (arith, h.0)))
IsTopic-iff f m (c ∷ t) = (λ e. ground arith, λ h. ground arith)

topic_errors_iff : (i : ℕ) (ts : List Bytes) → (topic_errors i ts ≡ []) ↔ AllTopics ts
unfolding topic_errors
topic_errors_iff i [] = (λ e. tt, λ h. refl)
topic_errors_iff i (t ∷ ts) = append_iff _ _ (IsTopic-iff _ _ t) (topic_errors_iff (i + 1) ts)

topics_errors_iff : (ts : List Bytes) → (topics_errors ts ≡ []) ↔ ((1 ≤ length ts) × AllTopics ts)
unfolding topics_errors
topics_errors_iff [] = (λ e. absurd (cc), λ h. absurd (omega (arith, h.0)))
topics_errors_iff (t ∷ ts) = (
  λ e. (omega arith, (topic_errors_iff 0 (t ∷ ts)).0 e),
  λ h. (topic_errors_iff 0 (t ∷ ts)).1 h.1,
)

cut_iff :
    (f m n : Bytes) (a b : Bool) (t : Bytes)
    → (check_two f (a || b) m (is_empty t || ltb 256 (length t)) n ≡ [])
      ↔ (((a ≡ false) × (b ≡ false)) × Sized 1 256 t)
cut_iff f m n a b [] = (λ e. absurd (ground arith), λ h. absurd (omega (arith, h.1.0)))
cut_iff f m n a b (c ∷ t) = (λ e. ground arith, λ h. ground arith)

IsSoundPath-iff : (f s : Bytes) → (sound_path_errors f s ≡ []) ↔ IsSoundPath s
unfolding sound_path_errors
IsSoundPath-iff f s = cut_iff f _ _ (contains b'\n' s) (contains b'\r' s) (trim s)

connection_iff : (r : SaveRequest) → (connection_errors r ≡ []) ↔ ConnectionOk r
unfolding connection_errors
connection_iff r = append_iff _ _ (Sized-iff _ _ _ 32 r.config.wifi_ssid) (
    append_iff _ _ (password_iff _ _ r.wifi_password) (
      append_iff _ _ (filled_iff _ _ _ b' ' r.config.mqtt_host) (
        append_iff _ _ (Between-iff _ _ 1 65535 r.config.mqtt_port) (
          append_iff _ _ (Sized-iff _ _ _ 128 r.config.mqtt_client_id) (
            append_iff _ _ (at_most_iff _ _ 128 r.config.mqtt_username) (
              append_iff _ _ (username_iff _ _ r.config.mqtt_username r.mqtt_password)
                (given_at_most_iff _ _ r.mqtt_password)))))))

tls_iff : (c : CoreConfig) → (tls_errors c ≡ []) ↔ TlsOk c
unfolding tls_errors
tls_iff c = append_iff _ _ (at_most_iff _ _ 256 c.mqtt_tls_ca_file) (
    append_iff _ _ (at_most_iff _ _ 256 c.mqtt_tls_cert_file) (
      append_iff _ _ (at_most_iff _ _ 256 c.mqtt_tls_key_file)
        (Together-iff _ _ c.mqtt_tls_cert_file c.mqtt_tls_key_file)))

sound_iff : (c : CoreConfig) → (sound_errors c ≡ []) ↔ SoundOk c
unfolding sound_errors
sound_iff c = append_iff _ _ (topics_errors_iff c.mqtt_topics) (
    append_iff _ _ (IsTopic-iff _ _ c.ring_topic) (
      append_iff _ _ (IsSoundPath-iff _ c.notification_success_sound_path) (
        append_iff _ _ (IsSoundPath-iff _ c.notification_failure_sound_path) (
          append_iff _ _ (Between-iff _ _ 0 100 c.volume_bell) (
            append_iff _ _ (Between-iff _ _ 0 100 c.volume_notifications)
              (Between-iff _ _ 0 100 c.volume_other))))))

-- `ValidateRequest` returns no error exactly when every field is within its limits: the lengths,
-- the port and the volumes, a WiFi password of 8-63 bytes if one is given, an MQTT password only
-- with a user name, both TLS files or neither, at least one topic, and topics and sound paths
-- without the bytes that are refused.
pub validate_request_iff :
    (r : SaveRequest)
    → (validate_request r ≡ []) ↔ (ConnectionOk r × (TlsOk r.config × SoundOk r.config))
unfolding validate_request
validate_request_iff r =
    append_iff _ _ (connection_iff r) (append_iff _ _ (tls_iff r.config) (sound_iff r.config))
