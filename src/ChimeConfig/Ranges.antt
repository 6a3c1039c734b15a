-- ===== src/ChimeConfig/Ranges.antt =====
-- Every number that `LoadConfig` accepts lies in the range that its field declares.
use virtualchime.Base.{Bool, ℕ, Option, ◌≡◌, refl, arith, Bytes, ℤ}
use virtualchime.Text.{parse_bool}
use virtualchime.KvConfig.{loaded}
use virtualchime.KvConfig.Invariant.{Keeps, load-keeps, load-sets}
use virtualchime.ChimeConfig.{
  ChimeConfig, defaults, int_field, parse_int_field, config_fields, load_config,
}
use virtualchime.ChimeConfig.Parsed.{InRange, parsed_keeps, parse_int_field_bounds}
use virtualchime.ChimeConfig.Port.{PortRanged, config_fields-port}

-- The ranges of the optional fields, which the defaults meet.
abbrev pub Ranged : ChimeConfig → Type 0
Ranged c =
    InRange 0 2 c.mqtt_subscribe_qos
    × InRange 0 3600 c.heartbeat_interval
    × InRange 0 100 c.volume_bell
    × InRange 0 100 c.volume_notifications
    × InRange 0 100 c.volume_other
    × InRange 0 3600 c.wifi_check_interval

Ranged-int :
    (z : Bytes → Bool) (lo hi : ℕ) (assign : ChimeConfig → ℤ → ChimeConfig) (c : ChimeConfig)
    (v : Bytes)
    → Ranged c
    → ((a : ℤ) → InRange lo hi a → Ranged (assign c a))
    → Ranged (int_field z lo hi assign c v).0
Ranged-int z lo hi assign c v h k =
    parsed_keeps Ranged assign c (parse_int_field z lo hi v) h
      (λ a e. k a (parse_int_field_bounds z lo hi v a e))

config_fields-Ranged : (z : Bytes → Bool) → Keeps Ranged (config_fields z)
config_fields-Ranged z = (
  λ c v h. h,
  (
    λ c v h. Ranged-int z 1 65535 (λ d w. record d { port = w }) c v h (λ a r. h),
    (
      λ c v h. h,
      (
        λ c v h. h,
        (
          λ c v h. h,
          (
            λ c v h.
                parsed_keeps Ranged (λ d w. record d { mqtt_tls_enabled = w }) c (parse_bool v) h
                  (λ a e. h),
            (
              λ c v h.
                  parsed_keeps Ranged (λ d w. record d { mqtt_tls_validate_certificate = w }) c
                    (parse_bool v) h (λ a e. h),
              (
                λ c v h. h,
                (
                  λ c v h. h,
                  (
                    λ c v h. h,
                    (
                      λ c v h. h,
                      (
                        λ c v h.
                            Ranged-int z 0 2 (λ d w. record d { mqtt_subscribe_qos = w }) c v h
                              (λ a r. (r, h.1, h.2, h.3, h.4, h.5)),
                        (
                          λ c v h.
                              Ranged-int z 0 3600 (λ d w. record d { heartbeat_interval = w }) c v h
                                (λ a r. (h.0, r, h.2, h.3, h.4, h.5)),
                          (
                            λ c v h. h,
                            (
                              λ c v h. h,
                              (
                                λ c v h. h,
                                (
                                  λ c v h. h,
                                  (
                                    λ c v h. h,
                                    (
                                      λ c v h.
                                          Ranged-int z 0 100 (λ d w. record d { volume_bell = w }) c
                                            v h (λ a r. (h.0, h.1, r, h.3, h.4, h.5)),
                                      (
                                        λ c v h.
                                            Ranged-int z 0 100
                                              (λ d w. record d { volume_notifications = w }) c v h
                                              (λ a r. (h.0, h.1, h.2, r, h.4, h.5)),
                                        (
                                          λ c v h.
                                              Ranged-int z 0 100
                                                (λ d w. record d { volume_other = w }) c v h
                                                (λ a r. (h.0, h.1, h.2, h.3, r, h.5)),
                                          (
                                            λ c v h.
                                                parsed_keeps Ranged
                                                  (λ d w. record d { audio_enabled = w }) c
                                                  (parse_bool v) h (λ a e. h),
                                            (
                                              λ c v h. h,
                                              (
                                                λ c v h.
                                                    Ranged-int z 0 3600
                                                      (λ d w. record d { wifi_check_interval = w })
                                                      c v h (λ a r. (h.0, h.1, h.2, h.3, h.4, r)),
                                                tt,
                                              ),
                                            ),
                                          ),
                                        ),
                                      ),
                                    ),
                                  ),
                                ),
                              ),
                            ),
                          ),
                        ),
                      ),
                    ),
                  ),
                ),
              ),
            ),
          ),
        ),
      ),
    ),
  ),
)

defaults-Ranged : Ranged defaults
defaults-Ranged = (
  (0, refl, omega arith, omega arith),
  (60, refl, omega arith, omega arith),
  (80, refl, omega arith, omega arith),
  (70, refl, omega arith, omega arith),
  (70, refl, omega arith, omega arith),
  (5, refl, omega arith, omega arith),
)

-- Whatever the file holds, and whatever the loader finds in the destroyed copy of a number: in a
-- configuration that `LoadConfig` returns the port is in 1-65535, the QoS in 0-2, the volumes in
-- 0-100, and the two intervals in 0-3600.
pub load_config_ranges :
    (z : Bytes → Bool) (content : Option Bytes) {c : ChimeConfig}
    → load_config z content ≡ loaded c
    → InRange 1 65535 c.port × Ranged c
unfolding load_config
load_config_ranges z content h = (
  load-sets PortRanged 1 (config_fields z) defaults content (config_fields-port z) h,
  load-keeps Ranged (config_fields z) defaults content (config_fields-Ranged z) defaults-Ranged h,
)
