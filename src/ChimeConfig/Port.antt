-- ===== src/ChimeConfig/Port.antt =====
-- A file that `LoadConfig` accepts has set the port, and to a number in its range.
use virtualchime.Base.{Bool, ℕ, refl, Bytes, ℤ}
use virtualchime.Text.{parse_bool}
use virtualchime.KvConfig.Invariant.{Sets}
use virtualchime.ChimeConfig.{ChimeConfig, int_field, parse_int_field, config_fields}
use virtualchime.ChimeConfig.Parsed.{InRange, parsed_keeps, parsed_sets, parse_int_field_bounds}

abbrev pub PortRanged : ChimeConfig → Type 0
PortRanged c = InRange 1 65535 c.port

port-int :
    (z : Bytes → Bool) (lo hi : ℕ) (assign : ChimeConfig → ℤ → ChimeConfig) (c : ChimeConfig)
    (v : Bytes)
    → PortRanged c
    → ((a : ℤ) → InRange lo hi a → PortRanged (assign c a))
    → PortRanged (int_field z lo hi assign c v).0
port-int z lo hi assign c v h k =
    parsed_keeps PortRanged assign c (parse_int_field z lo hi v) h
      (λ a e. k a (parse_int_field_bounds z lo hi v a e))

pub config_fields-port : (z : Bytes → Bool) → Sets PortRanged 1 (config_fields z)
config_fields-port z = (
  λ c v h. h,
  (
    refl,
    λ c v h.
        parsed_sets PortRanged (λ d w. record d { port = w }) c (parse_int_field z 1 65535 v)
          (parse_int_field_bounds z 1 65535 v) h,
    λ c v h. port-int z 1 65535 (λ d w. record d { port = w }) c v h (λ a r. r),
    (
      λ c v h. h,
      (
        λ c v h. h,
        (
          λ c v h. h,
          (
            λ c v h.
                parsed_keeps PortRanged (λ d w. record d { mqtt_tls_enabled = w }) c (parse_bool v)
                  h (λ a e. h),
            (
              λ c v h.
                  parsed_keeps PortRanged (λ d w. record d { mqtt_tls_validate_certificate = w }) c
                    (parse_bool v) h (λ a e. h),
              (
                λ c v h. h,
                (
                  λ c v h. h,
                  (
                    λ c v h. h,
                    (
                      λ c v h. h,
                      (
                        λ c v h.
                            port-int z 0 2 (λ d w. record d { mqtt_subscribe_qos = w }) c v h
                              (λ a r. h),
                        (
                          λ c v h.
                              port-int z 0 3600 (λ d w. record d { heartbeat_interval = w }) c v h
                                (λ a r. h),
                          (
                            λ c v h. h,
                            (
                              λ c v h. h,
                              (
                                λ c v h. h,
                                (
                                  λ c v h. h,
                                  (
                                    λ c v h. h,
                                    (
                                      λ c v h.
                                          port-int z 0 100 (λ d w. record d { volume_bell = w }) c v
                                            h (λ a r. h),
                                      (
                                        λ c v h.
                                            port-int z 0 100
                                              (λ d w. record d { volume_notifications = w }) c v h
                                              (λ a r. h),
                                        (
                                          λ c v h.
                                              port-int z 0 100
                                                (λ d w. record d { volume_other = w }) c v h
                                                (λ a r. h),
                                          (
                                            λ c v h.
                                                parsed_keeps PortRanged
                                                  (λ d w. record d { audio_enabled = w }) c
                                                  (parse_bool v) h (λ a e. h),
                                            (
                                              λ c v h. h,
                                              (
                                                λ c v h.
                                                    port-int z 0 3600
                                                      (λ d w. record d { wifi_check_interval = w })
                                                      c v h (λ a r. h),
                                                tt,
                                              ),
                                            ),
                                          ),
                                        ),
                                      ),
                                    ),
                                  ),
                                ),
                              ),
                            ),
                          ),
                        ),
                      ),
                    ),
                  ),
                ),
              ),
            ),
          ),
        ),
      ),
    ),
  ),
)
