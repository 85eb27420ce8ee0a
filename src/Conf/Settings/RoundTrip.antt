-- ===== src/Conf/Settings/RoundTrip.antt =====
-- The words of mediamtx/internal/conf's settings are read back, and no others are read.
use go_live_vod.Prelude.{ℕ, ◌≡◌, refl, List, Option, none, some, [], arith}
use go_live_vod.Conf.Settings.{
  HlsVariant, Encryption, LogLevel, Transport, RecordFormat, AuthMethod, RtspRangeType,
  marshal_hls_variant, marshal_log_level, marshal_rtsp_transport, marshal_rtsp_range_type,
  marshal_record_format, marshal_transport, marshal_encryption, marshal_auth_method, AuthAction,
  unmarshal_auth_action, unmarshal_encryption, unmarshal_rtsp_transport, unmarshal_hls_variant,
  unmarshal_log_level, unmarshal_rtsp_range_type, unmarshal_record_format, unmarshal_auth_method,
  marshal_auth_action, clock, error, internal, mpegts, publish, udp, unencrypted, variant_mpegts,
}
use go_live_vod.Prelude.Text.{same_iff, same, bytes}

-- What is written is read, and only that.
abbrev pub IsFaithful : {A : Type 0} → (A → List ℕ) → (List ℕ → Option A) → Type 0
IsFaithful {A} marshal unmarshal =
    ((a : A) → unmarshal (marshal a) ≡ some a)
    × ((s : List ℕ) (a : A) → unmarshal s ≡ some a → s ≡ marshal a)

written_auth_action : (a : AuthAction) → unmarshal_auth_action (marshal_auth_action a) ≡ some a
unfolding unmarshal_auth_action marshal_auth_action same
written_auth_action publish = refl
written_auth_action _ = refl

reads_auth_action :
    (s : List ℕ) (a : AuthAction) → unmarshal_auth_action s ≡ some a → s ≡ marshal_auth_action a
unfolding unmarshal_auth_action marshal_auth_action
reads_auth_action s a h = ground (
  arith,
  same_iff s (bytes "publish"),
  same_iff s (bytes "read"),
  same_iff s (bytes "playback"),
  same_iff s (bytes "api"),
  same_iff s (bytes "metrics"),
  same_iff s (bytes "pprof"),
)

written_auth_method : (a : AuthMethod) → unmarshal_auth_method (marshal_auth_method a) ≡ some a
unfolding unmarshal_auth_method marshal_auth_method same
written_auth_method internal = refl
written_auth_method _ = refl

reads_auth_method :
    (s : List ℕ) (a : AuthMethod) → unmarshal_auth_method s ≡ some a → s ≡ marshal_auth_method a
unfolding unmarshal_auth_method marshal_auth_method
reads_auth_method s a h =
    ground
      (arith, same_iff s (bytes "internal"), same_iff s (bytes "http"), same_iff s (bytes "jwt"))

written_hls_variant : (a : HlsVariant) → unmarshal_hls_variant (marshal_hls_variant a) ≡ some a
unfolding unmarshal_hls_variant marshal_hls_variant same
written_hls_variant variant_mpegts = refl
written_hls_variant _ = refl

reads_hls_variant :
    (s : List ℕ) (a : HlsVariant) → unmarshal_hls_variant s ≡ some a → s ≡ marshal_hls_variant a
unfolding unmarshal_hls_variant marshal_hls_variant
reads_hls_variant s a h =
    ground (
      arith,
      same_iff s (bytes "mpegts"),
      same_iff s (bytes "fmp4"),
      same_iff s (bytes "lowLatency"),
    )

written_log_level : (a : LogLevel) → unmarshal_log_level (marshal_log_level a) ≡ some a
unfolding unmarshal_log_level marshal_log_level same
written_log_level error = refl
written_log_level _ = refl

reads_log_level :
    (s : List ℕ) (a : LogLevel) → unmarshal_log_level s ≡ some a → s ≡ marshal_log_level a
unfolding unmarshal_log_level marshal_log_level
reads_log_level s a h = ground (
  arith,
  same_iff s (bytes "error"),
  same_iff s (bytes "warn"),
  same_iff s (bytes "info"),
  same_iff s (bytes "debug"),
)

written_record_format :
    (a : RecordFormat) → unmarshal_record_format (marshal_record_format a) ≡ some a
unfolding unmarshal_record_format marshal_record_format same
written_record_format mpegts = refl
written_record_format _ = refl

reads_record_format :
    (s : List ℕ) (a : RecordFormat)
    → unmarshal_record_format s ≡ some a
    → s ≡ marshal_record_format a
unfolding unmarshal_record_format marshal_record_format
reads_record_format s a h = ground (arith, same_iff s (bytes "mpegts"), same_iff s (bytes "fmp4"))

written_rtsp_range_type :
    (a : RtspRangeType) → unmarshal_rtsp_range_type (marshal_rtsp_range_type a) ≡ some a
unfolding unmarshal_rtsp_range_type marshal_rtsp_range_type same
written_rtsp_range_type clock = refl
written_rtsp_range_type _ = refl

reads_rtsp_range_type :
    (s : List ℕ) (a : RtspRangeType)
    → unmarshal_rtsp_range_type s ≡ some a
    → s ≡ marshal_rtsp_range_type a
unfolding unmarshal_rtsp_range_type marshal_rtsp_range_type
reads_rtsp_range_type s a h = ground (
  arith,
  same_iff s (bytes "clock"),
  same_iff s (bytes "npt"),
  same_iff s (bytes "smpte"),
  same_iff s [],
)

written_encryption : (a : Encryption) → unmarshal_encryption (marshal_encryption a) ≡ some a
unfolding unmarshal_encryption marshal_encryption same
written_encryption unencrypted = refl
written_encryption _ = refl

written_rtsp_transport :
    (a : Option Transport) → unmarshal_rtsp_transport (marshal_rtsp_transport a) ≡ some a
unfolding unmarshal_rtsp_transport marshal_rtsp_transport marshal_transport same
written_rtsp_transport none = refl
written_rtsp_transport (some udp) = refl
written_rtsp_transport (some _) = refl

reads_rtsp_transport :
    (s : List ℕ) (a : Option Transport)
    → unmarshal_rtsp_transport s ≡ some a
    → s ≡ marshal_rtsp_transport a
unfolding unmarshal_rtsp_transport marshal_rtsp_transport marshal_transport
reads_rtsp_transport s a h = ground (
  arith,
  same_iff s (bytes "udp"),
  same_iff s (bytes "multicast"),
  same_iff s (bytes "tcp"),
  same_iff s (bytes "automatic"),
)

-- Every action, authentication method, HLS variant, log level, record format, range type and RTSP
-- transport is read from the word that is written for it and from no other; an encryption is read
-- from the word that is written for it.
pub settings_round_trip :
    IsFaithful marshal_auth_action unmarshal_auth_action
    × IsFaithful marshal_auth_method unmarshal_auth_method
    × IsFaithful marshal_hls_variant unmarshal_hls_variant
    × IsFaithful marshal_log_level unmarshal_log_level
    × IsFaithful marshal_record_format unmarshal_record_format
    × IsFaithful marshal_rtsp_range_type unmarshal_rtsp_range_type
    × IsFaithful marshal_rtsp_transport unmarshal_rtsp_transport
    × ((a : Encryption) → unmarshal_encryption (marshal_encryption a) ≡ some a)
settings_round_trip = (
  (written_auth_action, reads_auth_action),
  (written_auth_method, reads_auth_method),
  (written_hls_variant, reads_hls_variant),
  (written_log_level, reads_log_level),
  (written_record_format, reads_record_format),
  (written_rtsp_range_type, reads_rtsp_range_type),
  (written_rtsp_transport, reads_rtsp_transport),
  written_encryption,
)
