-- ===== src/Conf/Settings.antt =====
-- mediamtx/internal/conf: the settings that are one of a few words (auth_action.go, auth_method.go,
-- encryption.go, hls_variant.go, log_level.go, record_format.go, rtsp_range_type.go and
-- rtsp_transport.go). The word is what the JSON string holds; `none` is an error.
pub mod RoundTrip
pub mod Lists
pub mod Tests
use go_live_vod.Prelude.{ℕ, List, [], Option, none, some, if◌then◌else◌, ◌||◌, false, true}
use go_live_vod.Prelude.Text.{bytes, same}

pub data AuthAction : Type 0 where
  publish read playback api metrics pprof : AuthAction

unfoldable pub marshal_auth_action : AuthAction → List ℕ
marshal_auth_action publish = bytes "publish"
marshal_auth_action read = bytes "read"
marshal_auth_action playback = bytes "playback"
marshal_auth_action api = bytes "api"
marshal_auth_action metrics = bytes "metrics"
marshal_auth_action pprof = bytes "pprof"

unfoldable pub unmarshal_auth_action : List ℕ → Option AuthAction
unmarshal_auth_action s =
    if same s (bytes "publish")
    then some publish
    else if same s (bytes "read")
    then some read
    else if same s (bytes "playback")
    then some playback
    else if same s (bytes "api")
    then some api
    else if same s (bytes "metrics")
    then some metrics
    else if same s (bytes "pprof")
    then some pprof
    else none

pub data AuthMethod : Type 0 where
  internal http jwt : AuthMethod

unfoldable pub marshal_auth_method : AuthMethod → List ℕ
marshal_auth_method internal = bytes "internal"
marshal_auth_method http = bytes "http"
marshal_auth_method jwt = bytes "jwt"

unfoldable pub unmarshal_auth_method : List ℕ → Option AuthMethod
unmarshal_auth_method s =
    if same s (bytes "internal")
    then some internal
    else if same s (bytes "http")
    then some http
    else if same s (bytes "jwt")
    then some jwt
    else none

pub data Encryption : Type 0 where
  unencrypted optional strict : Encryption

unfoldable pub marshal_encryption : Encryption → List ℕ
marshal_encryption unencrypted = bytes "no"
marshal_encryption optional = bytes "optional"
marshal_encryption strict = bytes "strict"

unfoldable pub unmarshal_encryption : List ℕ → Option Encryption
unmarshal_encryption s =
    if same s (bytes "no") || (same s (bytes "false"))
    then some unencrypted
    else if same s (bytes "optional")
    then some optional
    else if same s (bytes "strict") || (same s (bytes "yes") || (same s (bytes "true")))
    then some strict
    else none

pub data HlsVariant : Type 0 where
  variant_mpegts variant_fmp4 low_latency : HlsVariant

unfoldable pub marshal_hls_variant : HlsVariant → List ℕ
marshal_hls_variant variant_mpegts = bytes "mpegts"
marshal_hls_variant variant_fmp4 = bytes "fmp4"
marshal_hls_variant low_latency = bytes "lowLatency"

unfoldable pub unmarshal_hls_variant : List ℕ → Option HlsVariant
unmarshal_hls_variant s =
    if same s (bytes "mpegts")
    then some variant_mpegts
    else if same s (bytes "fmp4")
    then some variant_fmp4
    else if same s (bytes "lowLatency")
    then some low_latency
    else none

pub data LogLevel : Type 0 where
  error warn info debug : LogLevel

unfoldable pub marshal_log_level : LogLevel → List ℕ
marshal_log_level error = bytes "error"
marshal_log_level warn = bytes "warn"
marshal_log_level info = bytes "info"
marshal_log_level debug = bytes "debug"

unfoldable pub unmarshal_log_level : List ℕ → Option LogLevel
unmarshal_log_level s =
    if same s (bytes "error")
    then some error
    else if same s (bytes "warn")
    then some warn
    else if same s (bytes "info")
    then some info
    else if same s (bytes "debug")
    then some debug
    else none

pub data RecordFormat : Type 0 where
  mpegts fmp4 : RecordFormat

unfoldable pub marshal_record_format : RecordFormat → List ℕ
marshal_record_format mpegts = bytes "mpegts"
marshal_record_format fmp4 = bytes "fmp4"

unfoldable pub unmarshal_record_format : List ℕ → Option RecordFormat
unmarshal_record_format s =
    if same s (bytes "mpegts")
    then some mpegts
    else if same s (bytes "fmp4")
    then some fmp4
    else none

pub data RtspRangeType : Type 0 where
  clock npt smpte undefined : RtspRangeType

unfoldable pub marshal_rtsp_range_type : RtspRangeType → List ℕ
marshal_rtsp_range_type clock = bytes "clock"
marshal_rtsp_range_type npt = bytes "npt"
marshal_rtsp_range_type smpte = bytes "smpte"
marshal_rtsp_range_type undefined = []

unfoldable pub unmarshal_rtsp_range_type : List ℕ → Option RtspRangeType
unmarshal_rtsp_range_type s =
    if same s (bytes "clock")
    then some clock
    else if same s (bytes "npt")
    then some npt
    else if same s (bytes "smpte")
    then some smpte
    else if same s []
    then some undefined
    else none

-- `*gortsplib.Transport`; a transport of another kind than those three is not among its constants.
pub data Transport : Type 0 where
  udp multicast tcp : Transport

unfoldable pub marshal_transport : Transport → List ℕ
marshal_transport udp = bytes "udp"
marshal_transport multicast = bytes "multicast"
marshal_transport tcp = bytes "tcp"

-- `RTSPTransport`, where nil is any transport.
unfoldable pub marshal_rtsp_transport : Option Transport → List ℕ
marshal_rtsp_transport none = bytes "automatic"
marshal_rtsp_transport (some t) = marshal_transport t

unfoldable pub unmarshal_rtsp_transport : List ℕ → Option (Option Transport)
unmarshal_rtsp_transport s =
    if same s (bytes "udp")
    then some (some udp)
    else if same s (bytes "multicast")
    then some (some multicast)
    else if same s (bytes "tcp")
    then some (some tcp)
    else if same s (bytes "automatic")
    then some none
    else none
