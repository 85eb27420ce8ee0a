-- ===== src/Conf/Settings/Tests.antt =====
-- The log destinations of mediamtx/internal/conf/log_destination.go on concrete words.
use go_live_vod.Prelude.{ℕ, List, [], none, refl, some, ◌↔◌, ◌∷◌, ◌≡◌}
use go_live_vod.Conf.Settings.Lists.{
  contains, log_destinations_iff, marshal_log_destinations, unmarshal_destination,
  read_log_destinations, IsDistinct, unmarshal_log_destinations, Destination, to_file, to_stdout,
}
use go_live_vod.Prelude.Text.{bytes, same}

abbrev words : List (List ℕ)
words = bytes "file" ∷ bytes "stdout" ∷ []

abbrev destinations : List Destination
destinations = to_file ∷ to_stdout ∷ []

twice : unmarshal_log_destinations (bytes "file" ∷ bytes "file" ∷ []) ≡ none
unfolding unmarshal_log_destinations read_log_destinations unmarshal_destination contains same
twice = refl

log_destinations_iff_example :
    (unmarshal_log_destinations words ≡ some destinations)
    ↔ (IsDistinct destinations × (marshal_log_destinations destinations ≡ words))
log_destinations_iff_example = log_destinations_iff words destinations
