-- ===== src/Core/LiveStream.antt =====
-- mediamtx/internal/liveStream/liveStream.go: the stream of a path as the transcoder is told of it.
-- Names are lists of bytes.
pub mod Names
use go_live_vod.Prelude.{ℕ, List, [], ◌∷◌, Option, none, some, ◌==◌, if◌then◌else◌, map}
use go_live_vod.Prelude.Text.{bytes}

pub record LiveStream : Type 0 where
  pub id : List ℕ
  pub namespace_ : List ℕ
  pub stream_name : List ℕ
  pub video_codec : List ℕ
  pub audio_codec : List ℕ
  pub resolutions : List (List ℕ)

-- The instance with its config.
unfoldable pub configured : List ℕ → List ℕ → List ℕ → LiveStream
configured id namespace stream_name = record {
  id = id;
  namespace_ = namespace;
  stream_name = stream_name;
  video_codec = bytes "h264";
  audio_codec = bytes "aac";
  resolutions = map bytes ("144p" ∷ "240p" ∷ "360p" ∷ "480p" ∷ "720p" ∷ "1080p" ∷ []);
}

-- `c` in front of the first part.
unfoldable pub in_front : ℕ → List (List ℕ) → List (List ℕ)
in_front c [] = (c ∷ []) ∷ []
in_front c (part ∷ parts) = (c ∷ part) ∷ parts

-- `strings.Split(s, "/")`
unfoldable pub split : List ℕ → List (List ℕ)
unfolding in_front
split [] = [] ∷ []
split (c ∷ s) = let rest = split s in if c == 47 then [] ∷ rest else in_front c rest

-- `NewLiveStream` without the entry that it makes in the registry (`set_ready` of the path makes it),
-- where `none` is the panic of an index out of range on a name without a slash.
unfoldable pub new_live_stream : List ℕ → Option LiveStream
new_live_stream name = elim (split name) [
  | [] ↦ none
  | namespace ∷ parts ↦ elim parts [ [] ↦ none | id ∷ more ↦ some (configured id namespace name) ]
]
