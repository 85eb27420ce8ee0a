-- ===== src/Lib.antt =====
-- go-live-vod is a live streaming and video-on-demand system: mediamtx/ is a media server, forked and
-- changed for this system, that takes streams in over RTMP and other protocols and hands them to a
-- transcoder; backend/ transcodes them with ffmpeg to several resolutions and uploads the segments;
-- frontend/ is a page that plays them. Paths below are from the repository's root.
--
-- What is modelled, and where:
-- - Prelude and its children: names of the libraries, Boolean tests, lists measured by native numbers,
--   Go's unsigned integers as numbers with their wrap-around written out, results with an error, and
--   strings as lists of bytes (Text).
-- - Rtmp.Stream: the bytes that come in, io.ReadFull and the big-endian integers. A stream is the
--   list of the bytes still to come; its end is the end of the connection.
-- - Rtmp.Chunk: mediamtx/internal/protocols/rtmp/chunk/chunk0.go to chunk3.go. `read0` is Chunk0.Read,
--   `marshal0` Chunk0.Marshal, `marshal_size0` Chunk0.marshalSize, and so for the other kinds.
-- - Rtmp.RawMessage.Reader: mediamtx/internal/protocols/rtmp/rawmessage/reader.go. readMessage is
--   `read_message` with one function per case; the loop of Read is `read`, one round of it
--   `read_chunk`. readChunk is split into the chunk's own read and `check_ack`.
-- - Rtmp.RawMessage.Writer: mediamtx/internal/protocols/rtmp/rawmessage/writer.go. writeMessage is
--   `write_message`: `first_chunk` is the switch on the first round, `remember` what follows it, and
--   `write_rest` the later rounds.
-- - Rtmp.Amf0: mediamtx/internal/protocols/rtmp/amf0/data.go. Unmarshal is `unmarshal_data`, its loop
--   `unmarshal_rounds`, the recursive function `unmarshal`; a list of values and a list of object
--   entries are data types of their own, so that the recursion through them is visible. A
--   write behind the end of a buffer is the error `index_out_of_range`. Lookup is
--   mediamtx/internal/protocols/rtmp/amf0/object.go.
-- - Rtmp.Message: mediamtx/internal/protocols/rtmp/message. Control, Media, Extended and Amf hold the
--   `unmarshal` and `marshal` of each kind of message, Dispatch the choice between them: `allocate_message` is
--   allocateMessage of reader.go, `unmarshal_message` what Reader.Read makes of a raw message.
--   Rtmp.Message.Connection is Reader.Read of reader.go and Writer.Write of writer.go as a whole.
-- - Core.LiveStream: mediamtx/internal/liveStream/liveStream.go, NewLiveStream and what it is made of.
--   The entry that it makes in the registry stands in `set_ready` of the path.
-- - Core.Path: mediamtx/internal/core/path.go. The record is the struct `path`; Operations are the
--   methods that its handlers share, Handlers the do... methods, Loop is run and runInner: `handle` is
--   one case of the select, `run_inner` the loop with shouldClose, `end_run` what run does behind it.
-- - Auth: mediamtx/internal/auth and the parts of mediamtx/internal/conf it is made of. Credential is
--   credential.go and Contains of ip_networks.go, Manager is manager.go and FillFromRTSPRequest of
--   request.go: `authenticate` is Authenticate, `authenticate_by` its switch on the method. A manager
--   that changes is given back. Allowed says who is let in, its children that the code does so, and Keys
--   what holds of the keys that tokens are checked with.
-- - Conf.Settings: those files of mediamtx/internal/conf whose settings are one of a few words
--   (auth_action.go, auth_method.go, encryption.go, hls_variant.go, log_level.go, record_format.go,
--   rtsp_range_type.go, rtsp_transport.go), as MarshalJSON writes and UnmarshalJSON reads them inside of
--   the JSON string; Lists is log_destination.go.
-- - Conf.PathConf: FindPathConf and isValidPathName of mediamtx/internal/conf/path.go. A map is the list
--   of its entries in the order in which a range loop takes them (Prelude.Maps); Found says what is found
--   without that order.
-- - Core.PathManager: mediamtx/internal/core/path_manager.go. `create_path` is createPath, and so on;
--   the loops of doReloadConf are `reload_confs`, with `reload_one` for its body, and `add_new_paths`.
--   Loop has the requests and run: `access` is what the requests begin with, `give_path` what they end
--   with. A path is known by an ID in place of its pointer. Index says how the two maps of paths agree;
--   Kept, Reload, Sound and Started that they always do, Replaced and Reloaded what a reload does, Access
--   what is handed out.
-- - Api.Paginate: mediamtx/internal/api/paginate.go, with the list that is cut given back.
-- The other modules below Rtmp hold the proofs: Chunk.RoundTrip and Chunk.Lengths on one chunk,
-- RawMessage.Steps and Fragments on one chunk within a message, Sync and RoundTrip on a whole message,
-- Exchange on a sequence of them, StaleDelta on messages that go back in time, and Bounds on arbitrary
-- input. Amf0.Bytes says which bytes a value has, Sizes, RoundTrip and Total compare the code with it,
-- Buffers and Written what is in the buffer between two writes of `marshal_item`;
-- Message.Carried says which messages survive the wire. Those below Core.Path are Requests (each
-- request is answered once), Validity (what holds between two messages), Faults (where the path panics
-- or forgets a request) and Tests.
--
-- Parameters: the byte counters (they count what bufio moved, ahead of what is consumed), the
-- callback that sends an acknowledgement, and whether the connection takes what is written, are
-- functions in `Reader.Env` and `Writer.Env`. Go's conversions between int and float64, a float64 being
-- its bit pattern, are the record `Floats`. io.ReadFull and bufio are those of Go's library: a
-- buffer is filled or the read fails, and flushed bytes arrive in order. What a path's calls of the
-- transcoder and of stream.New come to is given with each message (`Outcome`); what it does to other
-- goroutines, hooks, the recorder and the stream is a list of events, the newest first; a timer is
-- whether it will fire; a run-time error of Go is a value of `Panic`. What authentication calls
-- (regular expressions, hashes, networks, RTSP headers, HTTP, JWKS and tokens) is the record
-- `Libraries`, what FindPathConf does (regular expressions with submatches) and the other settings of a
-- path, with what Clone's way through JSON makes of them, are the record `Settings`, and strconv.ParseUint the record `ParseUint`.
--
-- Bounds and fuel: `read` has a round per chunk, and each chunk takes a byte at least, so that one
-- round more than there are bytes is enough. `write_rest` takes as many rounds as the body has bytes
-- at most, if the chunk size is not 0, where the source loops for ever. `out_of_fuel` is no Go value. A
-- value of AMF0 is unmarshalled with twice as many rounds as there are bytes, and one, which is enough.
--
-- Left out of these models: negative timestamps (they are numbers of nanoseconds here), the state that
-- an error leaves behind, since callers give the reader or writer up, and the reuse of one Message
-- value by Reader.Read, whose caller is done with a message before it reads the next. Of a path: the
-- log, queries, the snapshot of doAPIPathsGet, and the channels behind which requests wait. Of the path
-- manager: the log, the settings that it only passes on to paths, and the methods with which other
-- goroutines put a message into a channel and wait.
--
-- Not modelled: of the extended audio and video messages of RTMP those of sequence starts, channels,
-- metadata and several tracks (`allocate_audio_ex` and `allocate_video_ex` allocate them, but they are
-- unmarshalled to an error of the model's own), the transcoder and its commands (backend/), the rest of the
-- configuration, the HTTP handlers of the API, the claims of a token (customClaims.UnmarshalJSON is part
-- of what `parse_token` stands for), recording and playback of mediamtx, its other protocols, which call
-- third-party libraries, and the front end.
pub mod Prelude
pub mod Rtmp
pub mod Api
pub mod Conf
pub mod Auth
pub mod Core
