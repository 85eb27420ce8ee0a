-- ===== src/Rtmp/RawMessage/Writer.antt =====
-- protocols/rtmp/rawmessage/writer.go: a message is cut into chunks, and what the chunk stream's
-- last message had in common with it is left out of the first chunk's header. An error ends the use
-- of the writer, so the state that an error leaves behind is not kept.
use go_live_vod.Prelude.{
  ℕ, zero, suc, ◌+◌, ◌-◌, ◌*◌, ◌/◌, ◌^◌, Bool, true, false, not, ◌&&◌, ◌||◌, List, [], ◌∷◌, ◌++◌,
  Option, none, some, ltb, leb, ◌==◌, if◌then◌else◌, length, take, drop,
}
use go_live_vod.Prelude.Bits.{u32}
use go_live_vod.Prelude.Result.{Result, ok, err, ◌>>=◌}
use go_live_vod.Rtmp.Stream.{Error, no_acknowledge, write_failed, out_of_fuel}
use go_live_vod.Rtmp.Chunk.{extended, marshal0, marshal1, marshal2, marshal3}
use go_live_vod.Rtmp.RawMessage.{Message, millisecond, Streams, store, get_or_new}

-- The pointers that are nil before the first message are options.
pub record WriterChunkStream : Type 0 where
  pub last_message_stream_id : Option ℕ
  pub last_type : Option ℕ
  pub last_body_len : Option ℕ
  pub last_timestamp : Option ℕ
  pub last_timestamp_delta : Option ℕ
  pub has_extended_timestamp : Bool

-- `&writerChunkStream{mw: w}`
abbrev pub new_stream : WriterChunkStream
new_stream = record {
  last_message_stream_id = none;
  last_type = none;
  last_body_len = none;
  last_timestamp = none;
  last_timestamp_delta = none;
  has_extended_timestamp = false;
}

-- `output` is all that was written to `bw`.
pub record Writer : Type 0 where
  pub output : List ℕ
  pub check_acknowledge : Bool
  pub chunk_size : ℕ
  pub ack_window_size : ℕ
  pub ack_value : ℕ
  pub chunk_streams : Streams WriterChunkStream

-- What the writer is given: the byte counter's value by what was written so far, and whether the
-- connection takes a buffer and a flush.
pub record Env : Type 0 where
  pub count : List ℕ → ℕ
  pub accepts : List ℕ → List ℕ → Bool
  pub flushes : List ℕ → Bool

unfoldable pub new_writer : Bool → Writer
new_writer check_acknowledge = record {
  output = [];
  check_acknowledge = check_acknowledge;
  chunk_size = 128;
  ack_window_size = 0;
  ack_value = 0;
  chunk_streams = λ _. none;
}

unfoldable pub set_chunk_size : ℕ → Writer → Writer
set_chunk_size v w = record w { chunk_size = v }

unfoldable pub set_window_ack_size : ℕ → Writer → Writer
set_window_ack_size v w = record w { ack_window_size = v }

unfoldable pub set_acknowledge_value : ℕ → Writer → Writer
set_acknowledge_value v w = record w { ack_value = v }

-- The peer has not acknowledged for more than one and a half windows.
unfoldable pub ack_overdue : Env → Writer → Bool
ack_overdue env w =
    (w.check_acknowledge && not (w.ack_window_size == 0))
    && ltb (u32 (w.ack_window_size * 3) / 2) (u32 (u32 (env.count w.output) + 2 ^ 32 - w.ack_value))

unfoldable pub write_chunk : Env → List ℕ → Writer → Result Error Writer
write_chunk env buf w =
    if ack_overdue env w
    then err no_acknowledge
    else if env.accepts w.output buf
    then ok (record w { output = w.output ++ buf })
    else err write_failed

-- `*p != n`. The writer sets `lastType` and `lastBodyLen` together with `lastMessageStreamID`, and
-- reads them only where that is not nil.
abbrev pub differs : Option ℕ → ℕ → Bool
differs none n = true
differs (some m) n = not (m == n)

-- `timestampDelta`: nil at the start and where the timestamp goes back.
unfoldable pub timestamp_delta : Option ℕ → ℕ → Option ℕ
timestamp_delta none timestamp = none
timestamp_delta (some last) timestamp = if leb last timestamp then some (timestamp - last) else none

abbrev pub Header : Type 0
Header = List ℕ × Bool

-- The bytes of the first chunk, and the stream's `hasExtendedTimestamp` behind it.
unfoldable pub first_chunk : WriterChunkStream → Message → ℕ → Option ℕ → ℕ → List ℕ → Header
first_chunk wc msg timestamp none body_len body =
    let ts = u32 timestamp in
    (
      marshal0 (record {
        chunk_stream_id = msg.chunk_stream_id;
        timestamp = ts;
        body_len = body_len;
        type = msg.type;
        message_stream_id = msg.message_stream_id;
        body = body;
      }),
      leb extended ts,
    )
first_chunk wc msg timestamp (some delta) body_len body =
    let ts = u32 timestamp in
    let d = u32 delta in
    if differs wc.last_message_stream_id msg.message_stream_id
    then (
      marshal0 (record {
        chunk_stream_id = msg.chunk_stream_id;
        timestamp = ts;
        body_len = body_len;
        type = msg.type;
        message_stream_id = msg.message_stream_id;
        body = body;
      }),
      leb extended ts,
    )
    else if differs wc.last_type msg.type || differs wc.last_body_len body_len
    then (
      marshal1 (record {
        chunk_stream_id = msg.chunk_stream_id;
        timestamp_delta = d;
        body_len = body_len;
        type = msg.type;
        body = body;
      }),
      leb extended d,
    )
    else if differs wc.last_timestamp_delta delta
    then (
      marshal2 (record { chunk_stream_id = msg.chunk_stream_id; timestamp_delta = d; body = body }),
      leb extended d,
    )
    else (
      marshal3 (record { chunk_stream_id = msg.chunk_stream_id; body = body })
          wc.has_extended_timestamp,
      wc.has_extended_timestamp,
    )

-- What the stream remembers of the message whose first chunk was written.
unfoldable pub remember : WriterChunkStream → Message → ℕ → Option ℕ → ℕ → Bool → WriterChunkStream
remember wc msg timestamp delta body_len has_extended_timestamp = record {
  last_message_stream_id = some msg.message_stream_id;
  last_type = some msg.type;
  last_body_len = some body_len;
  last_timestamp = some timestamp;
  last_timestamp_delta = elim delta [ none ↦ wc.last_timestamp_delta | some d ↦ some d ];
  has_extended_timestamp = has_extended_timestamp;
}

-- The rounds of the loop behind the first; `rest` is `msg.Body[pos:]`.
unfoldable pub write_rest : ℕ → Env → ℕ → Bool → List ℕ → Writer → Result Error Writer
write_rest fuel env id has_extended_timestamp [] w =
    if env.flushes w.output then ok w else err write_failed
write_rest zero env id has_extended_timestamp (b ∷ rest) w = err out_of_fuel
write_rest (suc fuel) env id has_extended_timestamp (b ∷ rest) w = do
  let piece = take w.chunk_size (b ∷ rest)
  w1 ←
      write_chunk env
        (marshal3 (record { chunk_stream_id = id; body = piece }) has_extended_timestamp) w
  write_rest fuel env id has_extended_timestamp (drop w.chunk_size (b ∷ rest)) w1

-- `writeMessage`. A round behind the first takes a byte off the body at least, unless the chunk size
-- is 0, where the source loops for ever: the length of the body is fuel enough.
unfoldable pub write_message :
    Env → WriterChunkStream → Message → Writer → Result Error (Writer × WriterChunkStream)
write_message env wc msg w = do
  let body_len = u32 (length msg.body)
  let body = take body_len msg.body
  let timestamp = msg.timestamp / millisecond
  let delta = timestamp_delta wc.last_timestamp timestamp
  let header = first_chunk wc msg timestamp delta body_len (take w.chunk_size body)
  w1 ← write_chunk env header.0 w
  let wc1 = remember wc msg timestamp delta body_len header.1
  w2 ← write_rest (length body) env msg.chunk_stream_id header.1 (drop w.chunk_size body) w1
  ok (w2, wc1)

-- `Write`
unfoldable pub write : Env → Message → Writer → Result Error Writer
write env msg w = do
  let id = msg.chunk_stream_id
  (w1, wc) ← write_message env (get_or_new id new_stream w.chunk_streams) msg w
  ok (record w1 { chunk_streams = store id wc w1.chunk_streams })
