-- ===== src/Rtmp/RawMessage/Reader.antt =====
-- protocols/rtmp/rawmessage/reader.go: chunks are read off the stream and put together to messages,
-- with one state per chunk stream. An error ends the use of the reader, so the state that an error
-- leaves behind is not kept.
use go_live_vod.Prelude.{
  ℕ, zero, suc, ◌+◌, ◌-◌, ◌*◌, ◌^◌, Bool, true, false, not, List, [], ◌∷◌, ◌++◌, Option, none, some,
  bit_and, ltb, leb, ◌==◌, if◌then◌else◌, length, take,
}
use go_live_vod.Prelude.Bits.{shr, u32}
use go_live_vod.Prelude.Result.{Result, ok, err, ◌>>=◌}
use go_live_vod.Rtmp.Stream.{
  Error, eof, expected_type3, no_previous_chunk, body_too_big, chunk_size_too_big,
  extended_stream_id, ack_failed, out_of_fuel,
}
use go_live_vod.Rtmp.Chunk.{extended, cap_len, read0, read1, read2, read3}
use go_live_vod.Rtmp.RawMessage.{Message, millisecond, max_body_size, Streams, store, get_or_new}

pub record ReaderChunkStream : Type 0 where
  pub cur_timestamp : ℕ
  pub cur_timestamp_available : Bool
  pub cur_type : ℕ
  pub cur_message_stream_id : ℕ
  pub cur_body_len : ℕ
  pub cur_body_fragments : List (List ℕ)
  pub cur_body_recv : ℕ
  pub cur_timestamp_delta : ℕ
  pub cur_timestamp_delta_available : Bool
  pub has_extended_timestamp : Bool

-- `&readerChunkStream{mr: r}`
abbrev pub new_stream : ReaderChunkStream
new_stream = record {
  cur_timestamp = 0;
  cur_timestamp_available = false;
  cur_type = 0;
  cur_message_stream_id = 0;
  cur_body_len = 0;
  cur_body_fragments = [];
  cur_body_recv = 0;
  cur_timestamp_delta = 0;
  cur_timestamp_delta_available = false;
  has_extended_timestamp = false;
}

-- `input` is what `br` has not handed out yet; `acks` lists the calls of `onAckNeeded`, oldest first.
pub record Reader : Type 0 where
  pub input : List ℕ
  pub chunk_size : ℕ
  pub ack_window_size : ℕ
  pub last_ack_count : ℕ
  pub acks : List ℕ
  pub chunk_streams : Streams ReaderChunkStream

-- What the reader is given: the byte counter's value (bytecounter counts what bufio has fetched
-- from the connection, which is ahead of what is consumed), as a function of the unread input, and
-- whether the callback `onAckNeeded` succeeds.
pub record Env : Type 0 where
  pub count : List ℕ → ℕ
  pub on_ack_needed : ℕ → Bool

unfoldable pub new_reader : List ℕ → Reader
new_reader input = record {
  input = input;
  chunk_size = 128;
  ack_window_size = 0;
  last_ack_count = 0;
  acks = [];
  chunk_streams = λ _. none;
}

unfoldable pub set_chunk_size : ℕ → Reader → Result Error Reader
set_chunk_size v r =
    if ltb max_body_size v then err (chunk_size_too_big v) else ok (record r { chunk_size = v })

unfoldable pub set_window_ack_size : ℕ → Reader → Reader
set_window_ack_size v r = record r { ack_window_size = v }

-- `make([]byte, n)`
unfoldable pub zeros : ℕ → List ℕ
zeros zero = []
zeros (suc n) = 0 ∷ zeros n

-- `joinFragments`: the fragments copied one behind the other into a zeroed buffer of `size` bytes.
unfoldable pub join_fragments : List (List ℕ) → ℕ → List ℕ
unfolding zeros
join_fragments [] size = zeros size
join_fragments (p ∷ ps) size = take size p ++ join_fragments ps (size - length (take size p))

-- The part of `readChunk` behind `c.Read`: acknowledge if more than a window came in.
unfoldable pub check_ack : Env → Reader → Result Error Reader
check_ack env r =
    if r.ack_window_size == 0
    then ok r
    else (let count = u32 (env.count r.input) in
        let diff = u32 (count + 2 ^ 32 - r.last_ack_count) in
        if ltb r.ack_window_size diff
        then (if env.on_ack_needed count
            then ok (record r {
              last_ack_count = u32 (r.last_ack_count + r.ack_window_size);
              acks = r.acks ++ (count ∷ []);
            })
            else err ack_failed)
        else ok r)

-- `rc.mr.msg` for the body of the current message. `Read` sets the chunk stream ID.
abbrev pub message_of : ReaderChunkStream → List ℕ → Message
message_of rc body = record {
  chunk_stream_id = 0;
  timestamp = rc.cur_timestamp * millisecond;
  type = rc.cur_type;
  message_stream_id = rc.cur_message_stream_id;
  body = body;
}

-- The end of each first chunk: the whole body is there, or the first fragment of it. `none` is
-- errMoreChunksNeeded.
unfoldable pub first_chunk : ReaderChunkStream → List ℕ → ReaderChunkStream × Option Message
first_chunk rc body =
    let le = length body in
    if rc.cur_body_len == le then (rc, some (message_of rc body)) else (
      record rc { cur_body_fragments = rc.cur_body_fragments ++ (body ∷ []); cur_body_recv = le },
      none,
    )

-- What `readMessage` leaves: the stream's state, the reader and the message, if it is complete.
abbrev pub Step : Type 0
Step = ReaderChunkStream × Reader × Option Message

abbrev pub with_reader : Reader → ReaderChunkStream × Option Message → Step
with_reader r (rc, m) = (rc, r, m)

unfoldable pub read_type0 : Env → Reader → ReaderChunkStream → Result Error Step
read_type0 env r rc = if not (rc.cur_body_recv == 0) then err (expected_type3 0) else (do
  (c, rest) ← read0 r.input r.chunk_size
  r1 ← check_ack env (record r { input = rest })
  let rc1 = record rc {
    cur_message_stream_id = c.message_stream_id;
    cur_type = c.type;
    cur_timestamp = c.timestamp;
    cur_timestamp_available = true;
    cur_timestamp_delta_available = false;
    cur_body_len = c.body_len;
    has_extended_timestamp = leb extended c.timestamp;
  }
  if ltb max_body_size c.body_len
      then err (body_too_big c.body_len)
      else ok (with_reader r1 (first_chunk rc1 c.body)))

unfoldable pub read_type1 : Env → Reader → ReaderChunkStream → Result Error Step
read_type1 env r rc =
    if not rc.cur_timestamp_available
    then err (no_previous_chunk 1)
    else if not (rc.cur_body_recv == 0)
    then err (expected_type3 1)
    else (do
      (c, rest) ← read1 r.input r.chunk_size
      r1 ← check_ack env (record r { input = rest })
      let rc1 = record rc {
        cur_type = c.type;
        cur_timestamp = u32 (rc.cur_timestamp + c.timestamp_delta);
        cur_timestamp_delta = c.timestamp_delta;
        cur_timestamp_delta_available = true;
        cur_body_len = c.body_len;
        has_extended_timestamp = leb extended c.timestamp_delta;
      }
      if ltb max_body_size c.body_len
          then err (body_too_big c.body_len)
          else ok (with_reader r1 (first_chunk rc1 c.body)))

unfoldable pub read_type2 : Env → Reader → ReaderChunkStream → Result Error Step
read_type2 env r rc =
    if not rc.cur_timestamp_available
    then err (no_previous_chunk 2)
    else if not (rc.cur_body_recv == 0)
    then err (expected_type3 2)
    else (do
      (c, rest) ← read2 r.input (cap_len rc.cur_body_len r.chunk_size)
      r1 ← check_ack env (record r { input = rest })
      let rc1 = record rc {
        cur_timestamp = u32 (rc.cur_timestamp + c.timestamp_delta);
        cur_timestamp_delta = c.timestamp_delta;
        cur_timestamp_delta_available = true;
        has_extended_timestamp = leb extended c.timestamp_delta;
      }
      ok (with_reader r1 (first_chunk rc1 c.body)))

-- A type 3 chunk inside a message: the next fragment. The lengths are uint32s.
unfoldable pub next_fragment : ReaderChunkStream → List ℕ → ReaderChunkStream × Option Message
next_fragment rc body =
    let fragments = rc.cur_body_fragments ++ (body ∷ []) in
    let recv = u32 (rc.cur_body_recv + length body) in
    if rc.cur_body_len == recv
    then (
      record rc { cur_body_fragments = []; cur_body_recv = 0 },
      some (message_of rc (join_fragments fragments recv)),
    )
    else (record rc { cur_body_fragments = fragments; cur_body_recv = recv }, none)

unfoldable pub read_type3 : Env → Reader → ReaderChunkStream → Result Error Step
read_type3 env r rc =
    if not (rc.cur_body_recv == 0)
    then (do
      let left = u32 (rc.cur_body_len + 2 ^ 32 - rc.cur_body_recv)
      (c, rest) ← read3 r.input (cap_len left r.chunk_size) rc.has_extended_timestamp
      r1 ← check_ack env (record r { input = rest })
      ok (with_reader r1 (next_fragment rc c.body)))
    else if not rc.cur_timestamp_delta_available
    then err (no_previous_chunk 3)
    else (do
      (c, rest) ← read3 r.input (cap_len rc.cur_body_len r.chunk_size) rc.has_extended_timestamp
      r1 ← check_ack env (record r { input = rest })
      let rc1 = record rc { cur_timestamp = u32 (rc.cur_timestamp + rc.cur_timestamp_delta) }
      ok (with_reader r1 (first_chunk rc1 c.body)))

-- `readMessage`: the switch on the chunk's kind.
unfoldable pub read_message : ℕ → Env → Reader → ReaderChunkStream → Result Error Step
read_message typ env r rc =
    if typ == 0
    then read_type0 env r rc
    else if typ == 1
    then read_type1 env r rc
    else if typ == 2
    then read_type2 env r rc
    else read_type3 env r rc

-- The first byte is peeked at: ReadByte, then UnreadByte.
abbrev pub with_first_byte : {A : Type 0} → List ℕ → (ℕ → Result Error A) → Result Error A
with_first_byte [] f = err eof
with_first_byte (b ∷ r) f = f b

abbrev pub stamp : ℕ → Option Message → Option Message
stamp id none = none
stamp id (some m) = some (record m { chunk_stream_id = id })

-- One round of the loop of `Read`: one chunk.
unfoldable pub read_chunk : Env → Reader → Result Error (Reader × Option Message)
read_chunk env r = with_first_byte r.input λ byt.
    let typ = shr byt 6 in
    let id = bit_and byt 0x3f in
    if ltb id 2 then err extended_stream_id else (do
      (rc, r1, m) ← read_message typ env r (get_or_new id new_stream r.chunk_streams)
      ok (record r1 { chunk_streams = store id rc r1.chunk_streams }, stamp id m))

-- `Read`: chunks until a message is complete.
unfoldable pub read : ℕ → Env → Reader → Result Error (Message × Reader)
read zero env r = err out_of_fuel
read (suc fuel) env r = do
  (r1, m) ← read_chunk env r
  elim m [ none ↦ read fuel env r1 | some msg ↦ ok (msg, r1) ]
