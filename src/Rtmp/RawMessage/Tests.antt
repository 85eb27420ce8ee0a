-- ===== src/Rtmp/RawMessage/Tests.antt =====
-- protocols/rtmp/rawmessage on concrete messages.
use go_live_vod.Prelude.{
  ℕ, ◌*◌, ◌+◌, ◌≤◌, ◌≡◌, refl, true, false, List, [], ◌∷◌, ◌++◌, none, some, arith, length,
}
use go_live_vod.Prelude.Result.{ok, err, ◌>>=◌}
use go_live_vod.Rtmp.Stream.{no_previous_chunk, read_full, take_exact, short_read, be24, be32}
use go_live_vod.Rtmp.Chunk.{
  marshal0, marshal1, marshal2, marshal3, read0, read1, read2, read3, read_extended, skip_extended,
}
use go_live_vod.Rtmp.Ensures.{Ensures}
use go_live_vod.Rtmp.RawMessage.{Message, millisecond, max_body_size, store}
use go_live_vod.Rtmp.RawMessage.Reader.{Reader, ReaderChunkStream, new_reader, read, read_chunk}
use go_live_vod.Rtmp.RawMessage.Reader
use go_live_vod.Rtmp.RawMessage.Writer.{Writer, WriterChunkStream, new_writer, write}
use go_live_vod.Rtmp.RawMessage.Writer
use go_live_vod.Rtmp.RawMessage.Fragments.{IsOpen}
use go_live_vod.Rtmp.RawMessage.Sync.{IsCarried, IsUsed}
use go_live_vod.Rtmp.RawMessage.Exchange.{
  write_all, read_all, IsCoupled, IsOrderly, read_all-write_all,
}
use go_live_vod.Rtmp.RawMessage.StaleDelta.{IsTrap, stale_delta}
use go_live_vod.Rtmp.RawMessage.Bounds.{Received, read-Ensures}

-- A connection that takes everything.
abbrev wenv : Writer.Env
wenv = record { count = λ o. length o; accepts = λ o b. true; flushes = λ o. true }

abbrev renv : Reader.Env
renv = record { count = λ i. 0; on_ack_needed = λ n. true }

abbrev at_ms : ℕ → ℕ → List ℕ → Message
at_ms id ms body = record {
  chunk_stream_id = id;
  timestamp = ms * millisecond;
  type = 8;
  message_stream_id = 1;
  body = body;
}

abbrev msg_a : Message
msg_a = at_ms 3 0 (1 ∷ 2 ∷ 3 ∷ [])

abbrev msg_b : Message
msg_b = at_ms 4 16777215 (4 ∷ [])

abbrev msg_c : Message
msg_c = at_ms 3 20 (5 ∷ 6 ∷ 7 ∷ 8 ∷ [])

abbrev three : List Message
three = msg_a ∷ msg_b ∷ msg_c ∷ []

-- Chunks of two bytes.
abbrev small_writer : Writer
small_writer = record (new_writer false) { chunk_size = 2 }

abbrev small_reader : Reader
small_reader = record (new_reader []) { chunk_size = 2 }

three_sent :
    (write_all wenv three small_writer >>= λ w.
    read_all 4 renv 3 (record small_reader { input = w.output }) >>= λ (ms, r). ok ms)
    ≡ ok three
unfolding write_all read_all write read new_writer new_reader Writer.write_message
    Writer.write_chunk Writer.ack_overdue Writer.write_rest read_chunk Writer.first_chunk
    Writer.timestamp_delta marshal0 Reader.read_message Reader.read_type0 read0 read_full
    read_extended be24 be32 Reader.check_ack Reader.first_chunk marshal3 marshal1 marshal2 read1
    read2 read3 skip_extended Reader.join_fragments Reader.next_fragment Reader.read_type1
    Reader.read_type2 Reader.read_type3 Reader.zeros Writer.remember short_read take_exact
three_sent = refl

coupled : IsCoupled wenv (λ id. none) small_writer small_reader
unfolding Writer.ack_overdue new_writer new_reader
coupled = record {
  same_size = refl;
  some_size = omega arith;
  quiet = refl;
  opened = record { accepts = λ o b. refl; flushes = λ o. refl; in_window = λ o. refl };
  in_step = λ id. record {
    no_stream = refl;
    no_timestamp = refl;
    no_delta = refl;
    idle = record { nothing_received = refl; no_fragments = refl };
  };
}

IsCarried-a : IsCarried msg_a
IsCarried-a = record {
  id_fits = omega arith;
  id_plain = omega arith;
  stream_fits = omega arith;
  body_fits = omega arith;
  whole_ms = refl;
  ms_fits = omega arith;
}

IsCarried-b : IsCarried msg_b
IsCarried-b = record {
  id_fits = omega arith;
  id_plain = omega arith;
  stream_fits = omega arith;
  body_fits = omega arith;
  whole_ms = refl;
  ms_fits = omega arith;
}

IsCarried-c : IsCarried msg_c
IsCarried-c = record {
  id_fits = omega arith;
  id_plain = omega arith;
  stream_fits = omega arith;
  body_fits = omega arith;
  whole_ms = refl;
  ms_fits = omega arith;
}

orderly : IsOrderly (λ id. none) three
orderly = (IsCarried-a, tt, (IsCarried-b, tt, (IsCarried-c, (refl, omega arith), tt)))

read_all-write_all_example :
    (w' : Writer) × (bytes : List ℕ) × (r' : Reader) × (write_all wenv three small_writer ≡ ok w')
    × (w'.output ≡ small_writer.output ++ bytes)
    × (read_all (1 + max_body_size) renv 3 (record small_reader { input = bytes ++ (9 ∷ []) })
        ≡ ok (three, r'))
    × (r'.input ≡ 9 ∷ [])
read_all-write_all_example =
    read_all-write_all wenv renv (λ id. none) small_writer small_reader three (9 ∷ []) max_body_size
      coupled orderly (omega arith)

-- Where the writer's last delta was 20 ms and its last message at 20 ms.
abbrev used_writer : WriterChunkStream
used_writer = record {
  last_message_stream_id = some 1;
  last_type = some 8;
  last_body_len = some 1;
  last_timestamp = some 20;
  last_timestamp_delta = some 20;
  has_extended_timestamp = false;
}

abbrev used_reader : ReaderChunkStream
used_reader = record Reader.new_stream {
  cur_timestamp = 20;
  cur_timestamp_available = true;
  cur_type = 8;
  cur_message_stream_id = 1;
  cur_body_len = 1;
  cur_timestamp_delta = 20;
  cur_timestamp_delta_available = true;
}

abbrev later_writer : Writer
later_writer = record (new_writer false) { chunk_streams = store 3 used_writer (λ id. none) }

abbrev later_reader : Reader
later_reader = record (new_reader []) { chunk_streams = store 3 used_reader (λ id. none) }

-- 10 ms, then 30 ms.
abbrev back : Message
back = at_ms 3 10 (1 ∷ [])

abbrev next : Message
next = at_ms 3 30 (2 ∷ [])

IsCarried-one : (ms b : ℕ) → ms ≤ 1000 → IsCarried (at_ms 3 ms (b ∷ []))
IsCarried-one ms b h = record {
  id_fits = omega arith;
  id_plain = omega arith;
  stream_fits = omega arith;
  body_fits = omega arith;
  whole_ms = omega arith;
  ms_fits = omega arith;
}

trap : IsTrap 20 20 128 back next
trap = record {
  carried = IsCarried-one 10 1 (omega arith);
  next_carried = IsCarried-one 30 2 (omega arith);
  goes_back = omega arith;
  one_chunk = omega arith;
  same_chunk_stream = refl;
  same_stream = refl;
  same_type = refl;
  same_len = refl;
  delta_later = refl;
}

opened : IsOpen wenv later_writer
unfolding Writer.ack_overdue new_writer
opened = record { accepts = λ o b. refl; flushes = λ o. refl; in_window = λ o. refl }

used : IsUsed 1 20 used_writer used_reader
used = record {
  w_stream = refl;
  w_type = refl;
  w_len = refl;
  w_timestamp = refl;
  r_stream = refl;
  r_timestamp = refl;
  r_started = refl;
  wide = refl;
  delta = (refl, refl);
  idle = record { nothing_received = refl; no_fragments = refl };
}

stale_delta_example :
    (w' : Writer) × (bytes : List ℕ) × (write_all wenv (back ∷ next ∷ []) later_writer ≡ ok w')
    × (w'.output ≡ later_writer.output ++ bytes)
    × (read_all 1 renv 2 (record later_reader { input = bytes ++ [] }) ≡ err (no_previous_chunk 3))
unfolding new_writer new_reader
stale_delta_example =
    stale_delta wenv renv later_writer later_reader 1 20 20 back next [] 0 opened refl (omega arith)
      refl used refl trap

-- A type 3 chunk on a chunk stream that is new.
abbrev stray : Reader
stray = new_reader (0xc3 ∷ 1 ∷ 2 ∷ [])

read-Ensures_example : Ensures (Received stray) (read 4 renv stray)
unfolding new_reader
read-Ensures_example =
    read-Ensures 4 renv stray (omega arith)
      (λ id. record { received = refl; within = omega arith; len_allowed = omega arith })
