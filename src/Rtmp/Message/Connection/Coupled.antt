-- ===== src/Rtmp/Message/Connection/Coupled.antt =====
-- The type switches at the end of Read and Write (protocols/rtmp/message/reader.go and writer.go) keep
-- the two sides in step.
use go_live_vod.Prelude.{ℕ, ◌/◌, ◌≤◌, ◌≡◌, refl, List, arith}
use go_live_vod.Prelude.Result.{ok}
use go_live_vod.Rtmp.RawMessage.{millisecond, max_body_size, store, Message as Raw}
use go_live_vod.Rtmp.RawMessage.Reader.{Reader}
use go_live_vod.Rtmp.RawMessage.Reader
use go_live_vod.Rtmp.RawMessage.Writer.{Writer}
use go_live_vod.Rtmp.RawMessage.Writer
use go_live_vod.Rtmp.RawMessage.Fragments.{IsOpen, IsOpen-output, IsOpen-streams}
use go_live_vod.Rtmp.RawMessage.Sync
use go_live_vod.Rtmp.RawMessage.Exchange.{Last, IsCoupled, store-Sync}
use go_live_vod.Rtmp.Message.{set_window_ack_size, set_chunk_size, RtmpMessage}
use go_live_vod.Rtmp.Message.Connection.{adjust_reader, adjust_writer}

-- A new chunk size is one that the reader accepts and a body can be cut by, and no window is set.
unfoldable pub IsSteady : RtmpMessage → Type 0
IsSteady (set_chunk_size v) = (1 ≤ v) × (v ≤ max_body_size)
IsSteady (set_window_ack_size v) = ⊥
IsSteady _ = Unit {0}

-- The reader behind a message.
abbrev pub adjusted : RtmpMessage → Reader → Reader
adjusted (set_chunk_size v) r = record r { chunk_size = v }
adjusted _ r = r

pub adjust_reader-IsSteady :
    (m : RtmpMessage) (r : Reader) → IsSteady m → adjust_reader m r ≡ ok (adjusted m r)
unfolding IsSteady adjust_reader Reader.set_chunk_size
adjust_reader-IsSteady (set_chunk_size v) r (some, fits) = ground arith
adjust_reader-IsSteady (set_window_ack_size v) r s = absurd s
adjust_reader-IsSteady _ r s = refl

pub adjusted-input :
    (m : RtmpMessage) (r : Reader) (i : List ℕ)
    → adjusted m (record r { input = i }) ≡ record (adjusted m r) { input = i }
adjusted-input (set_chunk_size v) r i = refl
adjusted-input _ r i = refl

IsOpen-size :
    (env : Writer.Env) (w : Writer) (v : ℕ)
    → IsOpen env w
    → IsOpen env (record w { chunk_size = v })
unfolding Writer.ack_overdue
IsOpen-size env w v h = record {
  accepts = h.accepts;
  flushes = h.flushes;
  in_window = λ o. h.in_window o;
}

-- Both sides change together.
pub IsCoupled-adjusted :
    (env : Writer.Env) (last : Last) (m : RtmpMessage) (w : Writer) (r : Reader)
    → IsSteady m
    → IsCoupled env last w r
    → IsCoupled env last (adjust_writer m w) (adjusted m r)
unfolding IsSteady adjust_writer Writer.set_chunk_size
IsCoupled-adjusted env last (set_chunk_size v) w r (some, fits) c = record {
  same_size = refl;
  some_size = some;
  quiet = c.quiet;
  opened = IsOpen-size env w v c.opened;
  in_step = c.in_step;
}
IsCoupled-adjusted env last (set_window_ack_size v) w r s c = absurd s
IsCoupled-adjusted env last _ w r s c = c

pub adjust_writer-output : (m : RtmpMessage) (w : Writer) → (adjust_writer m w).output ≡ w.output
unfolding adjust_writer Writer.set_chunk_size Writer.set_window_ack_size
adjust_writer-output (set_chunk_size v) w = refl
adjust_writer-output (set_window_ack_size v) w = refl
adjust_writer-output _ w = refl

-- A message leaves writer and reader coupled.
pub IsCoupled-behind :
    (env : Writer.Env) (last : Last) (w : Writer) (r : Reader) (raw : Raw) (o : List ℕ)
    (wc : Writer.WriterChunkStream) (rc : Reader.ReaderChunkStream)
    → Sync.IsUsed raw.message_stream_id (raw.timestamp / millisecond) wc rc
    → IsCoupled env last w r
    → IsCoupled env
        (store raw.chunk_stream_id (raw.message_stream_id, raw.timestamp / millisecond) last)
        (record w { output = o; chunk_streams = store raw.chunk_stream_id wc w.chunk_streams })
        (record r { chunk_streams = store raw.chunk_stream_id rc r.chunk_streams })
IsCoupled-behind env last w r raw o wc rc used c = record {
  same_size = c.same_size;
  some_size = c.some_size;
  quiet = c.quiet;
  opened =
      IsOpen-streams env (record w { output = o }) (store raw.chunk_stream_id wc w.chunk_streams)
        (IsOpen-output env w o c.opened);
  in_step = λ j.
      store-Sync raw.chunk_stream_id j (raw.message_stream_id, raw.timestamp / millisecond) wc rc
        last w.chunk_streams r.chunk_streams used (c.in_step j);
}

pub adjust_writer-IsOpen :
    (env : Writer.Env) (m : RtmpMessage) (w : Writer)
    → IsSteady m
    → IsOpen env w
    → 1 ≤ w.chunk_size
    → IsOpen env (adjust_writer m w) × 1 ≤ (adjust_writer m w).chunk_size
unfolding IsSteady adjust_writer Writer.set_chunk_size
adjust_writer-IsOpen env (set_chunk_size v) w (some, fits) h some_size =
    (IsOpen-size env w v h, some)
adjust_writer-IsOpen env (set_window_ack_size v) w s h some_size = absurd s
adjust_writer-IsOpen env _ w s h some_size = (h, some_size)
