-- ===== src/Rtmp/Message/Connection.antt =====
-- protocols/rtmp/message/reader.go and writer.go: whole messages over the raw ones. A message that
-- sets the chunk size or the acknowledgement window changes the raw reader and writer behind it.
pub mod Coupled
pub mod Conversation
use go_live_vod.Prelude.{ℕ, zero, suc, List, [], ◌∷◌}
use go_live_vod.Prelude.Result.{Result, ok, err, ◌>>=◌}
use go_live_vod.Rtmp.Stream.{Error}
use go_live_vod.Rtmp.RawMessage.Reader.{Reader, read, Env}
use go_live_vod.Rtmp.RawMessage.Reader
use go_live_vod.Rtmp.RawMessage.Writer.{Writer, write}
use go_live_vod.Rtmp.RawMessage.Writer
use go_live_vod.Rtmp.Message.{
  set_window_ack_size, set_chunk_size, RtmpMessage, MessageError, Floats,
}
use go_live_vod.Rtmp.Message.Dispatch.{marshal_message, unmarshal_message}

-- What a call of `Read` or `Write` fails with.
pub data Failure : Type 0 where
  of_connection : Error → Failure
  of_message : MessageError → Failure

abbrev pub from_raw {ℓ} : {A : Type ℓ} → Result Error A → Result Failure A
from_raw (ok a) = ok a
from_raw (err e) = err (of_connection e)

abbrev pub from_message {ℓ} : {A : Type ℓ} → Result MessageError A → Result Failure A
from_message (ok a) = ok a
from_message (err e) = err (of_message e)

-- The type switch at the end of `Write`.
unfoldable pub adjust_writer : RtmpMessage → Writer → Writer
adjust_writer (set_chunk_size v) w = Writer.set_chunk_size v w
adjust_writer (set_window_ack_size v) w = Writer.set_window_ack_size v w
adjust_writer _ w = w

unfoldable pub write_message : Floats → Writer.Env → RtmpMessage → Writer → Result Failure Writer
write_message fl env m w = do
  raw ← from_message (marshal_message fl m)
  w1 ← from_raw (write env raw w)
  ok (adjust_writer m w1)

-- The type switch at the end of `Read`.
unfoldable pub adjust_reader : RtmpMessage → Reader → Result Error Reader
adjust_reader (set_chunk_size v) r = Reader.set_chunk_size v r
adjust_reader (set_window_ack_size v) r = ok (Reader.set_window_ack_size v r)
adjust_reader _ r = ok r

unfoldable pub read_message :
    Floats → ℕ → Reader.Env → Reader → Result Failure (RtmpMessage × Reader)
read_message fl fuel env r = do
  (raw, r1) ← from_raw (read fuel env r)
  m ← from_message (unmarshal_message fl raw)
  r2 ← from_raw (adjust_reader m r1)
  ok (m, r2)

-- Calls of `Write` one after the other, and as many calls of `Read`, up to the first that fails.
unfoldable pub write_messages :
    Floats → Writer.Env → List RtmpMessage → Writer → Result Failure Writer
write_messages fl env [] w = ok w
write_messages fl env (m ∷ ms) w = do w1 ← write_message fl env m w; write_messages fl env ms w1

unfoldable pub read_messages :
    Floats → ℕ → Reader.Env → ℕ → Reader → Result Failure (List RtmpMessage × Reader)
read_messages fl fuel env zero r = ok ([], r)
read_messages fl fuel env (suc n) r = do
  (m, r1) ← read_message fl fuel env r
  (ms, r2) ← read_messages fl fuel env n r1
  ok (m ∷ ms, r2)
