-- ===== src/Rtmp/Message/Amf.antt =====
-- protocols/rtmp/message/msg_data_amf0.go and msg_command_amf0.go.
use go_live_vod.Prelude.Result.{Result, ok, err, ◌>>=◌}
use go_live_vod.Rtmp.RawMessage.{Message as Raw}
use go_live_vod.Rtmp.Amf0.{Values, AmfError, number, string, value}
use go_live_vod.Rtmp.Amf0.Marshal.{marshal}
use go_live_vod.Rtmp.Amf0.Unmarshal.{unmarshal_data}
use go_live_vod.Rtmp.Message.{
  MessageError, CommandAmf0, DataAmf0, Floats, amf0_error, invalid_command_payload,
}

-- An error of the package amf0 is passed on.
abbrev pub from_amf0 : {A : Type 0} → Result AmfError A → Result MessageError A
from_amf0 (ok a) = ok a
from_amf0 (err e) = err (amf0_error e)

unfoldable pub unmarshal_data_amf0 : Raw → Result MessageError DataAmf0
unmarshal_data_amf0 raw = do
  payload ← from_amf0 (unmarshal_data raw.body)
  ok (record {
    chunk_stream_id = raw.chunk_stream_id;
    message_stream_id = raw.message_stream_id;
    payload = payload;
  })

unfoldable pub marshal_data_amf0 : DataAmf0 → Result MessageError Raw
marshal_data_amf0 m = do
  body ← from_amf0 (marshal m.payload)
  ok (record {
    chunk_stream_id = m.chunk_stream_id;
    timestamp = 0;
    type = 18;
    message_stream_id = m.message_stream_id;
    body = body;
  })

-- `payload[0].(string)`, `payload[1].(float64)` and `payload[2:]` of at least three values.
unfoldable pub command_of : Floats → Raw → Values → Result MessageError CommandAmf0
command_of fl raw (value (string name) (value (number id) (value v vs))) = ok (record {
  chunk_stream_id = raw.chunk_stream_id;
  message_stream_id = raw.message_stream_id;
  name = name;
  command_id = fl.to_int id;
  arguments = value v vs;
})
command_of fl raw _ = err invalid_command_payload

unfoldable pub unmarshal_command_amf0 : Floats → Raw → Result MessageError CommandAmf0
unmarshal_command_amf0 fl raw = from_amf0 (unmarshal_data raw.body) >>= command_of fl raw

unfoldable pub marshal_command_amf0 : Floats → CommandAmf0 → Result MessageError Raw
marshal_command_amf0 fl m = do
  body ←
      from_amf0
        (marshal (value (string m.name) (value (number (fl.of_int m.command_id)) m.arguments)))
  ok (record {
    chunk_stream_id = m.chunk_stream_id;
    timestamp = 0;
    type = 20;
    message_stream_id = m.message_stream_id;
    body = body;
  })
