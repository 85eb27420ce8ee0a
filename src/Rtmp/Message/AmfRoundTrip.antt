-- ===== src/Rtmp/Message/AmfRoundTrip.antt =====
-- protocols/rtmp/message/msg_data_amf0.go and msg_command_amf0.go: writing and reading.
use go_live_vod.Prelude.{ℕ, arith, ◌<◌, ◌^◌, ◌≡◌, List}
use go_live_vod.Rtmp.Message.{data_amf0, command_amf0, Floats, CommandAmf0, DataAmf0}
use go_live_vod.Rtmp.Amf0.{count, Values, no_values, number, string, value}
use go_live_vod.Rtmp.Message.Dispatch.{unmarshal_allocated, allocate_message, unmarshal_message}
use go_live_vod.Rtmp.RawMessage.{Message as Raw}
use go_live_vod.Prelude.Result.{ok}
use go_live_vod.Rtmp.Amf0.Bytes.{AllEncodable, IsEncodable}
use go_live_vod.Rtmp.Message.Amf.{
  command_of, marshal_command_amf0, marshal_data_amf0, unmarshal_command_amf0, unmarshal_data_amf0,
}
use go_live_vod.Rtmp.Amf0.RoundTrip.{unmarshal_data-marshal}
use go_live_vod.Rtmp.Message.Carried.{IsCarriedCommand}

abbrev data_message : ℕ → ℕ → ℕ → List ℕ → Raw
data_message chunk_stream_id message_stream_id type body = record {
  chunk_stream_id = chunk_stream_id;
  timestamp = 0;
  type = type;
  message_stream_id = message_stream_id;
  body = body;
}

module _ (fl : Floats) where
  command_of-parts :
      (raw : Raw) (name : List ℕ) (id : ℕ) (args : Values)
      → id < 2 ^ 53
      → 0 < count args
      → command_of fl raw (value (string name) (value (number (fl.of_int id)) args))
        ≡ ok (record {
          chunk_stream_id = raw.chunk_stream_id;
          message_stream_id = raw.message_stream_id;
          name = name;
          command_id = id;
          arguments = args;
        })
  unfolding command_of
  command_of-parts raw name id no_values fits some_value = absurd (omega arith)
  command_of-parts raw name id (value v vs) fits some_value = rw (fl.to_int-of_int id fits)

  pub data_read :
      (m : DataAmf0)
      → AllEncodable m.payload
      → (raw : Raw) × (marshal_data_amf0 m ≡ ok raw) × (unmarshal_message fl raw ≡ ok (data_amf0 m))
  unfolding unmarshal_message allocate_message unmarshal_allocated unmarshal_data_amf0
      marshal_data_amf0
  data_read m h =
      let (body, marshalled, read) = unmarshal_data-marshal m.payload h in
      (data_message m.chunk_stream_id m.message_stream_id 18 body, rw marshalled, rw read)

  pub command_read :
      (m : CommandAmf0)
      → IsCarriedCommand m
      → (raw : Raw) × (marshal_command_amf0 fl m ≡ ok raw)
        × (unmarshal_message fl raw ≡ ok (command_amf0 m))
  unfolding unmarshal_message allocate_message unmarshal_allocated unmarshal_command_amf0
      marshal_command_amf0 IsCarriedCommand IsEncodable
  command_read m (name, id, some_argument, arguments) =
      let (body, marshalled, read) =
        unmarshal_data-marshal
          (value (string m.name) (value (number (fl.of_int m.command_id)) m.arguments))
          (name, (fl.of_int-bits m.command_id, arguments)) in
      let raw = data_message m.chunk_stream_id m.message_stream_id 20 body in
      (
        raw,
        rw marshalled,
        rw (read, command_of-parts raw m.name m.command_id m.arguments id some_argument),
      )
