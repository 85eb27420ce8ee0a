-- ===== src/Rtmp/Chunk/Tests.antt =====
-- protocols/rtmp/chunk on concrete chunks.
use go_live_vod.Prelude.{◌≡◌, refl, true, false, [], ◌∷◌, ◌++◌, arith}
use go_live_vod.Prelude.Result.{ok, err}
use go_live_vod.Rtmp.Stream.{eof, unexpected_eof, read_full}
use go_live_vod.Rtmp.Chunk.{
  Chunk0, Chunk1, Chunk2, Chunk3, read0, marshal0, read1, marshal1, read2, marshal2, read3,
  marshal3,
}
use go_live_vod.Rtmp.Chunk.RoundTrip.{
  read0-marshal0, read1-marshal1, read2-marshal2, read3-marshal3,
}

-- The chunk of chunk0_test.go.
abbrev chunk0 : Chunk0
chunk0 = record {
  chunk_stream_id = 25;
  timestamp = 11534336;
  body_len = 4;
  type = 20;
  message_stream_id = 345243;
  body = 1 ∷ 2 ∷ 3 ∷ 4 ∷ [];
}

chunk0_bytes :
    marshal0 chunk0
    ≡ 0x19 ∷ 0xb0 ∷ 0 ∷ 0 ∷ 0 ∷ 0 ∷ 4 ∷ 0x14 ∷ 0 ∷ 5 ∷ 0x44 ∷ 0x9b ∷ 1 ∷ 2 ∷ 3 ∷ 4 ∷ []
unfolding marshal0
chunk0_bytes = refl

chunk0_short : read0 (0x19 ∷ 0xb0 ∷ []) 128 ≡ err unexpected_eof
unfolding read0 read_full
chunk0_short = refl

chunk3_empty : read3 [] 4 false ≡ err eof
unfolding read3 read_full
chunk3_empty = refl

-- A timestamp that needs the extension.
abbrev wide0 : Chunk0
wide0 = record chunk0 { timestamp = 0x01020304 }

abbrev chunk1 : Chunk1
chunk1 = record {
  chunk_stream_id = 25;
  timestamp_delta = 0xffffff;
  body_len = 4;
  type = 20;
  body = 1 ∷ 2 ∷ [];
}

abbrev chunk2 : Chunk2
chunk2 = record { chunk_stream_id = 25; timestamp_delta = 0xfffffe; body = 5 ∷ 6 ∷ [] }

abbrev chunk3 : Chunk3
chunk3 = record { chunk_stream_id = 25; body = 5 ∷ 6 ∷ [] }

read0-marshal0_example : read0 (marshal0 wide0 ++ (9 ∷ [])) 128 ≡ ok (wide0, 9 ∷ [])
read0-marshal0_example = read0-marshal0 128 wide0 (9 ∷ []) (record {
  id_fits = omega arith;
  timestamp_fits = omega arith;
  body_len_fits = omega arith;
  message_stream_id_fits = omega arith;
  body_cut = refl;
})

read1-marshal1_example : read1 (marshal1 chunk1 ++ (9 ∷ [])) 2 ≡ ok (chunk1, 9 ∷ [])
read1-marshal1_example = read1-marshal1 2 chunk1 (9 ∷ []) (record {
  id_fits = omega arith;
  delta_fits = omega arith;
  body_len_fits = omega arith;
  body_cut = refl;
})

read2-marshal2_example : read2 (marshal2 chunk2 ++ (9 ∷ [])) 2 ≡ ok (chunk2, 9 ∷ [])
read2-marshal2_example =
    read2-marshal2 2 chunk2 (9 ∷ [])
      (record { id_fits = omega arith; delta_fits = omega arith; body_cut = refl })

read3-marshal3_example : read3 (marshal3 chunk3 true ++ (9 ∷ [])) 2 true ≡ ok (chunk3, 9 ∷ [])
read3-marshal3_example =
    read3-marshal3 2 chunk3 true (9 ∷ []) (record { id_fits = omega arith; body_cut = refl })
