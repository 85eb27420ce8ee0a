-- ===== src/Rtmp/Amf0/Marshal.antt =====
-- mediamtx/internal/protocols/rtmp/amf0/data.go: Marshal, MarshalTo, MarshalSize and what they call.
-- A function that writes into a buffer returns the buffer and the number that the source returns; where
-- it writes or slices behind the end, which is a panic, the error is `index_out_of_range`.
use go_live_vod.Prelude.{
  ℕ, zero, suc, ◌+◌, true, false, List, [], ◌∷◌, ◌++◌, length, drop, if◌then◌else◌, ltb, take,
}
use go_live_vod.Prelude.Bits.{shr, u8}
use go_live_vod.Prelude.Result.{Result, ok, err, ◌>>=◌}
use go_live_vod.Rtmp.Amf0.{
  Value, Entries, Values, AmfError, number, boolean, string, ecma_array, object, strict_array, null,
  of_another_type, no_entries, entry, no_values, value, count, unsupported_data_type,
  index_out_of_range,
}

unfoldable mutual
  pub marshal_size_item : Value → Result AmfError ℕ
  marshal_size_item (number n) = ok 9
  marshal_size_item (boolean b) = ok 2
  marshal_size_item (string s) = ok (3 + length s)
  marshal_size_item (ecma_array es) = do n ← marshal_size_entries es; ok (5 + n + 3)
  marshal_size_item (object es) = do n ← marshal_size_entries es; ok (1 + n + 3)
  marshal_size_item (strict_array vs) = do n ← marshal_size_values vs; ok (5 + n)
  marshal_size_item null = ok 1
  marshal_size_item of_another_type = err unsupported_data_type

  pub marshal_size_entries : Entries → Result AmfError ℕ
  marshal_size_entries no_entries = ok 0
  marshal_size_entries (entry key v es) = do
    en ← marshal_size_item v
    n ← marshal_size_entries es
    ok (2 + length key + en + n)

  pub marshal_size_values : Values → Result AmfError ℕ
  marshal_size_values no_values = ok 0
  marshal_size_values (value v vs) = do
    en ← marshal_size_item v
    n ← marshal_size_values vs
    ok (en + n)

-- `len` of an Object or ECMAArray.
abbrev pub entry_count : Entries → ℕ
entry_count no_entries = 0
entry_count (entry key v es) = suc (entry_count es)

abbrev pub length16 : ℕ → List ℕ
length16 le = u8 (shr le 8) ∷ u8 le ∷ []

abbrev pub length32 : ℕ → List ℕ
length32 le = u8 (shr le 24) ∷ u8 (shr le 16) ∷ u8 (shr le 8) ∷ u8 le ∷ []

abbrev pub bits64 : ℕ → List ℕ
bits64 v = u8 (shr v 56) ∷ u8 (shr v 48) ∷ u8 (shr v 40) ∷ u8 (shr v 32) ∷ length32 v

abbrev pub object_end_mark : List ℕ
object_end_mark = 0 ∷ 0 ∷ 0x09 ∷ []

-- `buf[n:]`
unfoldable pub slice : ℕ → List ℕ → Result AmfError (List ℕ)
slice n buf = if ltb (length buf) n then err index_out_of_range else ok (drop n buf)

-- `buf[0] = ...`, `buf[1] = ...`, and so on.
unfoldable pub put : List ℕ → List ℕ → Result AmfError (List ℕ)
put bs buf =
    if ltb (length buf) (length bs) then err index_out_of_range else ok (bs ++ drop (length bs) buf)

-- `buf[n] = ...`, `buf[n+1] = ...`, and so on.
unfoldable pub put_at : ℕ → List ℕ → List ℕ → Result AmfError (List ℕ)
put_at n bs buf = do t ← slice n buf; w ← put bs t; ok (take n buf ++ w)

-- `copy(buf[n:], s)`, which cuts what does not fit.
unfoldable pub copy_at : ℕ → List ℕ → List ℕ → List ℕ
copy_at n s buf = take n buf ++ (take (length (drop n buf)) s ++ drop (length s) (drop n buf))

unfoldable mutual
  pub marshal_item : Value → List ℕ → Result AmfError (List ℕ × ℕ)
  marshal_item (number n) buf = do b ← put (0x00 ∷ bits64 n) buf; ok (b, 9)
  marshal_item (boolean true) buf = do b ← put (0x01 ∷ 1 ∷ []) buf; ok (b, 2)
  marshal_item (boolean false) buf = do b ← put (0x01 ∷ []) buf; ok (b, 2)
  marshal_item (string s) buf = do
    b ← put (0x02 ∷ length16 (length s)) buf
    ok (copy_at 3 s b, 3 + length s)
  marshal_item (ecma_array es) buf = do
    b ← put (0x08 ∷ length32 (entry_count es)) buf
    written ← marshal_entries es b 5
    end ← put_at (written.1) object_end_mark (written.0)
    ok (end, written.1 + 3)
  marshal_item (object es) buf = do
    b ← put (0x03 ∷ []) buf
    written ← marshal_entries es b 1
    end ← put_at (written.1) object_end_mark (written.0)
    ok (end, written.1 + 3)
  marshal_item (strict_array vs) buf = do
    b ← put (0x0a ∷ length32 (count vs)) buf
    marshal_values vs b 5
  marshal_item null buf = do b ← put (0x05 ∷ []) buf; ok (b, 1)
  marshal_item of_another_type buf = do b ← put (0x05 ∷ []) buf; ok (b, 1)

  -- The loop over the entries, from `n` on.
  pub marshal_entries : Entries → List ℕ → ℕ → Result AmfError (List ℕ × ℕ)
  marshal_entries no_entries buf n = ok (buf, n)
  marshal_entries (entry key v es) buf n = do
    b ← put_at n (length16 (length key)) buf
    let m = n + (2 + length key)
    let b2 = copy_at (n + 2) key b
    t ← slice m b2
    written ← marshal_item v t
    marshal_entries es (take m b2 ++ written.0) (m + written.1)

  pub marshal_values : Values → List ℕ → ℕ → Result AmfError (List ℕ × ℕ)
  marshal_values no_values buf n = ok (buf, n)
  marshal_values (value v vs) buf n = do
    t ← slice n buf
    written ← marshal_item v t
    marshal_values vs (take n buf ++ written.0) (n + written.1)

-- `make([]byte, n)`
unfoldable pub zeros : ℕ → List ℕ
zeros zero = []
zeros (suc n) = 0 ∷ zeros n

-- `MarshalTo`
unfoldable pub marshal_to : Values → List ℕ → Result AmfError (List ℕ × ℕ)
marshal_to d buf = marshal_values d buf 0

-- `Marshal`, whose result is the whole buffer.
unfoldable pub marshal : Values → Result AmfError (List ℕ)
marshal d = do n ← marshal_size_values d; written ← marshal_to d (zeros n); ok (written.0)
