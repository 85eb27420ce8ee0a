-- ===== src/Rtmp/Amf0/Written.antt =====
-- protocols/rtmp/amf0: what is written into a buffer that is large enough.
use go_live_vod.Prelude.{
  ℕ, ◌≡◌, List, [], ap, arith, drop, false, length, length-append, refl, sym, true, ◌+◌, ◌∷◌, ◌++◌,
  append_assoc, length-drop, ◌≤◌,
}
use go_live_vod.Rtmp.Amf0.{
  Value, Entries, Values, boolean, ecma_array, entry, no_entries, no_values, null, number, object,
  of_another_type, strict_array, string, value, count,
}
use go_live_vod.Rtmp.Amf0.Marshal.{
  marshal_entries, marshal_item, marshal_values, bits64, entry_count, length16, length32,
  object_end_mark,
}
use go_live_vod.Rtmp.Amf0.Bytes.{bytes, entries_bytes, values_bytes}
use go_live_vod.Prelude.Result.{ok}
use go_live_vod.Rtmp.Amf0.Buffers.{
  AllZero, AllZero-drop, drop-drop, slice_fits, take_fits, put_fits, put_at_fits, copy_at_fits,
  written, regrouped, grouped, ended, second_zero,
}

-- Where there is room, the bytes of a value are written, and what is behind them is left.
mutual
  unfolding marshal_item bytes

  pub marshal_item_fits :
      (v : Value) (buf : List ℕ)
      → AllZero buf
      → length (bytes v) ≤ length buf
      → marshal_item v buf ≡ ok (bytes v ++ drop (length (bytes v)) buf, length (bytes v))
  marshal_item_fits (number n) buf az h = rw (put_fits (0x00 ∷ bits64 n) buf h)
  marshal_item_fits (boolean true) buf az h = rw (put_fits (0x01 ∷ 1 ∷ []) buf h)
  marshal_item_fits (boolean false) buf az h =
      rw (put_fits (0x01 ∷ []) buf (omega arith), second_zero buf az h)
  marshal_item_fits (string s) buf az h =
      let mark : List ℕ = 0x02 ∷ length16 (length s) in
      let z = drop 3 buf in
      rw
        (
          put_fits mark buf (omega arith),
          copy_at_fits (mark ++ z) 3 mark s z refl refl (omega (arith, length-drop 3 buf)),
        )
        (written _ _ _ _
          (ap (λ t. mark ++ (s ++ t))
            (drop-drop 3 (length s) (length (bytes (string s))) buf (omega arith)))
          (omega arith))
  marshal_item_fits (ecma_array es) buf az h =
      let mark : List ℕ = 0x08 ∷ length32 (entry_count es) in
      let z = drop 5 buf in
      let k = length (entries_bytes es) in
      let room : 5 + (k + 3) ≤ length buf =
        omega (arith, h, length-append (entries_bytes es) object_end_mark) in
      let inner =
        marshal_entries_fits es (mark ++ z) 5 mark z refl refl (AllZero-drop 5 buf az)
          (omega (arith, length-drop 5 buf)) in
      rw (put_fits mark buf (omega arith), inner, ended mark (entries_bytes es) 5 buf refl room)
        (written _ _ _ _ refl (omega (arith, length-append (entries_bytes es) object_end_mark)))
  marshal_item_fits (object es) buf az h =
      let mark : List ℕ = 0x03 ∷ [] in
      let z = drop 1 buf in
      let k = length (entries_bytes es) in
      let room : 1 + (k + 3) ≤ length buf =
        omega (arith, h, length-append (entries_bytes es) object_end_mark) in
      let inner =
        marshal_entries_fits es (mark ++ z) 1 mark z refl refl (AllZero-drop 1 buf az)
          (omega (arith, length-drop 1 buf)) in
      rw (put_fits mark buf (omega arith), inner, ended mark (entries_bytes es) 1 buf refl room)
        (written _ _ _ _ refl (omega (arith, length-append (entries_bytes es) object_end_mark)))
  marshal_item_fits (strict_array vs) buf az h =
      let mark : List ℕ = 0x0a ∷ length32 (count vs) in
      let z = drop 5 buf in
      let inner =
        marshal_values_fits vs (mark ++ z) 5 mark z refl refl (AllZero-drop 5 buf az)
          (omega (arith, h, length-drop 5 buf)) in
      rw (put_fits mark buf (omega arith), inner)
        (written _ _ _ _
          (ap (λ t. mark ++ (values_bytes vs ++ t))
            (drop-drop 5 (length (values_bytes vs)) (length (bytes (strict_array vs))) buf
              (omega arith)))
          (omega arith))
  marshal_item_fits null buf az h = rw (put_fits (0x05 ∷ []) buf h)
  marshal_item_fits of_another_type buf az h = rw (put_fits (0x05 ∷ []) buf h)

  marshal_entries_fits :
      (es : Entries) (buf : List ℕ) (n : ℕ) (pre z : List ℕ)
      → buf ≡ pre ++ z
      → n ≡ length pre
      → AllZero z
      → length (entries_bytes es) ≤ length z
      → marshal_entries es buf n
        ≡ ok (
          pre ++ (entries_bytes es ++ drop (length (entries_bytes es)) z),
          n + length (entries_bytes es),
        )
  marshal_entries_fits no_entries buf n pre z e en az h =
      written buf (pre ++ z) n (n + 0) e (omega arith)
  marshal_entries_fits (entry key v es) buf n pre z e en az h =
      let k = length key in
      let size = length16 k in
      let z1 = drop 2 z in
      let z2 = drop k z1 in
      let z3 = drop (length (bytes v)) z2 in
      let head = (pre ++ size) ++ key in
      let whole : 2 + (k + (length (bytes v) + length (entries_bytes es))) ≤ length z = omega (
        arith,
        h,
        length-append key (bytes v ++ entries_bytes es),
        length-append (bytes v) (entries_bytes es),
      ) in
      let l1 = length-drop 2 z in
      let l2 = length-drop k z1 in
      let l3 = length-drop (length (bytes v)) z2 in
      let lp = length-append pre size in
      let lh = length-append (pre ++ size) key in
      let m = n + (2 + k) in
      let at_end : m ≡ length head = omega (arith, en, lp, lh) in
      let sized = put_at_fits buf n pre size z e en (omega (arith, whole)) in
      let keyed =
        copy_at_fits (pre ++ (size ++ z1)) (n + 2) (pre ++ size) key z1
          (sym (append_assoc pre size z1)) (omega (arith, en, lp)) (omega (arith, whole, l1)) in
      let cut = sym (append_assoc (pre ++ size) key z2) in
      let az2 = AllZero-drop k z1 (AllZero-drop 2 z az) in
      let item = marshal_item_fits v z2 az2 (omega (arith, whole, l1, l2)) in
      let rest =
        marshal_entries_fits es (head ++ (bytes v ++ z3)) (m + length (bytes v)) (head ++ bytes v)
          z3 (sym (append_assoc head (bytes v) z3))
          (omega (arith, at_end, length-append head (bytes v)))
          (AllZero-drop (length (bytes v)) z2 az2) (omega (arith, whole, l1, l2, l3)) in
      rw
        (
          sized,
          keyed,
          slice_fits ((pre ++ size) ++ (key ++ z2)) m head z2 cut at_end,
          item,
          take_fits ((pre ++ size) ++ (key ++ z2)) m head z2 cut at_end,
          rest,
        )
        (written _ _ _ _ (grouped pre size key (bytes v) (entries_bytes es) z) (
          omega (
            arith,
            length-append key (bytes v ++ entries_bytes es),
            length-append (bytes v) (entries_bytes es),
          )))

  pub marshal_values_fits :
      (vs : Values) (buf : List ℕ) (n : ℕ) (pre z : List ℕ)
      → buf ≡ pre ++ z
      → n ≡ length pre
      → AllZero z
      → length (values_bytes vs) ≤ length z
      → marshal_values vs buf n
        ≡ ok (
          pre ++ (values_bytes vs ++ drop (length (values_bytes vs)) z),
          n + length (values_bytes vs),
        )
  marshal_values_fits no_values buf n pre z e en az h =
      written buf (pre ++ z) n (n + 0) e (omega arith)
  marshal_values_fits (value v vs) buf n pre z e en az h =
      let z1 = drop (length (bytes v)) z in
      let room : length (bytes v) + length (values_bytes vs) ≤ length z =
        omega (arith, h, length-append (bytes v) (values_bytes vs)) in
      let item = marshal_item_fits v z az (omega (arith, room)) in
      let rest =
        marshal_values_fits vs (pre ++ (bytes v ++ z1)) (n + length (bytes v)) (pre ++ bytes v) z1
          (sym (append_assoc pre (bytes v) z1)) (omega (arith, en, length-append pre (bytes v)))
          (AllZero-drop (length (bytes v)) z az)
          (omega (arith, room, length-drop (length (bytes v)) z)) in
      rw (slice_fits buf n pre z e en, take_fits buf n pre z e en, item, rest)
        (written _ _ _ _ (regrouped pre (bytes v) (values_bytes vs) z)
          (omega (arith, length-append (bytes v) (values_bytes vs))))
