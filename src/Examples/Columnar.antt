-- ===== src/Examples/Columnar.antt =====
-- storage-node/src/columnar/encoding.rs at concrete inputs.
use wow_db.Prelude.{some, ◌≡◌, arith, [], ◌∷◌}
use wow_db.Columnar.Encoding.{delta_encode, delta_decode}
use wow_db.Columnar.Encoding.Delta.{delta_decode-delta_encode}
use wow_db.Columnar.BitPacking.{bitpack_encode, bitpack_decode}
use wow_db.Columnar.BitPacking.RoundTrip.{bitpack_decode-bitpack_encode}

bitpack_decode-bitpack_encode_example :
    bitpack_decode (bitpack_encode (5 ∷ 0 ∷ 1000 ∷ [])) ≡ 5 ∷ 0 ∷ 1000 ∷ []
bitpack_decode-bitpack_encode_example =
    bitpack_decode-bitpack_encode (5 ∷ 0 ∷ 1000 ∷ [])
      (omega arith, (omega arith, (omega arith, tt))) (omega arith)

delta_decode-delta_encode_example :
    delta_decode (delta_encode (7 ∷ 3 ∷ 900 ∷ [])) ≡ some (7 ∷ 3 ∷ 900 ∷ [])
delta_decode-delta_encode_example =
    delta_decode-delta_encode (7 ∷ 3 ∷ 900 ∷ []) (omega arith, (omega arith, (omega arith, tt)))
