-- ===== src/Tests/Storage.antt =====
-- The theorems on words, checksums, records and the header, at concrete inputs.
use qdb.Base.{
  ℕ, ◌+◌, ◌≡◌, refl, List, [], ◌∷◌, ◌++◌, length, drop, ok, err, err_corrupt, arith, Ensures,
}
use qdb.Crc.{crc32, crc32_begin, crc32_update}
use qdb.Platform.{slice}
use qdb.Platform.Memory.{Memory, memory, memory-laws, memory-reads}
use qdb.Io.{
  scanned, scan_partial, record_header, scan_record, header_encode, header_decode, append_record,
  header_update, crc_chunks, is_known_type,
}
use qdb.Io.Header.{FitsHeader, with_fields_of, header_decode-encode}
use qdb.Io.Append.{record_bytes, append_record-bytes}
use qdb.Io.Patch.{header_update-encode}
use qdb.Io.ScanLaws.{Moves, scan_record-Moves}
use qdb.Io.ScanBack.{crc_chunks-slice}
use qdb.Io.RoundTrip.{scan_record-append}
use qdb.Io.Torn.{scan_record-torn}
use qdb.Io.Corrupt.{scan_record-corrupt}
use qdb.Tests.Data.{sample, holding}

-- The check value of CRC-32/ISO-HDLC.
crc32_test : crc32 (0x31 ∷ 0x32 ∷ 0x33 ∷ 0x34 ∷ 0x35 ∷ 0x36 ∷ 0x37 ∷ 0x38 ∷ 0x39 ∷ []) ≡ 0xcbf43926
unfolding crc32
crc32_test = refl

sample-FitsHeader : FitsHeader sample
sample-FitsHeader = record {
  create_time_fits = omega arith;
  next_msg_id_fits = omega arith;
  log_end_fits = omega arith;
  flags_fit = omega arith;
  log_start_past = omega arith;
  log_ordered = omega arith;
}

header_decode-encode_example :
    header_decode (header_encode sample) (record sample { next_msg_id = 0; log_end_offset = 0 })
    ≡ ok tt (with_fields_of sample (record sample { next_msg_id = 0; log_end_offset = 0 }))
header_decode-encode_example =
    header_decode-encode sample (record sample { next_msg_id = 0; log_end_offset = 0 })
      sample-FitsHeader

append_record-bytes_example :
    Ensures
      (λ end w'.
        (end ≡ 2 + (3 + 10))
        × (memory.bytes w' 3
            ≡ (8 ∷ 9 ∷ [])
              ++ (record_bytes 1 (5 ∷ 6 ∷ 7 ∷ [])
                  ++ drop (length (record_bytes 1 (5 ∷ 6 ∷ 7 ∷ []))) (1 ∷ []))))
      (append_record 3 1 (5 ∷ 6 ∷ 7 ∷ []) 2 (holding (8 ∷ 9 ∷ 1 ∷ [])))
unfolding memory
append_record-bytes_example =
    append_record-bytes memory-laws 3 1 (5 ∷ 6 ∷ 7 ∷ []) (8 ∷ 9 ∷ []) (1 ∷ []) 2
      (holding (8 ∷ 9 ∷ 1 ∷ [])) refl refl (omega arith)

header_update-encode_example :
    Ensures
      (λ _ w'.
        memory.bytes w' 3 ≡ header_encode (record sample { next_msg_id = 2 }) ++ (1 ∷ 2 ∷ []))
      (header_update 3
        (record sample { next_msg_id = 2 })
        (holding (header_encode sample ++ (1 ∷ 2 ∷ []))))
unfolding memory
header_update-encode_example =
    header_update-encode memory-laws 3 sample (record sample { next_msg_id = 2 }) (1 ∷ 2 ∷ [])
      (holding (header_encode sample ++ (1 ∷ 2 ∷ []))) refl refl

scan_record-Moves_example :
    Ensures (λ r _. Moves 0 13 r) (scan_record 3 0 13 (holding (record_bytes 1 (5 ∷ 6 ∷ 7 ∷ []))))
scan_record-Moves_example =
    scan_record-Moves 3 0 13 (holding (record_bytes 1 (5 ∷ 6 ∷ 7 ∷ []))) (omega arith)

crc_chunks-slice_example :
    (w' : Memory) × (crc_chunks 2 3 1 2 2 crc32_begin (holding (4 ∷ 5 ∷ 6 ∷ []))
      ≡ ok (crc32_update crc32_begin (slice 1 2 (4 ∷ 5 ∷ 6 ∷ []))) w')
    × (memory.bytes w' ≡ memory.bytes (holding (4 ∷ 5 ∷ 6 ∷ [])))
unfolding memory
crc_chunks-slice_example =
    crc_chunks-slice memory-reads 2 3 1 2 2 crc32_begin (holding (4 ∷ 5 ∷ 6 ∷ [])) (omega arith)
      (omega arith) (omega arith) (omega arith)

abbrev shelf : List ℕ
shelf = (8 ∷ 9 ∷ []) ++ (record_bytes 1 (5 ∷ 6 ∷ 7 ∷ []) ++ (1 ∷ []))

scan_record-append_example :
    (w' : Memory) × (scan_record 3 2 16 (holding shelf) ≡ ok (scanned 1 3 15) w')
    × (memory.bytes w' ≡ memory.bytes (holding shelf))
unfolding memory is_known_type
scan_record-append_example =
    scan_record-append memory-reads 3 1 (5 ∷ 6 ∷ 7 ∷ []) (8 ∷ 9 ∷ []) (1 ∷ []) 2 16 (holding shelf)
      refl refl refl (omega arith) (omega arith) (omega arith)

scan_record-torn_example :
    (w' : Memory) × (scan_record 3 0 12
        (holding (record_header 1 (5 ∷ 6 ∷ []) ++ ((5 ∷ 6 ∷ []) ++ (0 ∷ []))))
      ≡ ok scan_partial w')
    × (memory.bytes w'
        ≡ memory.bytes (holding (record_header 1 (5 ∷ 6 ∷ []) ++ ((5 ∷ 6 ∷ []) ++ (0 ∷ [])))))
unfolding memory
scan_record-torn_example =
    scan_record-torn memory-reads 3 1 0 (5 ∷ 6 ∷ []) [] [] 0 12
      (holding (record_header 1 (5 ∷ 6 ∷ []) ++ ((5 ∷ 6 ∷ []) ++ (0 ∷ [])))) refl
      (λ h. ground arith) refl (omega arith) (omega arith) (omega arith)

scan_record-corrupt_example :
    (w' : Memory) × (scan_record 3 0 11
        (holding (record_header 1 (5 ∷ []) ++ ((6 ∷ []) ++ (0xab ∷ []))))
      ≡ err err_corrupt w')
unfolding memory is_known_type crc32
scan_record-corrupt_example =
    scan_record-corrupt memory-reads 3 1 (5 ∷ []) (6 ∷ []) [] [] 0 11
      (holding (record_header 1 (5 ∷ []) ++ ((6 ∷ []) ++ (0xab ∷ [])))) refl refl
      (λ h. ground arith) refl refl (omega arith) (omega arith) (omega arith)
