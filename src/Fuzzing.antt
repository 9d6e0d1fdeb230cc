-- ===== src/Fuzzing.antt =====
-- src/fuzzing.rs: the entry points of the fuzz targets, which say whether an input is accepted.
pub mod Accepts
use memseal.Prelude.{Bool, true, false}
use memseal.Bytes.{Bytes}
use memseal.Errors.{Result, ok, err, VaultError}
use memseal.Platform.{Platform}
use memseal.Codec.Decode.{decode_index as decode}
use memseal.Codec.Legacy.{decode_index_v1 as decode_v1}
use memseal.Envelope.{parse_envelope as parse}

-- `Result::is_ok`
abbrev pub is_ok : {A : Type 0} → Result VaultError A → Bool
is_ok (ok a) = true
is_ok (err e) = false

unfoldable pub parse_envelope : Platform → Bytes → Bool
parse_envelope p bytes = is_ok (parse p bytes)

unfoldable pub decode_index : Bytes → Bool
decode_index bytes = is_ok (decode bytes)

unfoldable pub decode_index_v1 : Platform → Bytes → Bool
decode_index_v1 p bytes = is_ok (decode_v1 p.index_from_json bytes)
