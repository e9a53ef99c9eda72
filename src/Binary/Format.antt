-- ===== src/Binary/Format.antt =====
-- The parts of the format: numbers, references to strings, the header (src/binary.cpp).
use catalyst_build_executor.Base.{
  ◌*◌, ◌/◌, ◌%◌, ℕ, zero, suc, ◌+◌, Bytes, List, [], ◌∷◌, ◌++◌, none, some, length, codes, lookup,
  emplace,
}
use catalyst_build_executor.Domain.{Result, ok, thrown, ◌>>=◌, invalid_read}

pub record StringRef : Type 0 where
  pub offset : ℕ
  pub len : ℕ

-- `StringBuffer`: the strings that were added, one behind the other, and where each one stands.
pub record StringBuffer : Type 0 where
  pub buffer_data : Bytes
  pub buffer_cache : List (Bytes × StringRef)

abbrev pub empty_strings : StringBuffer
empty_strings = record { buffer_data = []; buffer_cache = [] }

-- `StringBuffer::add`
unfoldable pub add_string : Bytes → StringBuffer → StringRef × StringBuffer
add_string sv sb = elim (lookup sv sb.buffer_cache) [
  | some ref ↦ (ref, sb)
  | none ↦
      let ref : StringRef = record { offset = length sb.buffer_data; len = length sv } in
      (
        ref,
        record {
          buffer_data = sb.buffer_data ++ sv;
          buffer_cache = emplace sv ref sb.buffer_cache;
        },
      )
]

-- The bytes of a number, and back: `k` bytes, of which a number keeps as many as it needs.
unfoldable pub le_bytes : ℕ → ℕ → Bytes
le_bytes zero x = []
le_bytes (suc k) x = (x % 256) ∷ le_bytes k (x / 256)

unfoldable pub read_le : ℕ → Bytes → Result (ℕ × Bytes)
read_le zero s = ok (0, s)
read_le (suc k) [] = thrown invalid_read
read_le (suc k) (b ∷ s) = read_le k s >>= λ r. ok (b + 256 * r.0, r.1)

abbrev pub write_u64 : ℕ → Bytes
write_u64 x = le_bytes 8 x

-- `*reinterpret_cast<const uint64_t *>(ptr); ptr += sizeof(uint64_t);`, with what stands from `ptr` on.
abbrev pub read_u64 : Bytes → Result (ℕ × Bytes)
read_u64 ptr = read_le 8 ptr

abbrev pub uint64_max : ℕ
uint64_max = 18446744073709551615

abbrev pub write_ref : StringRef → Bytes
write_ref ref = write_u64 ref.offset ++ write_u64 ref.len

abbrev pub read_ref : Bytes → Result (StringRef × Bytes)
read_ref ptr =
    read_u64 ptr >>= λ r. read_u64 r.1 >>= λ q. ok (record { offset = r.0; len = q.0 }, q.1)

-- The header behind its magic.
pub record BinHeader : Type 0 where
  pub num_definitions : ℕ
  pub num_nodes : ℕ
  pub num_steps : ℕ
  pub strings_size : ℕ

abbrev pub magic : Bytes
magic = codes "CATBL001"

abbrev pub header_size : ℕ
header_size = 40
