-- ===== src/Binary/Malformed.antt =====
-- What the reader does with counts that the file does not hold.
use mathlib.Core.List.{append-nil}
use catalyst_build_executor.Base.{ℕ, suc, ◌≡◌, refl, ap, sym, ◌∙◌, [], arith}
use catalyst_build_executor.Domain.{thrown, invalid_read}
use catalyst_build_executor.Builder.{Builder}
use catalyst_build_executor.Binary.Format.{BinHeader, read_le}
use catalyst_build_executor.Binary.Reader.{
  read_definitions, read_tables, read_sv, parse_bin_content,
}
use catalyst_build_executor.Binary.Writer.{write_header}
use catalyst_build_executor.Binary.Strings.{IsU64}
use catalyst_build_executor.Binary.RoundTrip.{parse_bin_content-header}

-- The counts of the header are not compared with the size of the file: of a header alone that
-- promises a definition, the reader leaves the file. Its numbers have 64 bits.
pub parse_bin_content-short :
    (n num_nodes num_steps : ℕ) (b : Builder)
    → IsU64 (suc n)
    → IsU64 num_nodes
    → IsU64 num_steps
    → parse_bin_content
        (write_header (record {
          num_definitions = suc n;
          num_nodes = num_nodes;
          num_steps = num_steps;
          strings_size = 0;
        }))
        b
      ≡ thrown invalid_read
unfolding read_tables read_definitions read_sv read_le
parse_bin_content-short n num_nodes num_steps b d t s =
    let h : BinHeader = record {
      num_definitions = suc n;
      num_nodes = num_nodes;
      num_steps = num_steps;
      strings_size = 0;
    } in
    ap (λ c. parse_bin_content c b) (sym (append-nil (write_header h)))
    ∙ parse_bin_content-header h [] [] b refl d t s (omega arith)
