-- ===== src/Era1.antt =====
-- src/sources/era1.rs: the source over Era1 files, which answers every call with an error. The text of a path
-- is a string.
use Prim.Native.String.{◌++◌ as ◌<+>◌}
use eth_historian.Base.{String, err}
use eth_historian.Errors.{data_source}
use eth_historian.Api.{DataSource}

pub record Era1FileSource : Type 0 where
  pub root : String

abbrev pub new : String → Era1FileSource
new root = record { root = root }

-- The file as a data source.
abbrev pub era1_data_source : Era1FileSource → DataSource
era1_data_source source = record {
  fetch_header_with_proof_by_number = λ _. err (
      data_source (
        "Era1FileSource at " <+> source.root
        <+> " — Era1 file reading is not yet implemented; see https://github.com/willow-network/eth-historian/issues/13"));
  fetch_header_with_proof_by_hash =
      λ _. err (data_source "Era1FileSource: lookup by hash not implemented");
  name = "era1-file";
}
