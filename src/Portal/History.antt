-- ===== src/Portal/History.antt =====
-- src/sources/portal.rs: headers from the history network.
use Prim.Native.String.{◌++◌ as ◌<+>◌}
use eth_historian.Base.{
  ℕ, ◌∷◌, none, some, Outcome, err, ok_or, display_int, map_err, ◌>>=◌, Bytes, B256, to_le_bytes,
}
use eth_historian.Errors.{Error, data_source, hex}
use eth_historian.Fork.{hex_encode}
use eth_historian.Api.{DataSource}
use eth_historian.Archive.Text.{trim_0x}
use eth_historian.Portal.{PortalClient}

abbrev pub selector_block_header_by_hash : ℕ
selector_block_header_by_hash = 0x00

abbrev pub selector_block_header_by_number : ℕ
selector_block_header_by_number = 0x03

-- The content keys of the two calls.
unfoldable pub key_by_number : ℕ → Bytes
key_by_number block_number = selector_block_header_by_number ∷ to_le_bytes 8 block_number

unfoldable pub key_by_hash : B256 → Bytes
key_by_hash block_hash = selector_block_header_by_hash ∷ block_hash

unfoldable pub get_content : PortalClient → Bytes → Outcome Error Bytes
unfolding hex_encode trim_0x
get_content client content_key = do
  let key_hex = hex_encode client.encode content_key
  parsed ← client.post key_hex
  result ← elim parsed.error [
    | some failure ↦ err (
        data_source ("Portal RPC error " <+> display_int failure.code <+> ": " <+> failure.message))
    | none ↦ ok_or parsed.result (data_source ("Portal returned no result for " <+> key_hex))
  ]
  map_err hex (client.decode (trim_0x result.content))

-- `PortalSidecarSource` as a data source.
unfoldable pub portal_data_source : PortalClient → DataSource
unfolding get_content key_by_number key_by_hash
portal_data_source client = record {
  fetch_header_with_proof_by_number =
      λ block_number. get_content client (key_by_number block_number);
  fetch_header_with_proof_by_hash = λ block_hash. get_content client (key_by_hash block_hash);
  name = "portal-sidecar";
}
