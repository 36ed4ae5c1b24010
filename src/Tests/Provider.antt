-- ===== src/Tests/Provider.antt =====
-- Tests of the beacon data provider: a node that serves one Bellatrix block.
use Prim.Native.String.{◌++◌ as ◌<+>◌}
use eth_historian.Base.{display, ◌≤◌, ◌≡◌, refl, [], ◌∷◌, ok, err, Bytes}
use eth_historian.Types.Codec.{other}
use eth_historian.Beacon.Block.{SignedBeaconBlock, signed_bellatrix}
use eth_historian.Beacon.Signed.{BlockSsz, fork_of, signed_from_ssz_bytes}
use eth_historian.Beacon.Rpc.{fork_for_slot}
use eth_historian.Beacon.Provider.{
  BeaconRpcSource, Response, fetch_signed_beacon_block, fetch_signed_beacon_block_lem,
}
use eth_historian.Tests.Payload.{bellatrix}
use eth_historian.Tests.Blocks.{bellatrix_around}

abbrev one_block : BlockSsz
one_block = record {
  decode_bellatrix_body = λ bytes. ok (bellatrix_around bellatrix).body;
  decode_capella_body = λ bytes. err (other "unknown");
  decode_deneb_body = λ bytes. err (other "unknown");
  decode_electra_body = λ bytes. err (other "unknown");
  decode_bellatrix_block = λ bytes. ok (bellatrix_around bellatrix);
  decode_capella_block = λ bytes. err (other "unknown");
  decode_deneb_block = λ bytes. err (other "unknown");
  decode_electra_block = λ bytes. err (other "unknown");
  block_and_signature = λ bytes. ok (bytes, 8 ∷ []);
  decode_signature = λ bytes. ok bytes;
}

abbrev node : BeaconRpcSource
node = record {
  base_url = "http://localhost:5052";
  client = λ url. ok (record { status = 200; body = ok (1 ∷ 2 ∷ []) });
}

abbrev served : SignedBeaconBlock
served = signed_bellatrix (record { message = bellatrix_around bellatrix; signature = 8 ∷ [] })

serves : fetch_signed_beacon_block one_block node 5 ≡ ok served
unfolding fetch_signed_beacon_block
serves = refl

fetch_signed_beacon_block_lem_example :
    (response : Response) × (bytes : Bytes) × (fork_of served ≡ fork_for_slot 5)
    × (node.client (node.base_url <+> "/eth/v2/beacon/blocks/" <+> display 5) ≡ ok response)
    × (200 ≤ response.status)
    × (response.status ≤ 299)
    × (response.body ≡ ok bytes)
    × (signed_from_ssz_bytes one_block bytes (fork_for_slot 5) ≡ ok served)
fetch_signed_beacon_block_lem_example = fetch_signed_beacon_block_lem one_block node 5 served serves
