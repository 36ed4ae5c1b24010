-- ===== src/Portal.antt =====
-- src/sources/portal.rs and src/sources/portal_beacon.rs: content from a Portal client, by content keys. The
-- HTTP client, with its method, and the crate `hex` are the parameter `PortalClient`.
pub mod History
pub mod Beacon
pub mod Verified
use eth_historian.Base.{List, String, Option, Outcome, Bytes}
use eth_historian.Errors.{Error}
use eth_historian.Archive.Source.{JsonRpcError}

pub record GetContentResult : Type 0 where
  pub content : String

-- The answer of the RPC; its error is that of archive_rpc.rs, which both files declare again.
pub record JsonRpcResponse : Type 0 where
  pub result : Option GetContentResult
  pub error : Option JsonRpcError

pub record PortalClient : Type 0 where
  -- The POST of a content key in hexadecimal.
  pub post : String → Outcome Error JsonRpcResponse
  pub encode : Bytes → String
  pub decode : String → Outcome String Bytes
