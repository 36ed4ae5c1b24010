-- ===== src/Tests/Forks.antt =====
-- Tests of the names and digests of the forks.
use eth_historian.Base.{◌≡◌, ◌↔◌, [], ◌∷◌, String, ok, Bytes}
use eth_historian.Fork.{deneb, as_fork_digest, try_from, try_from_iff}

abbrev no_digits : Bytes → String
no_digits bytes = "00"

abbrev deneb_digest : Bytes
deneb_digest = 0x6a ∷ 0x95 ∷ 0xa1 ∷ 0xa9 ∷ []

try_from_iff_example :
    (try_from no_digits deneb_digest ≡ ok deneb) ↔ (deneb_digest ≡ as_fork_digest deneb)
try_from_iff_example = try_from_iff no_digits deneb_digest deneb
