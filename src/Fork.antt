-- ===== src/Fork.antt =====
-- src/portal_types/consensus/fork.rs: the names of the forks and their digests, with `hex_encode` of
-- src/portal_types/utils/bytes.rs, for which the crate `hex` is a parameter. `to_lowercase` changes the
-- ASCII letters; no other letter becomes a letter of the names that are compared here.
use Prim.Native.String.{compare, char_at, ◌++◌ as ◌<+>◌}
use Prim.Native.Char.{Char, code}
use Prim.Native.Nat.{eq}
use eth_historian.Base.{
  ◌-◌, leb, ◌&&◌, ◌≡◌, refl, ap, ◌∙◌, ◌↔◌, [], ◌∷◌, String, Bool, true, false, if◌then◌else◌,
  Outcome, ok, err, bytes_eq, bytes_eq→eq, Bytes, arith,
}

pub data ForkName : Type 0 where
  bellatrix capella deneb electra : ForkName

pub data ParseForkNameError : Type 0 where
  unknown_digest : String → ParseForkNameError

unfoldable pub as_fork_digest : ForkName → Bytes
as_fork_digest bellatrix = 0x4a ∷ 0x26 ∷ 0xc5 ∷ 0x8b ∷ []
as_fork_digest capella = 0xbb ∷ 0xa4 ∷ 0xda ∷ 0x96 ∷ []
as_fork_digest deneb = 0x6a ∷ 0x95 ∷ 0xa1 ∷ 0xa9 ∷ []
as_fork_digest electra = 0xad ∷ 0x53 ∷ 0x2c ∷ 0xeb ∷ []

unfoldable pub hex_encode : (Bytes → String) → Bytes → String
hex_encode encode bytes = "0x" <+> encode bytes

abbrev lower : Char → Char
lower c =
    if leb 65 (code c) && leb (code c) 90
    then char_at "abcdefghijklmnopqrstuvwxyz" (code c - 65)
    else c

abbrev to_lowercase : String → String
to_lowercase String.[] = String.[]
to_lowercase (String.◌∷◌ c s) = String.◌∷◌ (lower c) (to_lowercase s)

-- The arms of the match, by comparison with the four literals in turn.
unfoldable pub try_from : (Bytes → String) → Bytes → Outcome ParseForkNameError ForkName
unfolding bytes_eq hex_encode
try_from encode fork_digest =
    if bytes_eq fork_digest (0x4a ∷ 0x26 ∷ 0xc5 ∷ 0x8b ∷ [])
    then ok bellatrix
    else if bytes_eq fork_digest (0xbb ∷ 0xa4 ∷ 0xda ∷ 0x96 ∷ [])
    then ok capella
    else if bytes_eq fork_digest (0x6a ∷ 0x95 ∷ 0xa1 ∷ 0xa9 ∷ [])
    then ok deneb
    else if bytes_eq fork_digest (0xad ∷ 0x53 ∷ 0x2c ∷ 0xeb ∷ [])
    then ok electra
    else err (unknown_digest (hex_encode encode fork_digest))

unfoldable pub as_capitalized_str : ForkName → String
as_capitalized_str bellatrix = "Bellatrix"
as_capitalized_str capella = "Capella"
as_capitalized_str deneb = "Deneb"
as_capitalized_str electra = "Electra"

-- `Display`, and the `String` made of it.
unfoldable pub fmt : ForkName → String
fmt bellatrix = "bellatrix"
fmt capella = "capella"
fmt deneb = "deneb"
fmt electra = "electra"

abbrev same_text : String → String → Bool
same_text s t = elim (compare s t) [ eq ↦ true | _ ↦ false ]

unfoldable pub from_str : String → Outcome String ForkName
from_str fork_name =
    let name = to_lowercase fork_name in
    if same_text name "bellatrix"
    then ok bellatrix
    else if same_text name "merge"
    then ok bellatrix
    else if same_text name "capella"
    then ok capella
    else if same_text name "deneb"
    then ok deneb
    else if same_text name "electra"
    then ok electra
    else err ("unknown fork name: " <+> fork_name)

parsed :
    (encode : Bytes → String) (digest : Bytes) (fork : ForkName)
    → try_from encode digest ≡ ok fork
    → bytes_eq digest (as_fork_digest fork) ≡ true
unfolding try_from as_fork_digest
parsed encode digest bellatrix h = ground arith
parsed encode digest capella h = ground arith
parsed encode digest deneb h = ground arith
parsed encode digest electra h = ground arith

printed :
    (encode : Bytes → String) (fork : ForkName) → try_from encode (as_fork_digest fork) ≡ ok fork
unfolding try_from as_fork_digest
printed encode bellatrix = refl
printed encode capella = refl
printed encode deneb = refl
printed encode electra = refl

-- A digest parses to a fork exactly when it is that fork's digest.
pub try_from_iff :
    (encode : Bytes → String) (digest : Bytes) (fork : ForkName)
    → (try_from encode digest ≡ ok fork) ↔ (digest ≡ as_fork_digest fork)
try_from_iff encode digest fork = (
  λ h. bytes_eq→eq digest (as_fork_digest fork) (parsed encode digest fork h),
  λ h. ap (try_from encode) h ∙ printed encode fork,
)

-- The printed name of a fork parses back to it, and so does its capitalized name.
from_str-fmt :
    (fork : ForkName)
    → (from_str (fmt fork) ≡ ok fork) × (from_str (as_capitalized_str fork) ≡ ok fork)
unfolding from_str fmt as_capitalized_str
from_str-fmt bellatrix = (refl, refl)
from_str-fmt capella = (refl, refl)
from_str-fmt deneb = (refl, refl)
from_str-fmt electra = (refl, refl)
