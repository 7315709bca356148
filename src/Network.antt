-- ===== src/Network.antt =====
-- The networks and their parameters (src/indexer/mod.rs, Network).
pub mod Laws
use hayate.Prelude.{ℕ, ◌+◌, Bool, Option, some, map, ◌&&◌, if◌then◌else◌, leb}
use hayate.Prelude.Text.{Text, codes, text_eq}

pub data Network : Type 0 where
  mainnet preprod preview sancho_net : Network
  custom : Text → Network

unfoldable pub magic : Network → ℕ
magic mainnet = 764824073
magic preprod = 1
magic preview = 2
magic sancho_net = 4
magic (custom _) = 0

unfoldable pub system_start_ms : Network → ℕ
system_start_ms mainnet = 1591566291000
system_start_ms preprod = 1654041600000
system_start_ms preview = 1666656000000
system_start_ms sancho_net = 1686790200000
system_start_ms (custom _) = 1591566291000

unfoldable pub as_str : Network → Text
as_str mainnet = codes "mainnet"
as_str preprod = codes "preprod"
as_str preview = codes "preview"
as_str sancho_net = codes "sanchonet"
as_str (custom name) = name

abbrev pub is_upper : ℕ → Bool
is_upper c = leb b'A' c && leb c b'Z'

-- `str::to_lowercase` on an ASCII text; names of networks are ASCII.
unfoldable pub to_lowercase : Text → Text
to_lowercase = map (λ c. if is_upper c then c + 32 else c)

-- The match on the text in lower case.
from_lowercase : Text → Network
from_lowercase s =
    if text_eq s (codes "mainnet")
    then mainnet
    else if text_eq s (codes "preprod")
    then preprod
    else if text_eq s (codes "preview")
    then preview
    else if text_eq s (codes "sanchonet")
    then sancho_net
    else custom s

-- No text is refused.
unfoldable pub parse : Text → Option Network
unfolding from_lowercase
parse s = some (from_lowercase (to_lowercase s))
