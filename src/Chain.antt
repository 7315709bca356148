-- ===== src/Chain.antt =====
-- The parts of a decoded block and of an address that the program reads, as the pallas types
-- `MultiEraBlock`, `MultiEraTx`, `MultiEraInput`, `MultiEraOutput`, `MultiEraAsset` and
-- `ShelleyAddress` show them. Decoding is the library's, and a parameter (Externals.antt).
use hayate.Prelude.{ℕ, Option, List}
use hayate.Prelude.Text.{Bytes}

pub record MultiEraInput : Type 0 where
  pub hash : Bytes
  pub index : ℕ

-- An asset by era; `other` stands for every other variant.
pub data MultiEraAsset : Type 0 where
  alonzo_compatible_output conway_output other : Bytes → ℕ → MultiEraAsset

pub record PolicyAssets : Type 0 where
  pub policy : Bytes
  pub assets : List MultiEraAsset

-- `DatumOption`: a hash, or the raw CBOR of an inline datum.
pub data DatumOption : Type 0 where
  hash inline : Bytes → DatumOption

-- `address` is `none` where `output.address()` fails.
pub record MultiEraOutput : Type 0 where
  pub address : Option Bytes
  pub coin : ℕ
  pub assets : List PolicyAssets
  pub datum : Option DatumOption

pub record MultiEraTx : Type 0 where
  pub hash : Bytes
  pub inputs : List MultiEraInput
  pub outputs : List MultiEraOutput

pub record MultiEraBlock : Type 0 where
  pub txs : List MultiEraTx
  pub previous_hash : Option Bytes

pub data ShelleyPaymentPart : Type 0 where
  key script : Bytes → ShelleyPaymentPart

pub data ShelleyDelegationPart : Type 0 where
  null : ShelleyDelegationPart
  key script pointer : Bytes → ShelleyDelegationPart

pub data Address : Type 0 where
  shelley : ShelleyPaymentPart → ShelleyDelegationPart → Address
  byron stake : Address
