-- ===== src/Se050/Handlers.antt =====
-- SE050Sim/se050-sim/src/handlers: curves, management, SELECT, crypto objects and digests. A handler takes the
-- store and gives the one that it leaves with the response.
pub mod Curve
pub mod Management
pub mod Provision
pub mod CryptoObject
pub mod Stream
use simulators.Common.{Option, none, some, List}
use simulators.Common.Results.{Result}
use simulators.Se050.Apdu.{ParsedApdu, apdu_tlvs}
use simulators.Se050.Tlv.{Tlv, TlvError, Parsed, done, out_of_fuel}

-- A handler behind `apdu.parse_tlvs()`. `none` is the fuel of the parser, which is enough.
abbrev pub after_parse {ℓ} : {A : Type ℓ} → Parsed → (Result (List Tlv) TlvError → A) → Option A
after_parse out_of_fuel f = none
after_parse (done r) f = some (f r)

abbrev pub with_tlvs {ℓ} : {A : Type ℓ} → ParsedApdu → (Result (List Tlv) TlvError → A) → Option A
with_tlvs apdu f = after_parse (apdu_tlvs apdu) f
