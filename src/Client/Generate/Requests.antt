-- ===== src/Client/Generate/Requests.antt =====
-- Every request that is generated is one that can be sent.
use dog.Prelude.{All}
use dog.Dns.Records.Opt.{Opt}
use dog.Dns.Message.Parts.{IsClass}
use dog.Client.Generate.{TransportType, RequestGenerator}
use dog.Client.Generate.Fields.{FitsU16, FitsTxid, IsDomain, IsType}

abbrev Anything : TransportType → Type 0
Anything type = Unit

-- The inputs, as the options leave them.
pub record IsReady (generator : RequestGenerator) : Type 0 where
  pub domains : All IsDomain generator.inputs.domains
  pub types : All IsType generator.inputs.record_types
  pub classes : All IsClass generator.inputs.classes
  pub txid : FitsTxid generator.txid_generator
  pub payload_size : FitsU16 generator.protocol_tweaks.udp_payload_size
