-- ===== src/Examples/Candidates.antt =====
-- A connection of the generator, from `_capture` to the candidate of the search.
use connectcoin_p2c_tools.Common.{refl, inl, true, arith}
use connectcoin_p2c_tools.Common.Outcome.{tls_generation, Ends}
use connectcoin_p2c_tools.Envelope.Valid.{IsValid}
use connectcoin_p2c_tools.Verify.Chain.{validate_certificate_message}
use connectcoin_p2c_tools.Generator.Search.Attempts.{Inputs}
use connectcoin_p2c_tools.Generator.Connections.{capture, EndsBy, Yields, capture-Yields}
use connectcoin_p2c_tools.Examples.Certificates.{library, envelope-IsValid}
use connectcoin_p2c_tools.Examples.Connections.{client, client-IsClient, endpoint, records}
use connectcoin_p2c_tools.Examples.Generation.{context}
use connectcoin_p2c_tools.Examples.Searches.{inputs}

abbrev inputs_of_client : Inputs
inputs_of_client = record inputs { sha256 = client.sha256 }

context-IsValid : IsValid context
context-IsValid =
    let h = envelope-IsValid in
    record {
      canonical = h.canonical;
      txid_hex = h.txid_hex;
      target_hex = h.target_hex;
      index_fits = h.index_fits;
      roots_fit = h.roots_fit;
      mask_fits = h.mask_fits;
      time_fits = h.time_fits;
      size_fits = omega arith;
      is_version_2 = h.is_version_2;
    }

capture-Yields_example : Ends (EndsBy library) (Yields inputs_of_client endpoint) (
    capture client
      (validate_certificate_message library)
      endpoint
      context
      true
      tls_generation
      records)
capture-Yields_example =
    capture-Yields inputs_of_client context-IsValid client client-IsClient refl endpoint true
      tls_generation records (inl refl)
