-- ===== src/Generator/Generate.antt =====
-- `generate_connection_proof` of src/connectcoin_p2c_tools/generator.py, with a progress callback.
-- What it waits for is a list of rounds: the connections that are done each time.
use connectcoin_p2c_tools.Common.{
  ℕ, ◌≡◌, Bool, not, List, [], Option, ltb, ◌==◌, is_empty, is_empty→eq, Bytes,
}
use connectcoin_p2c_tools.Common.Outcome.{
  Result, ok, require, generation, ◌>>=◌, ◌>>◌, bind_inv, require_inv,
}
use connectcoin_p2c_tools.Common.Values.{pos, int}
use connectcoin_p2c_tools.Signatures.{validate_signature_algorithms_mask}
use connectcoin_p2c_tools.Envelope.{ConnectionProof}
use connectcoin_p2c_tools.Tls.Messages.{Endpoint}
use connectcoin_p2c_tools.Verify.X509.{X509}
use connectcoin_p2c_tools.Verify.Chain.{max_timestamp, validate_root_bundle}
use connectcoin_p2c_tools.Generator.Options.{
  GenerationOptions, validate_options, Allowed, validate_options_iff,
}
use connectcoin_p2c_tools.Generator.Endpoints.{AddrInfo, resolve_endpoints}
use connectcoin_p2c_tools.Generator.Search.{limits_of, number_of, initial}
use connectcoin_p2c_tools.Generator.Search.Attempts.{Inputs, GenerationResult, Step, found, Round}
use connectcoin_p2c_tools.Generator.Search.Loop.{search}
use connectcoin_p2c_tools.Generator.Search.Verified.{IsFound, search-IsFound}

module _ (sha256 : Bytes → Bytes) (x : X509) (ip_address : List ℕ → Option Bool)
    (getaddrinfo : List ℕ → ℕ → Option (List AddrInfo)) (clock : ℕ → ℕ) where
  -- The checks before the search, in their order.
  unfoldable pub check_context :
      ConnectionProof → Option Bytes → GenerationOptions → Result (Unit {0})
  check_context context roots_file options = do
    validate_options options
    _ ← validate_signature_algorithms_mask (int (pos context.signature_algorithms_mask))
    require (context.version == 2) generation
    require (is_empty context.proof) generation
    require (not (ltb max_timestamp context.validation_time)) generation
    validate_root_bundle x sha256 roots_file context.root_certificates_version
        options.enforce_root_pin

  abbrev pub inputs_of : ConnectionProof → Option Bytes → GenerationOptions → List Endpoint → Inputs
  inputs_of context roots_file options endpoints = record {
    sha256 = sha256;
    x = x;
    roots_file = roots_file;
    enforce_root_pin = options.enforce_root_pin;
    context = context;
    limits = limits_of options;
    clock = clock;
    endpoints = endpoints;
  }

  unfoldable pub generate_connection_proof :
      ConnectionProof → Option Bytes → GenerationOptions → List Round → Result Step
  generate_connection_proof context roots_file options rounds = do
    check_context context roots_file options
    endpoints ←
        resolve_endpoints ip_address options.allow_private_addresses getaddrinfo context.domain
          (number_of options.port)
    search (inputs_of context roots_file options endpoints) rounds (initial (clock 0))

  check_context-inv :
      (context : ConnectionProof) (roots_file : Option Bytes) (options : GenerationOptions)
      → check_context context roots_file options ≡ ok tt
      → Allowed options × (context.proof ≡ [])
  unfolding check_context
  check_context-inv context roots_file options h =
      let (_, allowed, h₁) = bind_inv _ (validate_options options) h in
      let (_, _, h₂) =
        bind_inv _
          (validate_signature_algorithms_mask (int (pos context.signature_algorithms_mask))) h₁ in
      let (_, h₃) = require_inv (context.version == 2) generation _ h₂ in
      let (empty, _) = require_inv (is_empty context.proof) generation _ h₃ in
      ((validate_options_iff options).0 allowed, is_empty→eq context.proof empty)

  -- Where the generator returns a result for a context, the options are allowed, the context has
  -- an empty proof, and the envelope of the result is valid, is the context with the proof of
  -- messages that a connection of the rounds returned, and passes verify_connection_proof with its
  -- own target and the same roots, also where only the preflight with the easiest target was run;
  -- the peer is the address in those messages.
  pub generate_connection_proof-IsFound :
      (context : ConnectionProof) (roots_file : Option Bytes) (options : GenerationOptions)
      (rounds : List Round) (g : GenerationResult)
      → generate_connection_proof context roots_file options rounds ≡ ok (found g)
      → (endpoints : List Endpoint) × (resolve_endpoints ip_address options.allow_private_addresses
            getaddrinfo context.domain
            (number_of options.port)
          ≡ ok endpoints)
        × Allowed options
        × (context.proof ≡ [])
        × IsFound (inputs_of context roots_file options endpoints) rounds g
  unfolding generate_connection_proof
  generate_connection_proof-IsFound context roots_file options rounds g h =
      let (_, checked, h₁) = bind_inv _ (check_context context roots_file options) h in
      let (endpoints, resolved, h₂) =
        bind_inv
          (λ (endpoints : List Endpoint).
            search (inputs_of context roots_file options endpoints) rounds (initial (clock 0)))
          (resolve_endpoints ip_address options.allow_private_addresses getaddrinfo context.domain
            (number_of options.port))
          h₁ in
      let (allowed, empty) = check_context-inv context roots_file options checked in
      (
        endpoints,
        resolved,
        allowed,
        empty,
        search-IsFound (inputs_of context roots_file options endpoints) rounds (clock 0) g h₂,
      )
