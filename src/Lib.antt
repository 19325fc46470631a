-- ===== src/Lib.antt =====
-- connectcoin-p2c-tools: proofs that a TLS 1.3 server took part in a handshake whose
-- ClientHello.random commits to a transaction input (P2C, proof version 2).
--
-- Parts and files (paths are below src/connectcoin_p2c_tools/):
--   Common      Python values, exceptions and machine integers, and lemmas on lists.
--   Domain      domain.py: is_canonical_domain. Labels describes the names without the code.
--   Hashes      hashes.py: tagged hashes, display form of hashes, claim challenge, work target.
--   Signatures  signatures.py: the output's mask and the schemes that it permits.
--   Protocol    protocol.py. Reader is the class _Reader; Extensions, ClientHello, ServerHello
--               and Certificate are the parsers of the messages; Proof is parse_proof. Format
--               states the wire format without the parser.
--   Tls         tls13.py: Build is the encoders and build_client_hello, ServerHello is
--               parse_server_hello (Agreement sets it beside the parser of protocol.py), Keys the
--               HKDF key schedule, Sockets _recv_exact and _recv_record, Records the nonces and the
--               decryption of records, Buffer _pop_handshake and the loop of capture_tls13_proof
--               over encrypted records, Messages the classes Endpoint and TLSProofMessages, and
--               Capture capture_tls13_proof from end to end.
--   Verify      verify.py: Der is the DER reader, Pss the RSA-PSS restrictions on a certificate,
--               X509 what is used of the package cryptography, Chain the loading of certificates and
--               roots, the times and the path, Leaf the usage of the leaf and its signature, and
--               Connection verify_connection_proof.
--   Envelope    envelope.py: the class ConnectionProof with from_dict and to_dict. Checks and Valid
--               are its validation, RoundTrip its dicts, Write its publication of a file, and Read
--               the reading of one.
--   Generator   generator.py: Options and Endpoints are the checks of the options and the choice of
--               addresses, Connections _capture, Search the search (Attempts is what it does
--               with a connection that is done, its record Inputs packs the names that the search
--               reads and does not change, and Loop is the rounds), and Generate
--               generate_connection_proof.
--   Examples    One whole proof, its runs, and the theorems at concrete inputs.
--
-- Interaction. tls13.py builds the ClientHello that protocol.py later reads back from the proof, and
-- hands the messages of a capture to generator.py, which puts them into an envelope and lets
-- verify.py decide on it; verify.py parses the proof with protocol.py. protocol.py calls domain.py
-- and hashes.py, and the schemes that tls13.py offers are those of signatures.py. The check of the
-- certificate message during a capture is that of verify.py.
--
-- Conventions. Bytes are lists of numbers below 256, text is the list of its code points, and
-- numbers are natural numbers; where a Python int can be negative it is a Value. A function that
-- can raise returns a Result: ok, raises with the class of the exception, or out_of_fuel. The
-- messages of exceptions are not modelled. A method of _Reader is a function from the reader to
-- its result and the reader after it.
--
-- Fuel. A while loop over a reader runs on one more than the length of its bytes. Each round reads
-- a header of two bytes at least, so the reader is empty before the fuel is. hkdf_expand runs on one
-- more than the size asked for, and each round adds a digest of 32 bytes. The loop of the DER reader
-- runs on one more than the length of its bytes, of which each element takes two at least, and
-- bit_length on the number itself, which has at most so many bits. The loops over records, arrivals
-- and rounds are structural: what the peer sends, and what is done in each round, is a list.
--
-- Parameters. hashlib.sha256, HMAC, the AEAD of a record, X25519, the package cryptography (X509),
-- socket.getaddrinfo, ipaddress.ip_address and the clock are arguments of the definitions that call
-- them. The loaders of X509 return a certificate or what they raise, which may be InvalidVersion,
-- no ValueError. Of the digests it is assumed, where a theorem says so, that they have 32 bytes,
-- and of a certificate that its encoding is bytes. Of the sockets it is assumed, where a theorem
-- says so, that connecting and sending raise nothing but OSError and the exceptions of the client.
--
-- The search. Threads and the executor are not modelled further than the order in which futures are
-- done: a round lists the numbers of those that `wait` returns, with how each capture ended. The
-- callback `progress` is taken to be given and to return. Seconds are whole billionths, so the
-- rounding of floats is not modelled.
--
-- Records. A capture runs on the records that _recv_record returns one after another and on the
-- exception that it raises after them. What a socket gives is a list of arrivals: a chunk, the end of
-- the time, or an OSError.
--
-- Files. A directory is a function from names to contents. A write lists the directory after each
-- call of the operating system that changes it; a record of faults says which calls raise OSError.
-- json.dumps and json.loads, which may raise, are parameters, as is the name of the staging file.
--
-- Not modelled: cli.py (argument parsing and printing) and the texts of exceptions.
pub mod Common
pub mod Domain
pub mod Hashes
pub mod Signatures
pub mod Protocol
pub mod Tls
pub mod Verify
pub mod Envelope
pub mod Generator
pub mod Examples
