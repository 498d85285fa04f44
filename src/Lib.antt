-- ===== src/Lib.antt =====
-- A model of the HSM simulator, a PKCS#11 library that keeps its slots, sessions and objects in one
-- registry and its token objects as files.
--
-- The registry is Core/State (src/core/runtime.hpp): records for slots, objects, operations and sessions,
-- and `Runtime` for RuntimeState. Each handler is a function from its arguments to `Exec Runtime`
-- (Result), which passes the registry on and returns it beside an error, so that what a handler wrote
-- before an early return stays written. Every exported call runs under one lock (Calls, for
-- src/pkcs11/boundary.hpp and src/pkcs11/entry_points.cpp), so a program is a sequence of whole calls: `Step`
-- is one call, `Reaches` any number of them.
--
-- Which file models which part, with paths from the repository's root:
--   Ck              constants of include/oasis/pkcs11t.h, for Windows with a CK_ULONG of 32 bits
--   Result          CK_RV and early returns
--   Disk            the std::filesystem and stream calls; an environment chooses which of them fail
--   Core            src/core/runtime.cpp: lookups and access rules; Core/Invariant is the invariant,
--                   Core/Moves and Core/Keeping are changes that keep it, Core/Examples an example
--   Sessions        src/pkcs11/sessions.cpp: sessions, login, PIN management; Sessions/Access is the
--                   abstract view of a token, its user and its open sessions, and what each call does to it
--   Slots           src/storage/slots.cpp: Slots/Pin checks and stores PINs, Slots/Discovery finds the
--                   slots from the names of the directories and reads their passwords
--   Utilities       src/core/utilities.cpp
--   Token           src/pkcs11/token.cpp: Finalize, and what is told of the library, slots, tokens and
--                   mechanisms; Initialize stands in Loading
--   Policy          src/objects/policy.cpp: attribute policy and creation templates
--   Template        src/objects/template.cpp
--   Attributes      src/objects/attributes.cpp; Attributes/Saving is what SetAttributeValue leaves in a file
--   Objects         src/objects/objects.cpp: destroying and searching
--   Mechanisms      src/crypto/mechanisms.cpp
--   Signatures      src/crypto/signature.cpp: starting an operation and collecting its message;
--                   Signatures/Execution is executeSignature, Signatures/Finishing the final calls
--   Generation      src/crypto/key_generation.cpp: GenerateKey and GenerateRandom; Generation/Pairs is
--                   GenerateKeyPair
--   Derivation      src/crypto/derivation.cpp
--   Wrapping        src/crypto/wrapping.cpp: aesKeyWrap and WrapKey; Wrapping/Unwrapping is UnwrapKey
--   Metadata        src/storage/metadata.cpp: the metadata file format and its publication
--   KeyStore        src/storage/key_store.cpp: collecting and persisting metadata; KeyStore/Saving saves a
--                   secret key, KeyStore/KeyPairs saves and registers a pair
--   Loading         the loaders of src/storage/key_store.cpp and Initialize of src/pkcs11/token.cpp
--   Openssl         what OpenSSL tells and makes of keys: parameters, as records of functions
--   Calls           the exported calls that change the registry
--
-- The calls of OpenSSL are the arguments that a definition takes: KeyReader for what is told of a key,
-- KeyWriter for containers, public parts and digests, KeyMaker for new pairs, KeyCarrier for the wrap
-- ciphers and PKCS#8, Engine (Signatures/Execution) for signatures, and functions for random bytes and for
-- AES. Storage (Loading) has the names in a directory, which directories cannot be made, and what a PKCS#12
-- container holds. What a theorem needs of them is a record of laws (Wraps, Matches) or a hypothesis, as Shrinks.
--
-- A pointer to a session, slot or object is its key in the registry. A pointer that an application
-- passes with a count is `Array`: null with the count that is claimed, or the items. An output pointer
-- is a flag, and what is written through it is part of the result. A std::map is an association list
-- in the order of its keys, an unordered map one in any order. An
-- exception is the error that the boundary turns it into. Loops are structural recursion. Two definitions
-- count down: `digits_before` (Base/Text) writes at most the ten digits that a number of 32 bits has, and
-- `drain` (Objects/Draining), which is a program that uses the library, makes a given number of calls.
--
-- The counters of handles wrap around as in the source. The theorems on calls that give out object handles
-- ask that two more (one for a secret key) are below 2^32, and Initialize that the files of the slots
-- need no more.
--
-- Not modelled: the tables of src/pkcs11/interfaces.cpp; the deleters of src/core/openssl.hpp; allocation
-- failures; the directories that are made on the way, but for the error where one cannot be made; and the
-- line ends of text files on Windows. The functions of src/pkcs11/unsupported.cpp are one definition, since
-- each only calls unsupportedOperation.
pub mod Base
pub mod Ck
pub mod Result
pub mod Disk
pub mod Core
pub mod Policy
pub mod Metadata
pub mod KeyStore
pub mod Objects
pub mod Slots
pub mod Openssl
pub mod Mechanisms
pub mod Attributes
pub mod Generation
pub mod Derivation
pub mod Wrapping
pub mod Loading
pub mod Template
pub mod Sessions
pub mod Token
pub mod Signatures
pub mod Calls
pub mod Utilities
