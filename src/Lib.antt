-- ===== src/Lib.antt =====
-- clairveiljs: private notes of a wallet, from their bytes to the transaction that spends them.
--
-- A wallet scans notes, chooses those that a transfer or a withdrawal spends, shows that they are in the
-- tree of the chain, and reserves them while an operation is proved and broadcast. This library models
-- the arithmetic and the formats of notes (src/core/crypto.js, src/privacy/protocol-v1.js), the choice of
-- notes and its plans (src/core/note.js, src/privacy/payload.js, src/privacy/planner.js), the paths in the
-- tree (src/privacy/merkle-path.js) and the reservations (src/privacy/reservation.js). Planning calls the
-- selection, which calls the note functions, which call the protocol, which calls the arithmetic. The
-- reservations are apart: they refer to a note by its identity.
--
-- Text: JavaScript texts as lists of code points, with the parts of String.prototype that the code calls.
-- Letter case covers ASCII, to which the code's hashes and identities are restricted.
-- Json: JavaScript values as far as records, patches and metadata hold them. Numbers are non-negative
-- integers. An object is its own properties; their order counts in comparisons by JSON.stringify alone.
--
-- Crypto: core/crypto.js. Crypto/Primitives holds the packages and the platform that the code calls
-- (SHA-256, Keccak, AES-GCM, TextEncoder and TextDecoder) as parameters, and HasLaws what is relied
-- on of them: lengths, decryption of what was encrypted, and that encoded text is valid.
-- Crypto/Field: modPow, modInv, modSqrt. The loop over the bits of an exponent has 256 rounds, above
-- which no exponent of the code has a bit, and modSqrt has 64 rounds for each of its loops, since
-- the field has the 2-adicity 28; a call that needs more fails. Crypto/Bytes: big- and little-endian
-- bytes. Crypto/Curve: the curve in extended coordinates with 256 rounds for a scalar, packed
-- points. Crypto/Mimc: mimcHash.
-- Wire: privacy/protocol-v1.js. Wire/Bytes: u16be, u32be, u64be and the readers, which take the
-- bytes from the front where the code moves an offset. Wire/Domain: domain tags, domainFieldV1,
-- computeAssetIdV1 and pointFromCoordinates. Wire/Note, Disclosure, Envelope and Encryption: the
-- plaintexts of notes and disclosures, the envelopes, and what is encrypted for a deposit, a
-- transfer and a disclosure. Wire/Intent: the digests of a chain and of a recipient, and the intents
-- of a withdrawal and of a transfer of two inputs. Random nonces and scalars are arguments.
-- Notes/Found: normalizeFoundNote and isVerifiedUnspentFoundNote. Notes/Order: the order of notes,
-- with localeCompare as the parameter Collation, and summarizeSpendableNotesByDenom. Notes/Pairs and
-- Notes/Selection: selectTransferInputs. Notes/Batch: selectBatchTransferInputs; its search has the
-- limit of the code, 250000 steps, and is structural on the notes that are left. Notes/Drawn says
-- what it means that inputs are taken from a scan. Notes/Coin and Notes/Planner: parseCoin and the
-- three plans, whose numbers are written in as many digits as they need.
-- Merkle: the request and the response of commitment paths, computeNoteTreeNodeV1,
-- emptyNoteTreeRootsV1. An aliased field is the list of the values of its spellings.
-- Samples: stand-ins for the parameters, with which the definitions are run.
--
-- Reservation/Status: reservationStatuses, the transition tables and the tests over them.
-- Reservation/Record: a record as a structure and as an object, a patch with the symbols that mark a
-- managed mutation as flags. Reservation/Platform: Date.parse, toISOString and SHA-256 as parameters.
-- Reservation/Normalize: normalizeReservation and what it calls.
-- Reservation/Lease: the lease checks. Reservation/Evidence: the evidence that a transition has to show.
-- Reservation/Managed: the managed mutations. Reservation/Patching: which fields a patch may write, and
-- how it is prepared and applied.
-- Reservation/Store: MemoryReservationStore. Its state is the list of records; createReservationBatch,
-- compareAndSetReservationStatusBatch and releaseReservationBatch are create_reservation_batch,
-- compare_and_set_batch and release_reservation_batch, which return the next list and the records of the
-- call, or an error, which leaves the list as it was. The scan of normalizeState is assert_state_from.
-- next_record is the body of the loop over the transitions. Store/WellFormed says when a list of records
-- is sound; Store/Replace, Unique, Spent, Fresh, Exact, LookedUp, Written, Together, Free,
-- Freed, Reload and Reach are about what the calls do to the list.
-- Reservation/Step: what one transition may do to a record.
-- Reservation/Scenario, Runs and Witnesses: a platform, runs of the store and the theorems at these runs.
--
-- An error is the fixed part of its message. The statuses of a transition are statuses: one with another
-- text fails the comparison with the stored record. All loops but those of the arithmetic above are
-- structural. Dates before 1970 count as 1970, where a lease is expired. Amounts, heights and indexes are
-- non-negative; a height is a safe integer.
--
-- Not modelled: of protocol-v1.js the roots and digests of batches, the canonical payload bytes and
-- the intent of a batch; of crypto.js the derivation of keys and the addresses; of merkle-path.js the provider over a
-- snapshot; the reservation manager and the reconciliation over the store, the stores in local storage,
-- IndexedDB and files, the scan, the transports and clients, the prover, generated code.
pub mod Prelude
pub mod Text
pub mod Json
pub mod Reservation
pub mod Crypto
pub mod Wire
pub mod Notes
pub mod Merkle
pub mod Samples
