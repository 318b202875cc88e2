-- ===== src/Lib.antt =====
-- Verification of myna-card, the Rust library that talks to the Japanese Individual Number Card.
--
-- The program. A client calls methods of `Card` (src/card.rs) and of the applications above it. A
-- method builds a `Command` (src/apdu.rs), which `Card::call` encodes, sends over a transport
-- (src/transport), and sends again or continues as the status word asks (6Cxx, 61xx); the final
-- status word becomes data or an error (src/error.rs). Files come back as TLV objects, the BER kind
-- for transparent files and the simple kind for records (src/tlv), and are parsed into the values
-- of src/data.rs and of the applications (src/ap, src/mf.rs). PINs are checked before they are sent
-- (src/pin.rs). A secure session (src/sm.rs) sends and reads encrypted. Signed records and
-- certificates are checked by keys of the card or of a table (src/ca.rs), and X.509 certificates by
-- the roots (src/certificate.rs).
--
-- Files here and the code they model.
--   Apdu            src/apdu.rs: Command.to_bytes, Response.parse, StatusWord and its tests.
--                   Command/Decode is a reader of command APDUs by the standard; it is no code of
--                   the crate.
--   Error           src/error.rs: the errors and from_status.
--   Pin             src/pin.rs: new and numeric.
--   Tlv/Ber         src/tlv/ber.rs. Tlv/Simple: src/tlv/simple.rs. Under each, the format written
--                   down apart from the code, and the parser and the iterator against it.
--   Transport       src/transport/mod.rs: the trait Transmit as a record that the card's methods
--                   take as an instance argument. Transport/Mock: src/transport/mock.rs.
--                   Transport/Pcsc: src/transport/pcsc.rs.
--   Card            src/card.rs. Exchange: call, call_ok, transmit_once. Files: selecting and
--                   reading. Keys: PINs, counters, challenges, data objects.
--   Data            src/data.rs: KeyId (Reading, Text), ApIdentification, Date (with Era), Person
--                   (Sex, MyNumber, the verification codes), RsaKey, Image, Certificate (the
--                   card-verifiable ones), Fields (TlvFields and check_offsets), Signature (the
--                   DigestInfo and the checks by RSA). Authority: src/ca.rs.
--   Sm              src/sm.rs: Padding, Cryptogram, Session. Cipher: what it calls of its
--                   dependencies.
--   Mf              src/mf.rs: the master file. Mf/Records: its records.
--   X509            src/certificate.rs: the certificates, chains of them, and the roots. X509/Chain:
--                   what a certificate that verifies to a root has above it.
--   Ap/Common       src/ap/common.rs, with Ap/CardInfo. Ap/Juki, Ap/Surface, Ap/Text: the files of
--                   these names in src/ap, with the records in Records. Ap/Jpki (with
--                   Certificates), Ap/Scheme and Ap/Token: src/ap/jpki.rs, its signature schemes and
--                   its records.
--   Action          methods on an object that may fail: a state in, a result and a state out.
--   Prelude         lists, bytes, words and integers over the native numbers; UTF-8.
--   Examples        concrete inputs for the theorems.
--
-- How state and operations correspond. A method of `&mut Card<T>` is an `Action (Card T)`: the card
-- is passed on and comes back, beside an error too. `?` is the bind of that monad. A wrapper of an
-- application holds nothing but the card, so its methods are actions on the card too; a session
-- holds the card, and its methods are actions on the session. Strings in errors keep their text,
-- and the numbers formatted into it as a list. Other strings are the bytes of their UTF-8.
--
-- Integers. A byte is a number, and theorems say where it must be below 256; casts keep their
-- wrap-around as `% 2 ^ w`. `usize` has 64 bits, and `ber::Header::total_len` wraps as in a release
-- build, as the counter of a session does at 2 ^ 32. Sums of lengths of byte strings do not wrap.
--
-- Fuel. The 61xx loop of `call` takes its number of rounds as an argument, since a card may answer
-- 61xx for ever; `stuck` is the outcome when it runs out, and no value of the program. It is the
-- outcome of a panic too: of `Vec::with_capacity` in `Card::read_binary`, for more than isize::MAX
-- bytes. That a smaller vector does not fit the memory is not modelled. The reading
-- loops, those of a session too, get as many rounds as bytes to read and one more: each round but
-- the last adds a byte; those that read to the end of the file get 0x8001, since READ BINARY
-- reaches no further. The iterators and the loop over the fields of a data file get as many rounds
-- as bytes and one more: each object takes two bytes.
--
-- Code of other crates, each a record of functions. AES-128 in CBC mode and RSAES-OAEP (Sm/Cipher):
-- a theorem asks that decryption undoes encryption. RSA signatures and SHA-256 (Data/Signature): a
-- theorem asks that two inputs do not collide. Decoding X.509 (X509): nothing is asked. The crate
-- `pcsc` (Transport/Pcsc): a theorem asks how the mode of a connection changes.
--
-- Not modelled: texts for people but those of KeyId; the names and dates in the messages about
-- certificates. The roots of src/certificate.rs are an argument, since their DER are the files of
-- certs/.
pub mod Prelude
pub mod Data
pub mod Ap
pub mod Error
pub mod Action
pub mod Apdu
pub mod Tlv
pub mod Pin
pub mod Transport
pub mod Card
pub mod Sm
pub mod Mf
pub mod X509
pub mod Examples
