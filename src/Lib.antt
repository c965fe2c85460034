-- ===== src/Lib.antt =====
-- A model of the FIDO Device Onboard server in Go: its rendezvous instructions, the tables of the
-- rendezvous server, the owner's registration of devices, and the configuration of both.
--
-- The program is three servers. The manufacturer and the owner exchange rendezvous instructions,
-- which an operator writes as JSON in one of two versions and the database holds as CBOR. The owner
-- registers each device at a rendezvous server (TO0), which keeps the owner's blob until it expires
-- and shows it to the device (TO1). The owner then sends the device the service-info modules that
-- its configuration names (TO2).
--
-- The parts, their files here, and the code:
--
--   Prelude          shared names and types. Prelude/Slices: Go's strings and byte slices, both as
--                    lists of bytes. Prelude/Errors: results. Prelude/Action: calls that change a
--                    state and may fail. Prelude/Table: a database table, whose calls are fields and
--                    whose documented behaviour is laws over the rows. Prelude/Hex, Prelude/Decimal,
--                    Prelude/Float: encoding/hex, the decimal part of strconv, and float64 as a
--                    signed integer over a power of two.
--   Rv               the variables and instructions of the protocol. Rv/Codes is
--                    internal/utils/rvinfo.go; Rv/Json the dynamic values of encoding/json; Rv/Cbor
--                    the cbor and net packages as parameters, and encodeRvValue.
--   V2               internal/handlers/rvinfo: V2/Parser and V2/Directives are parser.go,
--                    V2/Converter is converter.go.
--   V1               internal/db/db.go: V1/Human is ParseHumanReadableRvJSON, V1/Convert is
--                    ConvertRvInstructionsToV1JSON, V1/Port is parsePortValue, V1/To2Addr is
--                    parseHumanToTO2AddrsJSON.
--   Rendezvous       internal/state and internal/handlers/rendezvous/handler.go: Rendezvous/Blob is
--                    rvblob.go, Rendezvous/Session and Rendezvous/Token are token.go,
--                    Rendezvous/Nonce is to0.go and to1.go, Rendezvous/Wait is acceptVoucher,
--                    Rendezvous/Cleanup is StartPeriodicCleanup.
--   Owner            the state of the owner and of the manufacturer in internal/db: Owner/Di is
--                    state.go; Owner/Rows, Owner/To2 and Owner/Columns are state_to2.go with its
--                    rows of models.go. Owner/To2/Promise says what the setters promise.
--   Singleton        the tables rvinfo and owner_info, which hold one row each: Singleton/Documents is
--                    the functions on them in internal/db/db.go and internal/state/rvinfo.go,
--                    Singleton/Http is api/handlers/rvinfo.go and api/handlers/ownerinfo.go,
--                    Singleton/V2 is internal/handlers/rvinfo/handler.go, and Singleton/Migration is
--                    migrateRvInfoToCBOR of internal/db/state.go.
--   Vouchers         Vouchers/Storage is the voucher methods of internal/db/state_vouchers.go and
--                    InsertVoucher of internal/db/db.go, on Prelude/Transaction; Vouchers/Verify and
--                    Vouchers/Api are api/handlers/vouchers.go.
--   To0              To0/Register is internal/to0/to0.go, To0/Scheduler the scheduler of
--                    serveOwner in cmd/owner.go.
--   DeviceCa         internal/state/deviceca.go; DeviceCa/Handlers is
--                    internal/handlers/deviceca/handler.go without the listing.
--   Config           cmd/config.go: Config/Http, Config/ServiceInfo and
--                    Config/ServiceInfo/Validate; Config/ServiceInfo/Modules is ownerModules of
--                    cmd/owner.go.
--   Machines         moduleStateMachines of cmd/owner.go.
--   Tests            sample libraries, a sample database, and the theorems applied to them.
--
-- A name of the code stands here in lower case with underscores: parseV2JSON is parse_v2_json,
-- SetRVBlob is set_rv_blob. An error is a constructor, with the values that its message shows. What
-- the code only logs is left out, but for the scheduler, whose log says what was attempted.
--
-- Outside the repository, hence parameters: gorm and the database (a table with its laws, each call
-- of which may fail, and the error codes of its drivers); the go-fdo library with its cbor package
-- (what marshals is unmarshalled to the same value at its own type, and a text is no array); net,
-- net/url, path, path/filepath, os, mapstructure, encoding/pem, crypto/x509 and crypto/sha256. Times
-- are natural numbers and arguments, and so are random bytes. The conversion of a float64 that does
-- not fit an integer type, which Go leaves to the implementation, is a parameter with values of the
-- type.
--
-- Loops are recursion on their lists. The import of certificates and the insertion of vouchers run
-- on fuel, one more than the length of the text; the library's decoder returns a shorter rest, so
-- that this is enough. Ports, codes and delays keep the bounds of their types as conditions of the
-- code; a negative length in the configuration of a download counts as 0, as the code treats it. A
-- transaction is its body, then a commit that may fail; a failure leaves the rows as they were.
--
-- Not modelled: the calls of encoding/json at both ends of the documents (duplicate keys, the order
-- of keys); the storage of private keys; generated code; SQL, so the listing of device CA
-- certificates, the joins of ListDevices and the query under QueryVouchers; flags and the serving of
-- HTTP. Of a response the status and the content are kept, not the text of an error.
pub mod Prelude
pub mod Rv
pub mod V2
pub mod V1
pub mod Rendezvous
pub mod To0
pub mod DeviceCa
pub mod Config
pub mod Machines
pub mod Owner
pub mod Singleton
pub mod Vouchers
pub mod Tests
