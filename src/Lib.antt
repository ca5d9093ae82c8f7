-- ===== src/Lib.antt =====
-- Verification of the wolfSSL silicon simulators: programs in Rust that stand in for secure elements
-- and microcontrollers while wolfSSL's drivers are tested against them.
--
-- Each simulator is a program of its own. A secure element's simulator takes the bytes of the chip's
-- bus from a TCP stream, cuts them into packets, dispatches each packet to a handler that reads and
-- changes the device and the session, and sends the handler's response. The modules here follow
-- that order, from the wire inwards.
--
-- Common, with Slices, Results, Bits, Bytes and Maps: lists, slices of a buffer, results, bit masks,
-- bytes and association lists over the native natural numbers. A byte is a natural number, and a sixteen-bit word keeps
-- its wrap-around written out.
--
-- Atecc: the ATECC608 simulator, ATECC608Sim/atecc608-sim/src.
--   Crc         crc.rs: the CRC register, bit by bit
--   Frame       atca.rs: Command::parse, build_response, status_response
--   Device      object_store/types.rs and mod.rs: the zones, the slots, the lock bits
--   Session     session.rs: TempKey and the running hash, which sleep wipes
--   Crypto      the interfaces of the crates sha2, p256 and rand: parameters with their documented
--               sizes and laws
--   Handlers    handlers/*.rs: one function for each handler. A handler takes the device and the
--               session and gives those that it leaves with the response; none is a panic
--   Dispatch    dispatch.rs: the opcode's handler
--   Server      bin/tcp_server.rs: one connection, as a function of all the bytes that the client
--               sends, with the end of each round as a value
--   The child modules of these hold the proofs: Frame.Packets and Frame.Responses for the packets,
--   Device.Locks and Device.Invariant for the lock bits and the sizes, Handlers.* and
--   Dispatch.Safety for what commands may do, Server.Progress and Server.Refinement for connections.
--
-- Se050: the SE050 simulator, SE050Sim/se050-sim/src.
--   Tlv         tlv.rs: the entries of a command's data
--   Apdu        apdu.rs: command APDUs in their cases, and response APDUs
--   Applet      applet.rs: the parts that the simulator presents itself as, and their traits
--   Policy      policy.rs: the policy of a new object, and the union of its access rules
--   Aes         handlers/aes.rs and mac.rs: the cipher of a key's length, CBC and CMAC; the crates aes
--               and cmac are parameters with their documented sizes and laws
--   Scp03       scp03/*.rs: Padding, Crypto (key derivation, cryptograms, MACs), Keys (PUT KEY),
--               Channel (the states and the handshake), Session (wrapped commands and responses).
--               Host is the other side, as the sources describe the middleware; Unwrap, Tunnel,
--               Handshake and Keys.Rotation prove that both sides agree
--   T1          t1.rs: the protocol control byte and the frames of the T=1 link
--   Responder   t1.rs: T1Responder, from a frame to the frames of its answer. The object store, dispatch
--               and the settings of the platform are its interface Card, which ObjectStore.store_card
--               fills but for dispatch. Gate and Reassembly hold the proofs
--   Transport   transport.rs: the simulator on the I2C bus, with the chunks that are queued for reads
--   ObjectStore object_store/*.rs: the objects, their metadata, the curves and the settings; History
--               and Curves hold the proofs
--   Handlers    handlers/curve.rs, management.rs, session.rs, crypto_obj.rs and digest.rs; Provision
--               and Stream hold the proofs
--
-- Stsafe: the STSAFE-A120 simulator, STSAFEA120Sim/stsafe-a120-sim/src.
--   Crc         crc.rs: CRC-16/X-25, bit by bit
--   Frame       frame.rs: parse_command, build_response, build_command
--   Crypto      the interfaces of the crates p256 and rand: parameters with their documented laws
--   Store       object_store/*.rs and session.rs: zones, keys by slot, and the session
--   Handlers    handlers/*.rs: one function for each command
--   Dispatch    dispatch.rs: from a frame to the response frame
--   Server      bin/tcp_server.rs: one connection, as a function of all the bytes that the client
--               sends, with the end of each round as a value
--
-- Tropic01: the TROPIC01 simulator, TROPIC01Sim/tropic01-sim/src. A command of the host goes from the
-- SPI bus (Chip.Bus) to the L2 requests (Chip.Requests), through the Secure Channel (Session) to the L3
-- commands (L3), which change the device (Store).
--   Crc         crc.rs: the CRC register, bit by bit, and append_crc
--   Frame       frame.rs: parse_request, build_response, build_request of the L2 layer; Status
--   Personality personality.rs: the parts and firmwares that differ on the wire
--   Store       object_store/types.rs: the device and its effective configuration
--   Session     session.rs: handshake, unwrap_l3_request, wrap_l3_response, step_nonce
--   L3          handlers/l3.rs: privileges and results; Pairing, Config, Memory and Keys have the
--               commands, Sizes their sizes, Dispatch the routing; Step is the relation of what a
--               command may do, with what follows from it; Total has the readings of the commands
--               against their sizes; Runs has commands in sequence
--   GetInfo     handlers/get_info.rs: the objects of Get_Info_Req
--   Chip        chip.rs: the chip; Requests has process, Requests.Encrypted has encrypted_cmd and
--               the chunks of results, Bus has csn_low, transfer, first_byte, execute and csn_high
--
-- Fuel. The loops of a connection have the length of their input and one more as fuel: a round takes
-- at least one byte of the input, or ends. The loops over TLV entries and over policy entries, the
-- one that cuts a response into frames, and CBC mode have the length of their input: a round takes one
-- byte at least. So has the loop over the chunks of a TROPIC01 result. The key derivation has 256
-- rounds, since its counter is a byte that may not overflow, and padding has 15.
--
-- Panics. In the ATECC608A handlers a failed assert! and an index out of range are none. In the TROPIC01
-- simulator so are the assert! of build_response, an index or a slice out of range in a command of
-- handlers/l3.rs (reads and refusal, with the outcome panicked), and the copy of a private key into a
-- seed of another length, and a register that the configuration in force does not have in the start-up
-- and the sleep of chip.rs. The other indices stand behind tests in the same function and are total here.
--
-- Not modelled: the listeners and the threads of other connections that share a device, environment
-- variables, logging, and the JSON files of the stores, which are I/O; whether a save and a write
-- succeed are inputs of a connection (Env). The cryptography of the crates is a parameter. Of the
-- SE050 simulator the dispatch, the other handlers and the TCP server have no model here; nor have
-- the provisioning, the certificates and the TCP server of TROPIC01Sim, and the simulators STM32Sim
-- and PIC32MZSim.
pub mod Common
pub mod Atecc
pub mod Se050
pub mod Stsafe
pub mod Tropic01
