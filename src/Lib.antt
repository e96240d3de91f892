-- ===== src/Lib.antt =====
-- Verification of ucxclient, the host driver for u-connectXpress modules: the C files under src/.
--
-- AtUtil models src/u_cx_at_util.c: hex conversion (AtUtil/Hex), escaping of strings
-- (AtUtil/Escape) and the tokenizer of AT parameters (AtUtil/ParamEnd).
-- AtParams models src/u_cx_at_params.c: IP addresses (AtParams/Ip), Bluetooth and MAC addresses
-- (AtParams/Addresses) and integer lists (AtParams/IntList), from and to strings.
-- ParamParser models the parser of parameters in src/u_cx_at_util.c, uCxAtUtilParseParamsVaList, with
-- the tokenizer and the conversions of AtUtil and AtParams. It gives `parsed ret args` or
-- `failed ret`; what a failed call has stored is not kept.
-- UrcQueue models src/u_cx_at_urc_queue.c: the buffer of packed entries, the two mutexes and the
-- entry pointers. A call that would wait for a mutex, and a failed assertion, are outcomes of their
-- own, so that the calls of several threads can be put in any order.
-- AtClient models src/u_cx_at_client.c, built with the URC queue: the state (AtClient/State), what
-- the UART gives (AtClient/Uart), parseLine (AtClient/Parse), the receive path up to handleRxData
-- (AtClient/Rx), the delivery of URCs (AtClient/Urcs), what is sent for a command (AtClient/Send) and
-- the commands with their waits (AtClient/Command). Its calls of the URC queue are those of
-- UrcQueue; waiting and failed assertions go through.
-- Xmodem models src/u_cx_xmodem.c: the sender, the packets of which (Xmodem/Packet) a receiver that
-- is written down on its own takes (Xmodem/Transfer, Xmodem/Delivered), and the sending of a file
-- (Xmodem/File).
-- UcxApi models ucx_api: the parsing and dispatch of URCs in ucx_api/generated/u_cx_urc.c with the
-- callback of ucx_api/u_cx.c in front (UcxApi/Urc), and the functions of the generated files that send
-- commands. Their bodies have a few shapes (UcxApi/Call, and UcxApi/Variant for responses with
-- several forms); UcxApi/Commands has a definition for each function, on one of these. A command runs
-- through AtClient/Command, its response through ParamParser. UcxApi/ErrorCodes is the table of
-- ucx_api/generated/u_cx_error_codes.c.
--
-- Bytes are numbers, a C string is the list of its bytes before the terminator, and what a function
-- stores in a caller's buffer is the list of the bytes stored from its start on. `size_t` and `long`
-- have 32 bits, as on the microcontrollers that the driver is made for; `uint16_t` is stored low byte
-- first. What arrives at the UART is a list of bytes, silences (a read times out) and errors.
-- The readings of the clock are a list, of which each round of a wait takes one.
-- Loops are recursions on the string or the input that they read, except for some on fuel: the loop
-- over binary data has one more than the bytes that are missing, each round taking one at least, the
-- loop over queued URCs one more than the bytes in use, each entry taking several, and the loop over
-- chunks of hex output the number of bytes, and the loop over XMODEM blocks the bytes to send.
--
-- In UcxApi a `Setting` gives the readings of the clock to a call, a list for each wait, and `junk` is
-- what a variable holds that nothing has been stored to.
--
-- Not modelled: logging and the ports (UART, clock, mutexes, tasks), which are inputs of the model;
-- the names of numbers, the response structures and the declarations in the headers of ucx_api, of
-- which the values are lists; the examples and the tests. A file that is sent is the content that
-- `fopen` gives.
pub mod Prelude
pub mod AtUtil
pub mod AtParams
pub mod ParamParser
pub mod UrcQueue
pub mod AtClient
pub mod Xmodem
pub mod UcxApi
