-- ===== src/Lib.antt =====
-- dog is a command-line DNS client. This library models the crate `dns`, which turns requests into
-- the bytes of a message and the bytes of a response into records, the crate `dns-transport`, which
-- sends the one and waits for the other, and the part of the program that decides what to ask and
-- whom:
--
--   dns/src/strings.rs       Dns/Strings       names: `Labels`, `read_labels` with its pointers,
--                                              `write_labels`, `encode`, `Display` and the
--                                              comparison without case; Decodes says what it
--                                              means for a name to stand in a message, apart
--                                              from any way to read it
--   dns/src/record/*.rs      Dns/Records       one record type and one `read` for each type of record:
--                                              Names, Fixed, Text, Keys, Nsec, Loc, Opt; Registry and
--                                              Types have the numbers and names of the types, Parse
--                                              has `Record::from_bytes`
--   dns/src/wire.rs          Dns/Flags         `Flags`, `Opcode`, `ErrorCode` with their bits
--                            Dns/Message       `Request::to_bytes`, `Response::from_bytes`, and the
--                                              entries of its sections
--                            Dns/Outcome       `WireError`, and the outcome of a read
--                            Dns/Cursor        the cursor that every read moves
--   dns/src/types.rs         Dns/Flags, Dns/Message   the types of the messages
--   dns/src/validate.rs      Dns/Validate      `Request::check_response` and the texts of its errors
--   dns-transport/src:
--   error.rs                 Transport/Errors  the errors, with `io_error` of net.rs
--   tcp.rs                   Transport/Tcp     messages behind their length, over a stream
--   udp.rs                   Transport/Udp     which datagram is the answer
--   failover.rs, auto.rs     Transport/Failover  several nameservers in turn; TCP behind UDP
--   address.rs               Transport/Address nameserver addresses and HTTPS URLs
--   https.rs                 Transport/Https   the HTTP request, and the body of its response
--   h2.rs                    Transport/H2      Integers, Huffman and Status decode headers; Frames,
--                                              Incoming reads a response, Sending writes a request
--   src/resolve.rs           Client/Resolve    resolv.conf and the search list
--   src/requests.rs, src/txid.rs, src/connect.rs
--                            Client/Generate   the requests that the inputs ask for
--   src/options.rs           Client/Options    the inputs, from the arguments that getopts took apart
--
-- Names are those of the source in lower case. A function of a record type, `MX::read`, is
-- `read_mx`; `Flags::to_u16` is `flags_to_u16`. Prelude has what the components share: lists over the
-- native numbers, Boolean tests with their lemmas, bits, and integers.
--
-- A read takes the buffer and the position of the cursor, and returns an `Outcome`: a value with the
-- new position, a `WireError`, `panic`, or `out_of_fuel`. `panic` is an addition or a subtraction that
-- overflows its type, which the release profile of Cargo.toml checks for. Lengths are 16-bit numbers
-- and bytes are numbers below 256; `IsMessage` says this of a buffer, and that it is no longer than the
-- length field of a transport can say. `Ensures` is total correctness of a read: no panic, fuel enough,
-- and a postcondition on what is returned.
--
-- Fuel: `read_string_recursive` calls itself once for each pointer, and its limit of eight lets seven
-- calls through, so `read_string` starts with seven. The rounds of a loop over the cursor take a byte
-- or more each, so they start with one more than the buffer has bytes; `parse_windows` takes two bytes
-- of its slice in each round, and starts with the length of the slice.
--
-- A stream (Transport/Stream) is what is left to arrive, in the pieces that single reads find, with
-- interruptions and errors between them, and what was written; Transport/Stream/Contents has the bytes
-- apart from their pieces. The loops that read a stream take a byte or more in each round, so they start
-- with one more than the bytes to come. A wait for a datagram is a list of what each round finds, and a
-- transport is any function from a request and a state of the world to a result and a new state. `Ends`
-- (Transport/Ends) is total correctness of what the transports do: no panic, which in Transport/H2 is
-- also a slice out of range, and fuel enough. A timeout is a number, and a clock only shows in that a
-- wait has expired.
--
-- The package byteorder is a parameter, the record `ByteOrder` of Dns/Cursor, with what its
-- documentation says of reading and writing big-endian numbers; std's cursor and lists are modelled by
-- what they do. The package idna and the tests of std's `char` are the parameter `Characters` of
-- Dns/Strings/Encode. Log messages are left out, and so are the capacities of vectors, which only
-- reserve memory. Texts are lists of code points. An `InvalidName` is a reason with the label that it
-- quotes, not the text of it.
--
-- The package httparse, with two functions of std on texts, is the parameter `HttpParser` of
-- Transport/Https, std's parsers of IP addresses are `IpParser` of Transport/Address, `str::trim` is
-- `Trim` of Client/Resolve, and the numbers of the package rand are `Draws` of Client/Generate.
--
-- Dns/Examples, Transport/Examples and Client/Examples apply the theorems at concrete inputs.
--
-- Not modelled: the text of records (`Display` of loc.rs, the formatted addresses and digests), sockets
-- and TLS (net.rs, tls.rs, tls_stream.rs and the `send` of the transports that open them), the options
-- that are not inputs (colours, timeouts, EDNS, tweaks), the output and the shell of the program (src),
-- which use the terminal.
pub mod Prelude
pub mod Dns
pub mod Transport
pub mod Client
