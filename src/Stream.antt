-- ===== src/Stream.antt =====
-- internal/crypto/chunked.go: the streaming readers that encrypt and decrypt a chunked object.
-- Their configuration (Config), the byte source (Source), the loop of `Read` (Loop), the two
-- readers (Encrypt, Decrypt), the wire format (Format) and what ties them together.
pub mod Config
pub mod Source
pub mod Loop
pub mod Encrypt
pub mod Decrypt
pub mod Format
pub mod Params
pub mod RoundTrip
pub mod Size
