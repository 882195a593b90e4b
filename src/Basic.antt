-- ===== src/Basic.antt =====
-- The Go package basic: values, errors, the encoder and the decoder.
pub mod Const
pub mod Registry
pub mod ParseType
pub mod Val
pub mod Error
pub mod Wire
pub mod Encode
pub mod Code
pub mod Decode
pub mod Number
pub mod Float
pub mod Check
pub mod Compare
pub mod Keys
pub mod RoundTrip
