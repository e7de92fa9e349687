-- ===== src/Rpc/Codec/Faults.antt =====
-- Where `OnMessage` of rpc/protobuf/protobuf_codec.cc takes a packet that has not arrived whole.
use jnet.Buffer.{Buffer}
