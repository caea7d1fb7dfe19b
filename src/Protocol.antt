-- ===== src/Protocol.antt =====
-- src/protocol.rs: the events of the wire protocol. A payload is a `serde_json::Value`, which the
-- program only passes on. src/state.rs: the messages of a connection's send queue.
use rust_ws_server.Base.{ℕ, List, Option, Text}

-- `bytes::Bytes` and `Vec<u8>`.
abbrev pub Bytes : Type 0
Bytes = List ℕ

pub data ClientEvent (Value : Type 0) : Type 0 where
  publish : (topic request_id : Option Text) → (payload : Value) → ClientEvent Value
  direct : (to : Text) → (request_id : Option Text) → (payload : Value) → ClientEvent Value
  ping : (request_id : Option Text) → (payload : Option Value) → ClientEvent Value

pub data ServerEvent (Value : Type 0) : Type 0 where
  ready : (topic client_id : Text) → ServerEvent Value
  message : (topic from : Text) → (request_id : Option Text) → (payload : Value) → ServerEvent Value
  direct_message :
      (from to : Text) → (request_id : Option Text) → (payload : Value) → ServerEvent Value
  pong : (request_id : Option Text) → (payload : Option Value) → ServerEvent Value
  error : (code message : Text) → ServerEvent Value

pub data OutboundMessage : Type 0 where
  binary : Bytes → OutboundMessage
  pong : Bytes → OutboundMessage
  close : (code : ℕ) → (reason : Text) → OutboundMessage

-- `axum::extract::ws::Message`, what the program sends of it.
pub data Message : Type 0 where
  binary ping pong : Bytes → Message
  close : (code : ℕ) → (reason : Text) → Message

unfoldable pub into_ws_message : OutboundMessage → Message
into_ws_message (OutboundMessage.binary bytes) = Message.binary bytes
into_ws_message (OutboundMessage.pong payload) = Message.pong payload
into_ws_message (OutboundMessage.close code reason) = Message.close code reason
