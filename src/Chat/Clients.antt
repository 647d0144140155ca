-- ===== src/Chat/Clients.antt =====
-- csf_assign05/sender.cpp and receiver.cpp: the two client programs. Connecting, with the
-- number of the port, is the parameter `dial` of their `main`.
pub mod Sending
pub mod Receiving
pub mod Commands
pub mod Lines
pub mod Arrival
use assignments_for_csf.Base.{Bool, true, false, []}
use assignments_for_csf.Chat.{Message, Result, success, eof_or_error, invalid_msg, Connection}

abbrev pub blank_message : Message
blank_message = record { tag = []; text = [] }

-- What `receive` returns.
abbrev pub is_success : Result → Bool
is_success success = true
is_success eof_or_error = false
is_success invalid_msg = false

-- The port is no number, or the server does not answer, or the connection is there.
pub data Dial : Type 0 where
  bad_port : Dial
  unreachable : Dial
  connected : Connection → Dial
