-- ===== src/Chat.antt =====
-- csf_assign05: the chat system's messages and the server's side of a connection (message.h,
-- connection.cpp), and the trimming of texts (client_util.cpp and server.cpp). The socket is not
-- in the source: a connection carries the lines that are still to be read, until the end of the
-- file, and whether each `rio_writen` will write everything. `rio_readlineb` with the limit MAX_LEN
-- returns at most MAX_LEN - 1 bytes of a line and leaves the rest of it to the next call.
pub mod Codec
pub mod Cut
pub mod Rooms
pub mod Sender
pub mod Worker
pub mod Receiver
pub mod Clients
pub mod System
mod Tests
use assignments_for_csf.Base.{
  ℕ, ◌+◌, ◌-◌, leb, length, take, drop, Bool, true, false, ◌||◌, List, [], ◌∷◌, ◌++◌, ◌==◌,
  if◌then◌else◌, codes, str_eq,
}

pub record Message : Type 0 where
  pub tag : List ℕ
  pub text : List ℕ

pub data Result : Type 0 where
  success : Result
  eof_or_error : Result
  invalid_msg : Result

pub record Connection : Type 0 where
  pub incoming : List (List ℕ)
  pub writes : List Bool
  pub sent : List (List ℕ)
  pub last_result : Result

-- The text up to the first NUL.
unfoldable pub c_string : List ℕ → List ℕ
c_string [] = []
c_string (c ∷ s) = let rest = c_string s in if c == 0 then [] else c ∷ rest

unfoldable pub encode : Message → List ℕ
encode msg = c_string (msg.tag ++ b':' ∷ (msg.text ++ b'\n' ∷ []))

-- A write that falls short puts nothing into the log.
unfoldable pub send : Connection → Message → Connection × Bool
send conn msg = elim conn.writes [
  | true ∷ writes ↦ (
    record conn { writes = writes; sent = conn.sent ++ encode msg ∷ []; last_result = success },
    true,
  )
  | false ∷ writes ↦ (record conn { writes = writes; last_result = eof_or_error }, false)
  | [] ↦ (record conn { last_result = eof_or_error }, false)
]

unfoldable pub has : ℕ → List ℕ → Bool
has c [] = false
has c (d ∷ s) = d == c || has c s

-- `message.substr(0, message.find(":"))`
unfoldable pub before_colon : List ℕ → List ℕ
before_colon [] = []
before_colon (c ∷ s) = if c == b':' then [] else c ∷ before_colon s

-- `message.substr(message.find(":") + 1)`; without a colon, the whole text.
unfoldable pub after_first : List ℕ → List ℕ
after_first [] = []
after_first (c ∷ s) = if c == b':' then s else after_first s

unfoldable pub after_colon : List ℕ → List ℕ
after_colon s = if has b':' s then after_first s else s

unfoldable pub known_tag : List ℕ → Bool
known_tag tag =
    str_eq tag (codes "err")
    || str_eq tag (codes "ok")
    || str_eq tag (codes "slogin")
    || str_eq tag (codes "rlogin")
    || str_eq tag (codes "join")
    || str_eq tag (codes "leave")
    || str_eq tag (codes "sendall")
    || str_eq tag (codes "senduser")
    || str_eq tag (codes "quit")
    || str_eq tag (codes "delivery")
    || str_eq tag (codes "empty")

abbrev pub max_len : ℕ
max_len = 255

-- What a call of `rio_readlineb` returns of a line, and the lines that are left.
unfoldable pub next_piece : List ℕ → List (List ℕ) → List ℕ × List (List ℕ)
next_piece line rest =
    if leb (length line) (max_len - 1)
    then (line, rest)
    else (take (max_len - 1) line, drop (max_len - 1) line ∷ rest)

-- The message is overwritten; at the end of the file only its tag is.
unfoldable pub receive : Connection → Message → Connection × Message
receive conn msg = elim conn.incoming [
  | [] ↦ (record conn { last_result = eof_or_error }, record msg { tag = codes "empty" })
  | line ∷ incoming ↦
      let (bufer, left) = next_piece line incoming in
      let message = c_string bufer in
      let received : Message = record { tag = before_colon message; text = after_colon message } in
      (
        record conn {
          incoming = left;
          last_result = if known_tag received.tag then success else invalid_msg;
        },
        received,
      )
]

-- `s.substr(0, s.find_last_not_of(…) + 1)`
unfoldable pub trim_end : (ℕ → Bool) → List ℕ → List ℕ
trim_end blank [] = []
trim_end blank (c ∷ s) = elim (trim_end blank s) [
  | [] ↦ if blank c then [] else c ∷ []
  | d ∷ rest ↦ c ∷ d ∷ rest
]

-- `"\n\r\t\f\v"`
abbrev pub line_blank : ℕ → Bool
line_blank c = c == 10 || c == 13 || c == 9 || c == 12 || c == 11

-- `" \n\r\t\f\v"`
abbrev pub whitespace : ℕ → Bool
whitespace c = c == 32 || line_blank c

unfoldable pub right_trim : List ℕ → List ℕ
right_trim s = trim_end line_blank s

unfoldable pub ltrim : List ℕ → List ℕ
ltrim [] = []
ltrim (c ∷ s) = if whitespace c then ltrim s else c ∷ s

unfoldable pub rtrim : List ℕ → List ℕ
rtrim s = trim_end whitespace s

unfoldable pub trim : List ℕ → List ℕ
trim s = rtrim (ltrim s)
