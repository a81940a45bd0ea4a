-- ===== src/Tftp.antt =====
-- jumpstarter_driver_tftp/server.py: numbers and packets on the wire. A byte string is a list of
-- numbers; a text is the list of its code points.
pub mod Wire
pub mod Transfer
pub mod Start
pub mod Request
use jumpstarter.Common.{
  ℕ, ◌+◌, ◌*◌, ◌/◌, ◌%◌, Option, none, some, List, [], ◌∷◌, ◌++◌, ◌==◌, if◌then◌else◌,
}

abbrev pub Bytes : Type 0
Bytes = List ℕ

pub data Opcode : Type 0 where
  rrq wrq data_op ack error oack : Opcode

abbrev pub opcode_number : Opcode → ℕ
opcode_number rrq = 1
opcode_number wrq = 2
opcode_number data_op = 3
opcode_number ack = 4
opcode_number error = 5
opcode_number oack = 6

-- `Opcode(number)`: `none` is the `ValueError`
abbrev pub opcode_of : ℕ → Option Opcode
opcode_of n =
    if n == 1
    then some rrq
    else if n == 2
    then some wrq
    else if n == 3
    then some data_op
    else if n == 4
    then some ack
    else if n == 5
    then some error
    else if n == 6
    then some oack
    else none

pub data TftpErrorCode : Type 0 where
  not_defined file_not_found access_violation disk_full illegal_operation : TftpErrorCode
  unknown_tid file_exists no_such_user : TftpErrorCode

abbrev pub error_number : TftpErrorCode → ℕ
error_number not_defined = 0
error_number file_not_found = 1
error_number access_violation = 2
error_number disk_full = 3
error_number illegal_operation = 4
error_number unknown_tid = 5
error_number file_exists = 6
error_number no_such_user = 7

-- `n.to_bytes(2, "big")`, for a number below 65536
abbrev pub to_bytes2 : ℕ → Bytes
to_bytes2 n = (n / 256) ∷ (n % 256) ∷ []

-- `int.from_bytes(data[i:i+2], "big")`, of the first two bytes of `data[i:]`
abbrev pub from_bytes2 : Bytes → ℕ
from_bytes2 [] = 0
from_bytes2 (a ∷ []) = a
from_bytes2 (a ∷ b ∷ rest) = a * 256 + b

-- The packets that the server sends: DATA with its block number, ERROR, and OACK.
unfoldable pub data_packet : ℕ → Bytes → Bytes
data_packet block_num payload =
    to_bytes2 (opcode_number data_op) ++ (to_bytes2 block_num ++ payload)

unfoldable pub error_packet : TftpErrorCode → Bytes → Bytes
error_packet code message =
    to_bytes2 (opcode_number error) ++ (to_bytes2 (error_number code) ++ (message ++ 0 ∷ []))

-- Each option is its name, a null, its value in decimal, and a null.
unfoldable pub option_bytes : List (Bytes × Bytes) → Bytes
option_bytes [] = []
option_bytes ((name, value) ∷ rest) = name ++ (0 ∷ value ++ (0 ∷ option_bytes rest))

unfoldable pub oack_packet : List (Bytes × Bytes) → Bytes
unfolding option_bytes
oack_packet options = to_bytes2 (opcode_number oack) ++ option_bytes options
