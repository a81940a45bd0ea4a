-- ===== src/Tftp/Start.antt =====
-- jumpstarter_driver_tftp/server.py: the negotiation of options and the start of a read transfer.
-- Timeouts are in milliseconds where the source has floats of seconds. `int` of a text is Python's,
-- so it is a parameter: `none` is the `ValueError`, or a negative number, which no range admits.
pub mod Ends
use jumpstarter.Common.{
  ℕ, ◌+◌, ◌*◌, ◌/◌, Bool, true, false, not, ◌&&◌, ◌||◌, Option, none, some, List, [], ◌∷◌, ◌++◌,
  ◌==◌, leb, is_some, if◌then◌else◌,
}
use jumpstarter.Tftp.{Bytes}
use jumpstarter.Tftp.Transfer.{Transfer, Datagram, Result, send_with_retries, transfer_from}

-- What the server is configured with.
pub record Server : Type 0 where
  pub block_size : ℕ
  pub timeout_ms : ℕ
  pub retries : ℕ

-- The two options of a request that the server knows, as their texts.
pub record Requested : Type 0 where
  pub blksize : Option Bytes
  pub timeout : Option Bytes

-- The negotiated dictionary: the two keys that it may have.
pub record Negotiated : Type 0 where
  pub blksize : Option ℕ
  pub timeout : Option ℕ

abbrev pub in_range : ℕ → ℕ → ℕ → Option ℕ → ℕ → ℕ
in_range low high scale none default = default
in_range low high scale (some n) default = if leb low n && leb n high then n * scale else default

-- `_negotiate_block_size`, with `none` for no request
unfoldable pub negotiate_block_size : (Bytes → Option ℕ) → Server → Option Bytes → ℕ
negotiate_block_size int server none = server.block_size
negotiate_block_size int server (some text) = in_range 512 65464 1 (int text) server.block_size

-- `_negotiate_timeout`
unfoldable pub negotiate_timeout : (Bytes → Option ℕ) → Server → Option Bytes → ℕ
negotiate_timeout int server none = server.timeout_ms
negotiate_timeout int server (some text) = in_range 1 255 1000 (int text) server.timeout_ms

abbrev pub if_requested : Option Bytes → ℕ → Option ℕ
if_requested none n = none
if_requested (some text) n = some n

-- `_negotiate_options`: the dictionary, the block size and the timeout
unfoldable pub negotiate_options : (Bytes → Option ℕ) → Server → Requested → Negotiated × ℕ × ℕ
unfolding negotiate_block_size negotiate_timeout
negotiate_options int server options =
    let blksize = negotiate_block_size int server options.blksize in
    let timeout = negotiate_timeout int server options.timeout in
    (
      record {
        blksize = if_requested options.blksize blksize;
        timeout = if_requested options.timeout (timeout / 1000);
      },
      blksize,
      timeout,
    )

-- Whether the dictionary is not empty.
abbrev pub has_options : Negotiated → Bool
has_options o = is_some o.blksize || is_some o.timeout

-- The condition by which an OACK is sent: `none` is the `KeyError` of a key that is not there. The
-- timeout is read only if the block size is 512.
abbrev pub oack_needed : Server → Option ℕ → Option ℕ → Option Bool
oack_needed server none none = some false
oack_needed server none (some timeout) = none
oack_needed server (some blksize) none = if blksize == 512 then none else some true
oack_needed server (some blksize) (some timeout) =
    some (not (blksize == 512) || not (timeout * 1000 == server.timeout_ms))

-- A transfer as `_start_transfer` makes it.
unfoldable pub new_transfer : Server → Negotiated → ℕ → Transfer
new_transfer server options blksize = record {
  block_size = blksize;
  retries = server.retries;
  block_num = 0;
  ack_received = false;
  last_ack = 0;
  oack_confirmed = false;
  options = has_options options;
  current_packet = none;
  sent = [];
}

-- What `_initialize_transfer` comes to: an exception, false, or true.
pub data Initialized : Type 0 where
  raises : Initialized
  refused begins : Transfer → Initialized

abbrev pub initialized : Option Bool → (ℕ → List Datagram) → Bytes → Transfer → Initialized
initialized none arrivals oack t = raises
initialized (some false) arrivals oack t = begins (record t { block_num = 1 })
initialized (some true) arrivals oack t =
    let (u, success) = send_with_retries arrivals oack true t in
    if success then begins (record u { block_num = 1 }) else refused u

-- `TftpReadTransfer.start`: `registered` is whether the server still has the transfer when it is
-- over, with its socket, and `result` what was transferred.
pub record Ended : Type 0 where
  pub registered : Bool
  pub result : Option Result

abbrev pub settle : Transfer → Transfer
settle t = record t { oack_confirmed = not t.options || t.oack_confirmed }

abbrev pub after_initialized : Initialized → (Transfer → Result) → Ended
after_initialized raises perform = record { registered = true; result = none }
after_initialized (refused t) perform = record { registered = true; result = none }
after_initialized (begins t) perform = record {
  registered = false;
  result = some (perform (settle t));
}

-- The whole of a request's transfer, with the options of the request. `oack` makes the OACK, and
-- `oack_arrivals` is what is received in the attempts to send it.
unfoldable pub start :
    (Bytes → Option ℕ)
    → Server
    → Requested
    → (Negotiated → Bytes)
    → (ℕ → List Datagram)
    → (Transfer → Result)
    → Ended
unfolding negotiate_options new_transfer
start int server options oack oack_arrivals perform =
    let (negotiated, blksize, timeout) = negotiate_options int server options in
    let t = new_transfer server negotiated blksize in
    after_initialized
      (initialized (oack_needed server negotiated.blksize negotiated.timeout) oack_arrivals
        (oack negotiated) t)
      perform
