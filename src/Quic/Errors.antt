-- ===== src/Quic/Errors.antt =====
-- landro-quic/src/errors.rs: QuicError. An error of another library is its displayed text.
use landropic.Prelude.{ℕ, Bool, true, false, ◌++◌, Str, codes}

pub data QuicError : Type 0 where
  io : Str → QuicError
  connection : Str → QuicError
  connect : Str → QuicError
  tls_config : Str → QuicError
  stream : Str → QuicError
  protocol : Str → QuicError
  timeout : QuicError
  handshake_timeout : (timeout_secs : ℕ) → QuicError
  handshake_failed : (reason : Str) → QuicError
  version_mismatch : (details : Str) → QuicError
  authentication_failed : (reason : Str) → QuicError
  server_already_running : QuicError
  crypto : Str → QuicError
  pairing_error : Str → QuicError

unfoldable pub is_recoverable : QuicError → Bool
is_recoverable timeout = true
is_recoverable (handshake_timeout timeout_secs) = true
is_recoverable (io e) = true
is_recoverable (connect e) = true
is_recoverable (connection e) = false
is_recoverable (tls_config s) = false
is_recoverable (stream s) = false
is_recoverable (protocol s) = false
is_recoverable (handshake_failed reason) = false
is_recoverable (version_mismatch details) = false
is_recoverable (authentication_failed reason) = false
is_recoverable server_already_running = false
is_recoverable (crypto e) = false
is_recoverable (pairing_error s) = false

-- An error of another library becomes a text.
unfoldable pub clone : QuicError → QuicError
clone (io e) = protocol (codes "IO error: " ++ e)
clone (connection e) = protocol (codes "Connection error: " ++ e)
clone (connect e) = protocol (codes "Connect error: " ++ e)
clone (crypto e) = protocol (codes "Crypto error: " ++ e)
clone (tls_config s) = tls_config s
clone (stream s) = stream s
clone (protocol s) = protocol s
clone timeout = timeout
clone (handshake_timeout timeout_secs) = handshake_timeout timeout_secs
clone (handshake_failed reason) = handshake_failed reason
clone (version_mismatch details) = version_mismatch details
clone (authentication_failed reason) = authentication_failed reason
clone server_already_running = server_already_running
clone (pairing_error s) = pairing_error s
