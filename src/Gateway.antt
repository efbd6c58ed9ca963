-- ===== src/Gateway.antt =====
-- server/src/main.rs: the interceptor that every service of the server stands behind.
pub mod Validation
pub mod Histories
pub mod Replay
mod Tests
use bastionlab.Prelude.{
  ℕ, not, List, ltb, eqb, if◌then◌else◌, ok, err, ok_or, nat_eq, string_eq, list_eq, lookup, erase,
}
use bastionlab.Common.Status.{
  Status, status, Fallible, invalid_argument, aborted, permission_denied, unauthenticated, internal,
}
use bastionlab.Common.Action.{
  Action, pure, raise, lift, gets, modify, continue, ◌>>=◌, ◌>>◌, >>=-eq-ok,
}
use bastionlab.Common.Auth.{
  MetadataMap, get_bin, to_bytes, KeyManagement, Crypto, verify_signature, verify_owner, find_key,
}
use bastionlab.Common.Session.{
  ClientInfo, SessionInfo, SocketAddr, Request, Session, SessionManager, new, is_some, auth_enabled,
  access_token, get_token, zero_token, get_user_id, get_client_info, Draws, draw, failure, drawn,
  new_challenge, discard, check_challenge, verify_if_owner, first_signer, expiry_from, ascii,
  Encoder, get_message, insert_session, session_info, open_session, create_open, create_signed,
  create_session,
}

-- `TokenValidator::call`, once the session is found.
abbrev pub admit : List ℕ → Session → SocketAddr → ℕ → Action SessionManager (Unit {0})
admit token session recv_ip now s =
    if not (eqb session.user_ip.ip recv_ip.ip)
    then (err (status aborted "Unknown IP Address!"), s)
    else if ltb session.expiry now
    then (err (status aborted "Session Expired"), record s { sessions = erase token s.sessions })
    else (ok tt, s)

-- The part of `TokenValidator::call` for a server with keys.
abbrev pub validate {ℓ} : {T : Type ℓ} → ℕ → Request T → Action SessionManager (Unit {0})
validate now req = do
  token ← lift (access_token req.metadata)
  sessions ← gets (λ s. s.sessions)
  session ← lift (ok_or (lookup token sessions) (status aborted "Session not found!"))
  recv_ip ← lift (ok_or req.remote_addr (status aborted "User IP unavailable"))
  admit token session recv_ip now

-- `TokenValidator::call`
unfoldable pub call {ℓ} : {T : Type ℓ} → ℕ → Request T → Action SessionManager (Unit {0})
unfolding access_token
call now req s = if not (auth_enabled s) then (ok tt, s) else validate now req s
