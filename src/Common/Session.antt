-- ===== src/Common/Session.antt =====
-- server/bastionlab_common/src/session.rs: challenges, sessions, and who a token stands for.
mod Signers
pub mod Challenges
pub mod Creation
pub mod Failures
pub mod Tests
use bastionlab.Prelude.{
  ℕ, ◌+◌, ◌*◌, ◌/◌, ◌%◌, ◌^◌, String, Bool, true, false, not, Option, none, some, List, [], ◌∷◌,
  ◌++◌, ltb, if◌then◌else◌, Outcome, ok, err, panic, ok_or, ◌==◌, contains, nat_eq, string_eq,
  list_eq, HashMap, lookup, insert, concat,
}
use Prim.Native.Char.{code}
use Prim.Native.String
use bastionlab.Common.Status.{
  Status, status, Fallible, invalid_argument, aborted, permission_denied, unauthenticated, internal,
}
use bastionlab.Common.Action.{Action, pure, raise, lift, gets, modify, ◌>>=◌, ◌>>◌}
use bastionlab.Common.Auth.{
  MetadataMap, get_bin, to_bytes, KeyManagement, Crypto, verify_signature, verify_owner,
}
unfoldable pub use Signers.{strip_prefix, strip_suffix, signer_of, first_signer}

-- protos/bastionlab.proto
pub record ClientInfo : Type 0 where
  pub uid : String
  pub platform_name : String
  pub platform_arch : String
  pub platform_version : String
  pub platform_release : String
  pub user_agent : String
  pub user_agent_version : String
  pub is_colab : Bool

pub record SessionInfo : Type 0 where
  pub token : List ℕ
  pub expiry_time : ℕ

pub record SocketAddr : Type 0 where
  pub ip : ℕ
  pub port : ℕ

-- `tonic::Request`, with its message.
pub record Request {ℓ} (T : Type ℓ) : Type ℓ where
  pub metadata : MetadataMap
  pub remote_addr : Option SocketAddr
  pub message : T

-- Times are nanoseconds since the epoch.
pub record Session : Type 0 where
  pub pubkey : String
  pub user_ip : SocketAddr
  pub expiry : ℕ
  pub client_info : ClientInfo

pub record SessionManager : Type 0 where
  pub keys : Option KeyManagement
  pub sessions : HashMap (List ℕ) Session
  pub session_expiry : ℕ
  pub challenges : List (List ℕ)

-- `SessionManager::new`
unfoldable pub new : Option KeyManagement → ℕ → SessionManager
new keys session_expiry = record {
  keys = keys;
  sessions = [];
  session_expiry = session_expiry;
  challenges = [];
}

abbrev pub is_some {ℓ} : {A : Type ℓ} → Option A → Bool
is_some none = false
is_some (some a) = true

abbrev pub auth_enabled : SessionManager → Bool
auth_enabled s = is_some s.keys

-- The access token in a request's metadata; the interceptor reads it in the same way.
unfoldable pub access_token : MetadataMap → Fallible (List ℕ)
access_token metadata = elim (get_bin metadata "accesstoken-bin") [
  | none ↦ err (status invalid_argument "No access token in request metadata")
  | some meta ↦ to_bytes meta (status invalid_argument "Could not decode accesstoken")
]

unfoldable pub get_token {ℓ} :
    {T : Type ℓ} → SessionManager → Request T → Fallible (Option (List ℕ))
unfolding access_token
get_token s req =
    let found : Fallible (Option (List ℕ)) = elim (access_token req.metadata) [
      | ok token ↦ ok (some token)
      | err e ↦ err e
      | panic ↦ panic
    ] in
    if auth_enabled s then found else ok none

-- `[0u8; 32]`
abbrev pub zero_token : List ℕ
zero_token =
    0 ∷ 0 ∷ 0 ∷ 0 ∷ 0 ∷ 0 ∷ 0 ∷ 0 ∷ 0 ∷ 0 ∷ 0 ∷ 0 ∷ 0 ∷ 0 ∷ 0 ∷ 0 ∷ 0 ∷ 0 ∷ 0 ∷ 0 ∷ 0 ∷ 0 ∷ 0 ∷ 0
    ∷ 0 ∷ 0 ∷ 0 ∷ 0 ∷ 0 ∷ 0 ∷ 0 ∷ 0 ∷ []

abbrev token_or_zero : Option (List ℕ) → List ℕ
token_or_zero (some v) = v
token_or_zero none = zero_token

abbrev pub session_of : SessionManager → Option (List ℕ) → Fallible Session
session_of s token =
    ok_or (lookup (token_or_zero token) s.sessions) (status aborted "Session not found!")

unfoldable pub get_user_id : SessionManager → Option (List ℕ) → Fallible String
get_user_id s token = elim (session_of s token) [
  | ok session ↦ ok session.pubkey
  | err e ↦ err e
  | panic ↦ panic
]

unfoldable pub get_client_info : SessionManager → Option (List ℕ) → Fallible ClientInfo
get_client_info s token = elim (session_of s token) [
  | ok session ↦ ok session.client_info
  | err e ↦ err e
  | panic ↦ panic
]

-- The answers of the random generator to one call of `new_challenge`: some failures, then bytes.
pub data Draws : Type 0 where
  draw : List ℕ → Draws
  failure : Draws → Draws

unfoldable pub drawn : Draws → List ℕ
drawn (draw bytes) = bytes
drawn (failure more) = drawn more

unfoldable pub new_challenge : Draws → Action SessionManager (List ℕ)
new_challenge (draw bytes) = do
  modify (λ s. record s { challenges = bytes ∷ s.challenges })
  pure bytes
new_challenge (failure more) = new_challenge more

-- `HashSet::remove` without its result.
unfoldable pub discard : List ℕ → List (List ℕ) → List (List ℕ)
discard c [] = []
discard c (x ∷ xs) = let rest = discard c xs in if x == c then rest else x ∷ rest

abbrev take_challenge : List ℕ → Action SessionManager (List ℕ)
take_challenge c s =
    if contains s.challenges c
    then (ok c, record s { challenges = discard c s.challenges })
    else (err (status permission_denied "Challenge not found!"), s)

unfoldable pub check_challenge {ℓ} : {T : Type ℓ} → Request T → Action SessionManager (List ℕ)
check_challenge request = elim (get_bin request.metadata "challenge-bin") [
  | none ↦ raise (
      status unauthenticated
        "You must be authenticated to perform this action. Please reconnect with an identity.")
  | some challenge ↦ do
    challenge_bytes ←
        lift (to_bytes challenge (status invalid_argument "Could not decode challenge"))
    take_challenge challenge_bytes
]

unfoldable pub verify_if_owner : SessionManager → String → Fallible Bool
verify_if_owner s public_hash = elim s.keys [
  | none ↦ err (status permission_denied "This operation requires authentication to be enabled.")
  | some keys ↦ ok (verify_owner keys public_hash)
]

-- `SystemTime::checked_add` of whole seconds: the seconds are held in 64 signed bits.
abbrev pub nanos : ℕ
nanos = 1000000000

unfoldable pub expiry_from : ℕ → ℕ → ℕ
expiry_from time secs = if ltb (time / nanos + secs) (2 ^ 63) then time + secs * nanos else time

-- Bytes of a text that is ASCII.
abbrev pub ascii : String → List ℕ
ascii String.[] = []
ascii (String.◌∷◌ c s) = code c ∷ ascii s

-- What the server takes from `prost`: the encoding of a message, or the error's text.
abbrev pub Encoder : Type 0
Encoder = ClientInfo → Outcome String (List ℕ)

unfoldable pub get_message : Encoder → List ℕ → Request ClientInfo → List ℕ → Fallible (List ℕ)
get_message encode method req challenge = elim (encode req.message) [
  | ok body ↦ ok (method ++ (challenge ++ body))
  | err e ↦ err (status internal (concat ("error while encoding the request: " ∷ e ∷ [])))
  | panic ↦ panic
]

abbrev pub insert_session : List ℕ → Session → Action SessionManager (Unit {0})
insert_session token session = modify (λ s. record s { sessions = insert token session s.sessions })

abbrev pub session_info : SessionManager → List ℕ → SessionInfo
session_info s token = record { token = token; expiry_time = (s.session_expiry * 1000) % 2 ^ 64 }

-- The end of `create_session`: a token is drawn, and the session is stored under it.
unfoldable pub open_session :
    String → SocketAddr → Draws → ℕ → Request ClientInfo → Action SessionManager SessionInfo
open_session pubkey_hash user_ip draws now request = do
  secs ← gets (λ s. s.session_expiry)
  token ← new_challenge draws
  insert_session token (record {
    pubkey = pubkey_hash;
    user_ip = user_ip;
    expiry = expiry_from now secs;
    client_info = request.message;
  })
  gets (λ s. session_info s token)

module _ (crypto : Crypto) (encode : Encoder) where
  -- The branch of `create_session` for a server without keys.
  unfoldable pub create_open :
      SocketAddr → ℕ → Request ClientInfo → Action SessionManager SessionInfo
  create_open user_ip now request = do
    insert_session zero_token (record {
      pubkey = "UNAUTHENTICATED";
      user_ip = user_ip;
      expiry = now;
      client_info = request.message;
    })
    gets (λ s. session_info s zero_token)

  -- The branch for a server with keys.
  unfoldable pub create_signed :
      KeyManagement
      → SocketAddr
      → Draws
      → ℕ
      → Request ClientInfo
      → Action SessionManager SessionInfo
  create_signed keys user_ip draws now request = do
    challenge ← check_challenge request
    pubkey_hash ← lift (
        ok_or (first_signer request.metadata.binary)
          (status unauthenticated "You are not authenticated. Please provide an identity."))
    message ← lift (get_message encode (ascii "create-session") request challenge)
    lift (verify_signature crypto keys pubkey_hash message request.metadata)
    open_session pubkey_hash user_ip draws now request

  abbrev pub create_for :
      SocketAddr
      → Draws
      → ℕ
      → Request ClientInfo
      → Option KeyManagement
      → Action SessionManager SessionInfo
  create_for user_ip draws now request none = create_open user_ip now request
  create_for user_ip draws now request (some k) = create_signed k user_ip draws now request

  unfoldable pub create_session : Draws → ℕ → Request ClientInfo → Action SessionManager SessionInfo
  create_session draws now request = do
    user_ip ←
        lift (ok_or request.remote_addr (status aborted "Could not fetch IP Address from request"))
    keys ← gets (λ s. s.keys)
    create_for user_ip draws now request keys
