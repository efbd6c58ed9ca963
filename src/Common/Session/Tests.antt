-- ===== src/Common/Session/Tests.antt =====
-- A server with one owner and one outstanding challenge, and a request that answers it.
use bastionlab.Prelude.{
  ℕ, ◌≡◌, refl, ◌≢◌, ◌↔◌, true, false, none, some, List, [], ◌∷◌, ◌++◌, ok, ◌==◌, contains, nat_eq,
  string_eq, list_eq, lookup, insert,
}
use bastionlab.Common.Auth.{KeyManagement, Crypto, verify_signature, find_key}
use bastionlab.Common.Session.{
  ClientInfo, SessionInfo, SocketAddr, Request, SessionManager, Draws, draw, failure, drawn,
  new_challenge, discard, check_challenge, first_signer, signer_of, strip_prefix, strip_suffix,
  expiry_from, ascii, Encoder, get_message, open_session, create_signed, create_session,
}
use bastionlab.Common.Auth.Signatures.{Signed, verify_signature_iff}
use bastionlab.Common.Session.Creation.{Opens, create_session-Authenticated, create_session_token}
use bastionlab.Common.Session.Failures.{create_session-refused}

-- Here a signature is the key, and then the message.
abbrev pub crypto : Crypto
crypto = record {
  subject_public_key = λ der. some der;
  verifies = λ key message sign. sign == (key ++ message);
  hex_encode = λ s. s;
}

abbrev pub encode : Encoder
encode info = ok (ascii info.uid)

abbrev pub client : ClientInfo
client = record {
  uid = "u";
  platform_name = "Linux";
  platform_arch = "x86_64";
  platform_version = "5";
  platform_release = "5.1";
  user_agent = "python";
  user_agent_version = "3";
  is_colab = false;
}

abbrev pub keys : KeyManagement
keys = record { owners = ("ab", 7 ∷ []) ∷ []; users = ("cd", 9 ∷ []) ∷ [] }

abbrev pub address : SocketAddr
address = record { ip = 10; port = 4000 }

abbrev pub message : List ℕ
message = ascii "create-session" ++ ((1 ∷ 2 ∷ []) ++ ascii "u")

abbrev pub request : Request ClientInfo
request = record {
  metadata = record {
    binary = ("challenge-bin", some (1 ∷ 2 ∷ [])) ∷ ("signature-ab-bin", some (7 ∷ message)) ∷ [];
  };
  remote_addr = some address;
  message = client;
}

abbrev pub server : SessionManager
server = record {
  keys = some keys;
  sessions = [];
  session_expiry = 60;
  challenges = (1 ∷ 2 ∷ []) ∷ [];
}

abbrev pub draws : Draws
draws = failure (draw (5 ∷ 6 ∷ []))

abbrev pub info : SessionInfo
info = record { token = 5 ∷ 6 ∷ []; expiry_time = 60000 }

abbrev pub after : SessionManager
after = record {
  keys = some keys;
  sessions =
      (
        5 ∷ 6 ∷ [],
        record { pubkey = "ab"; user_ip = address; expiry = 60000000003; client_info = client },
      )
      ∷ [];
  session_expiry = 60;
  challenges = (5 ∷ 6 ∷ []) ∷ [];
}

pub created : create_session crypto encode draws 3 request server ≡ (ok info, after)
unfolding create_session create_signed check_challenge first_signer signer_of strip_prefix
    strip_suffix get_message verify_signature find_key open_session new_challenge drawn discard
    expiry_from lookup insert
created = refl

create_session-Authenticated_example :
    (user_ip : SocketAddr) × (request.remote_addr ≡ some user_ip)
    × Opens crypto encode keys user_ip draws 3 request server info after
create_session-Authenticated_example =
    create_session-Authenticated crypto encode keys draws 3 request server refl created

create_session_token_example : contains after.challenges info.token ≡ true
create_session_token_example =
    create_session_token crypto encode keys draws 3 request server refl created

abbrev nobody : Request ClientInfo
nobody = record request { remote_addr = none }

fails : (i : SessionInfo) → (create_session crypto encode draws 3 nobody server).0 ≢ ok i
unfolding create_session
fails i h = cc

create_session-refused_example :
    ((create_session crypto encode draws 3 nobody server).1.sessions ≡ [])
    × ((create_session crypto encode draws 3 nobody server).1.keys ≡ some keys)
create_session-refused_example = create_session-refused crypto encode draws 3 nobody server fails

checked : check_challenge request server ≡ (ok (1 ∷ 2 ∷ []), record server { challenges = [] })
unfolding check_challenge lookup discard
checked = refl

verify_signature_iff_example :
    (verify_signature crypto keys "ab" message request.metadata ≡ ok tt)
    ↔ Signed crypto keys "ab" message request.metadata
verify_signature_iff_example = verify_signature_iff crypto keys "ab" message request.metadata
