-- ===== src/Common/Session/Creation.antt =====
-- What a created session rests on, and what creating it changes.
use bastionlab.Prelude.{
  ℕ, String, ◌≡◌, inl, inr, true, some, List, ◌∷◌, ◌++◌, arith, Option-cases, ok, ok_or,
  Outcome-cases, contains, nat_eq, string_eq, list_eq, insert, beq_refl,
}
use bastionlab.Common.Status.{Status, status, unauthenticated}
use bastionlab.Common.Action.{lift, >>=-eq-ok}
use bastionlab.Common.Auth.{get_bin, KeyManagement, Crypto, verify_signature}
use bastionlab.Common.Session.{
  ClientInfo, SessionInfo, SocketAddr, Request, SessionManager, Draws, drawn, discard,
  check_challenge, first_signer, expiry_from, ascii, Encoder, get_message, open_session,
  create_signed, create_session,
}
use bastionlab.Common.Auth.Signatures.{Signed, verify_signature-Signed}
use bastionlab.Common.Session.Challenges.{check_challenge_inv, new_challenge_lem}

-- The steps of an accepted request to a server with keys.
pub record Authenticated (crypto : Crypto) (encode : Encoder) (keys : KeyManagement)
    (s : SessionManager) (request : Request ClientInfo) (hash : String) : Type 0 where
  pub challenge : List ℕ
  pub body : List ℕ
  pub outstanding : contains s.challenges challenge ≡ true
  pub named : get_bin request.metadata "challenge-bin" ≡ some (some challenge)
  pub encoded : encode request.message ≡ ok body
  pub signed :
      Signed crypto keys hash (ascii "create-session" ++ (challenge ++ body)) request.metadata

get_message_inv :
    (encode : Encoder) (method : List ℕ) (request : Request ClientInfo) (challenge message : List ℕ)
    → get_message encode method request challenge ≡ ok message
    → (body : List ℕ) × (encode request.message ≡ ok body)
      × (message ≡ method ++ (challenge ++ body))
unfolding get_message
get_message_inv encode method request challenge message h =
    elim (Outcome-cases (encode request.message)) [
      | inl (body, e) ↦ (body, e, ground arith)
      | inr (inl (x, e)) ↦ ground arith
      | inr (inr e) ↦ ground arith
    ]

abbrev no_identity : Status
no_identity = status unauthenticated "You are not authenticated. Please provide an identity."

-- The state after a session was opened for the key `hash` against `challenge`.
abbrev pub opened :
    SocketAddr → Draws → ℕ → Request ClientInfo → SessionManager → List ℕ → String → SessionManager
opened user_ip draws now request s challenge hash = record s {
  sessions =
      insert (drawn draws)
        (record {
          pubkey = hash;
          user_ip = user_ip;
          expiry = expiry_from now s.session_expiry;
          client_info = request.message;
        })
        s.sessions;
  challenges = drawn draws ∷ discard challenge s.challenges;
}

module _ (crypto : Crypto) (encode : Encoder) where
  abbrev pub Opens :
      KeyManagement
      → SocketAddr
      → Draws
      → ℕ
      → Request ClientInfo
      → SessionManager
      → SessionInfo
      → SessionManager
      → Type 0
  Opens keys user_ip draws now request s info s' =
      (hash : String) × (a : Authenticated crypto encode keys s request hash) × (info.token
        ≡ drawn draws)
      × (s' ≡ opened user_ip draws now request s a.challenge hash)

  -- From what the steps returned.
  assemble :
      (keys : KeyManagement) (user_ip : SocketAddr) (draws : Draws) (now : ℕ)
      (request : Request ClientInfo) (s s1 s2 s3 s4 : SessionManager) (c message : List ℕ)
      (hash : String) {info : SessionInfo} {s' : SessionManager}
      → check_challenge request s ≡ (ok c, s1)
      → lift (ok_or (first_signer request.metadata.binary) no_identity) s1 ≡ (ok hash, s2)
      → lift (get_message encode (ascii "create-session") request c) s2 ≡ (ok message, s3)
      → lift (verify_signature crypto keys hash message request.metadata) s3 ≡ (ok tt, s4)
      → open_session hash user_ip draws now request s4 ≡ (ok info, s')
      → Opens keys user_ip draws now request s info s'
  unfolding open_session
  assemble keys user_ip draws now request s s1 s2 s3 s4 c message hash {info} {s'} e1 e2 e3 e4 e5 =
      let (outstanding, left, named) = check_challenge_inv request s e1 in
      let (body, encoded, text) =
        get_message_inv encode (ascii "create-session") request c message (cc e3) in
      (
        hash,
        record {
          challenge = c;
          body = body;
          outstanding = outstanding;
          named = named;
          encoded = encoded;
          signed =
              verify_signature-Signed crypto keys hash _ request.metadata (rw (← text) (cc e4));
        },
        ground (arith, new_challenge_lem draws s4),
        ground (arith, new_challenge_lem draws s4),
      )

  create_signed_inv :
      (keys : KeyManagement) (user_ip : SocketAddr) (draws : Draws) (now : ℕ)
      (request : Request ClientInfo) (s : SessionManager) {info : SessionInfo} {s' : SessionManager}
      → create_signed crypto encode keys user_ip draws now request s ≡ (ok info, s')
      → Opens keys user_ip draws now request s info s'
  unfolding create_signed
  create_signed_inv keys user_ip draws now request s {info} {s'} h =
      let (c, s1, e1, h1) = >>=-eq-ok (check_challenge request) _ s h in
      let (hash, s2, e2, h2) =
        >>=-eq-ok (lift (ok_or (first_signer request.metadata.binary) no_identity)) _ s1 h1 in
      let (message, s3, e3, h3) =
        >>=-eq-ok (lift (get_message encode (ascii "create-session") request c)) _ s2 h2 in
      let (u, s4, e4, h4) =
        >>=-eq-ok (lift (verify_signature crypto keys hash message request.metadata)) _ s3 h3 in
      assemble keys user_ip draws now request s s1 s2 s3 s4 c message hash e1 e2 e3 e4 h4

  -- A server with keys opens a session only for a request from a known address whose challenge was
  -- outstanding and whose signature, over that challenge and the client's data, verifies with a
  -- registered key. The challenge is spent; the session stored under the new token is that of the
  -- key, and every other session is as it was.
  pub create_session-Authenticated :
      (keys : KeyManagement) (draws : Draws) (now : ℕ) (request : Request ClientInfo)
      (s : SessionManager) {info : SessionInfo} {s' : SessionManager}
      → s.keys ≡ some keys
      → create_session crypto encode draws now request s ≡ (ok info, s')
      → (user_ip : SocketAddr) × (request.remote_addr ≡ some user_ip)
        × Opens keys user_ip draws now request s info s'
  unfolding create_session
  create_session-Authenticated keys draws now request s {info} {s'} e h =
      elim (Option-cases request.remote_addr) [
        | inl f ↦ ground arith
        | inr (user_ip, f) ↦ (
          user_ip,
          f,
          create_signed_inv keys user_ip draws now request s {info = info} {s' = s'} (ground arith),
        )
      ]

  -- A session's token is drawn as a challenge is, and stays on the list of outstanding challenges.
  pub create_session_token :
      (keys : KeyManagement) (draws : Draws) (now : ℕ) (request : Request ClientInfo)
      (s : SessionManager) {info : SessionInfo} {s' : SessionManager}
      → s.keys ≡ some keys
      → create_session crypto encode draws now request s ≡ (ok info, s')
      → contains s'.challenges info.token ≡ true
  create_session_token keys draws now request s {info} {s'} e h =
      let (user_ip, f, (hash, a, t, o)) =
        create_session-Authenticated keys draws now request s e h in
      ground (arith, beq_refl (drawn draws))
