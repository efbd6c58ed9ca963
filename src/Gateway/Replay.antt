-- ===== src/Gateway/Replay.antt =====
-- A request that has opened a session, when it is sent again after any later requests.
use bastionlab.Prelude.{
  ℕ, String, ◌≡◌, ◌≢◌, refl, sym, ap, ◌∙◌, inl, inr, false, Option, none, some, List, ◌∷◌, arith,
  Bool-cases, Option-cases, ok, err, ok_or, ◌==◌, ==_iff, contains, nat_eq, string_eq, list_eq,
}
use bastionlab.Common.Status.{status, permission_denied, aborted, unauthenticated, invalid_argument}
use bastionlab.Common.Action.{lift, >>=-keeps}
use bastionlab.Common.Auth.{KeyManagement, Crypto, get_bin, to_bytes, verify_signature}
use bastionlab.Common.Session.{
  ClientInfo, SessionInfo, SocketAddr, Request, SessionManager, Draws, drawn, new_challenge,
  discard, check_challenge, first_signer, ascii, get_message, Encoder, open_session, create_open,
  create_signed, create_for, create_session,
}
use bastionlab.Common.Session.Challenges.{
  contains-discard, contains-discard_self, new_challenge_lem, check_challenge_absent,
}
use bastionlab.Common.Session.Creation.{create_session-Authenticated}
use bastionlab.Gateway.{call}
use bastionlab.Gateway.Validation.{call-keys}

-- The server has its keys, and a challenge is not outstanding.
record Spent (keys : KeyManagement) (c : List ℕ) (s : SessionManager) : Type 0 where
  locked : s.keys ≡ some keys
  absent : contains s.challenges c ≡ false

other_first :
    (c d : List ℕ) (xs : List (List ℕ))
    → d ≢ c
    → contains xs c ≡ false
    → contains (d ∷ xs) c ≡ false
other_first c d xs other h = elim (Bool-cases (d == c)) [
  | inl same ↦ absurd (other ((==_iff d c).0 same))
  | inr different ↦ rw (different, contains) h
]

discard_other :
    (c d : List ℕ) (xs : List (List ℕ)) → contains xs c ≡ false → contains (discard d xs) c ≡ false
discard_other c d xs h = elim (Bool-cases (d == c)) [
  | inl same ↦ rw (contains-discard d c xs, same) refl
  | inr different ↦ rw (contains-discard d c xs, different) h
]

module _ (keys : KeyManagement) (c : List ℕ) where
  new_challenge-Spent :
      (draws : Draws) (s : SessionManager)
      → drawn draws ≢ c
      → Spent keys c s
      → Spent keys c (new_challenge draws s).1
  new_challenge-Spent draws s other i = rw (new_challenge_lem draws s) (record {
    locked = i.locked;
    absent = other_first c (drawn draws) s.challenges other i.absent;
  })

  check_challenge-Spent :
      (request : Request ClientInfo) (s : SessionManager)
      → Spent keys c s
      → Spent keys c (check_challenge request s).1
  unfolding check_challenge
  check_challenge-Spent request s i =
      elim (Option-cases (get_bin request.metadata "challenge-bin")) [
        | inl e ↦ rw (e, check_challenge) i
        | inr (challenge, e) ↦
            rw (e, check_challenge)
              (>>=-keeps (Spent keys c)
                (lift (to_bytes challenge (status invalid_argument "Could not decode challenge"))) _
                s i
                (λ bytes _. elim (Bool-cases (contains s.challenges bytes)) [
                  | inl found ↦ rw found (record {
                    locked = i.locked;
                    absent = discard_other c bytes s.challenges i.absent;
                  })
                  | inr missing ↦ rw missing i
                ]))
      ]

  open_session-Spent :
      (hash : String) (user_ip : SocketAddr) (draws : Draws) (now : ℕ)
      (request : Request ClientInfo) (s : SessionManager)
      → drawn draws ≢ c
      → Spent keys c s
      → Spent keys c (open_session hash user_ip draws now request s).1
  unfolding open_session
  open_session-Spent hash user_ip draws now request s other i =
      >>=-keeps (Spent keys c) (new_challenge draws) _ s (new_challenge-Spent draws s other i)
        (λ token _.
          let j = new_challenge-Spent draws s other i in
          record { locked = j.locked; absent = j.absent })

module _ (crypto : Crypto) (encode : Encoder) (keys : KeyManagement) (c : List ℕ) where
  create_signed-Spent :
      (k : KeyManagement) (user_ip : SocketAddr) (draws : Draws) (now : ℕ)
      (request : Request ClientInfo) (s : SessionManager)
      → drawn draws ≢ c
      → Spent keys c s
      → Spent keys c (create_signed crypto encode k user_ip draws now request s).1
  unfolding create_signed
  create_signed-Spent k user_ip draws now request s other i =
      let P = Spent keys c in
      let t = (check_challenge request s).1 in
      let j = check_challenge-Spent keys c request s i in
      >>=-keeps P (check_challenge request) _ s j (λ challenge _.
        >>=-keeps P
          (lift (
            ok_or (first_signer request.metadata.binary)
              (status unauthenticated "You are not authenticated. Please provide an identity.")))
          _ t j
          (λ hash _.
            >>=-keeps P (lift (get_message encode (ascii "create-session") request challenge)) _ t j
              (λ message _.
                >>=-keeps P (lift (verify_signature crypto k hash message request.metadata)) _ t j
                  (λ checked _.
                    open_session-Spent keys c hash user_ip draws now request t other j))))

  create_for-Spent :
      (user_ip : SocketAddr) (draws : Draws) (now : ℕ) (request : Request ClientInfo)
      (k : Option KeyManagement) (s : SessionManager)
      → drawn draws ≢ c
      → Spent keys c s
      → Spent keys c (create_for crypto encode user_ip draws now request k s).1
  unfolding create_open
  create_for-Spent user_ip draws now request none s other i = record {
    locked = i.locked;
    absent = i.absent;
  }
  create_for-Spent user_ip draws now request (some k) s other i =
      create_signed-Spent k user_ip draws now request s other i

  create_session-Spent :
      (draws : Draws) (now : ℕ) (request : Request ClientInfo) (s : SessionManager)
      → drawn draws ≢ c
      → Spent keys c s
      → Spent keys c (create_session crypto encode draws now request s).1
  unfolding create_session
  create_session-Spent draws now request s other i =
      >>=-keeps (Spent keys c)
        (lift
          (ok_or request.remote_addr (status aborted "Could not fetch IP Address from request")))
        _ s i (λ user_ip _. create_for-Spent user_ip draws now request s.keys s other i)

call-challenges :
    (now : ℕ) (req : Request (Unit {0})) (s : SessionManager)
    → (call now req s).1.challenges ≡ s.challenges
unfolding call
call-challenges now req s = ground arith

module _ (crypto : Crypto) (encode : Encoder) where
  -- Any requests to the session service or through the interceptor, whatever they come to, in which
  -- the generator does not draw `c`.
  pub data Later (c : List ℕ) (s : SessionManager) : SessionManager → Type 0 where
    at_once : Later c s s
    challenged :
        {t : SessionManager} (draws : Draws)
        → Later c s t
        → drawn draws ≢ c
        → Later c s (new_challenge draws t).1
    created :
        {t : SessionManager} (draws : Draws) (now : ℕ) (request : Request ClientInfo)
        → Later c s t
        → drawn draws ≢ c
        → Later c s (create_session crypto encode draws now request t).1
    called :
        {t : SessionManager} (now : ℕ) (req : Request (Unit {0}))
        → Later c s t
        → Later c s (call now req t).1

  Later-Spent :
      (keys : KeyManagement) (c : List ℕ) {s t : SessionManager}
      → Later c s t
      → Spent keys c s
      → Spent keys c t
  Later-Spent keys c at_once i = i
  Later-Spent keys c (challenged {t = t} draws l other) i =
      new_challenge-Spent keys c draws t other (Later-Spent keys c l i)
  Later-Spent keys c (created {t = t} draws now request l other) i =
      create_session-Spent crypto encode keys c draws now request t other (Later-Spent keys c l i)
  Later-Spent keys c (called {t = t} now req l) i =
      let j = Later-Spent keys c l i in
      record {
        locked = call-keys now req t ∙ j.locked;
        absent = ap (λ (xs : List (List ℕ)). contains xs c) (call-challenges now req t) ∙ j.absent;
      }

  refused :
      (keys : KeyManagement) (user_ip : SocketAddr) (draws : Draws) (now : ℕ)
      (request : Request ClientInfo) (s : SessionManager) (c : List ℕ)
      → request.remote_addr ≡ some user_ip
      → get_bin request.metadata "challenge-bin" ≡ some (some c)
      → Spent keys c s
      → create_session crypto encode draws now request s
        ≡ (err (status permission_denied "Challenge not found!"), s)
  unfolding create_session create_signed
  refused keys user_ip draws now request s c f named i =
      let absent = check_challenge_absent request s c named i.absent in
      ground (arith, absent, i.locked)

  -- A request that opened a session on a server with keys is refused when it is sent again, after
  -- any requests to the session service or through the interceptor, whatever those come to, and
  -- changes nothing: unless the generator draws its challenge once more, as the token of its own
  -- session or later.
  pub create_session_replay :
      (keys : KeyManagement) (draws again : Draws) (now later : ℕ) (request : Request ClientInfo)
      (s : SessionManager) (c : List ℕ) {info : SessionInfo} {s' t : SessionManager}
      → s.keys ≡ some keys
      → create_session crypto encode draws now request s ≡ (ok info, s')
      → get_bin request.metadata "challenge-bin" ≡ some (some c)
      → drawn draws ≢ c
      → Later c s' t
      → create_session crypto encode again later request t
        ≡ (err (status permission_denied "Challenge not found!"), t)
  create_session_replay keys draws again now later request s c {info} {s'} {t} e h named other l =
      let (user_ip, f, (hash, a, token, o)) =
        create_session-Authenticated crypto encode keys draws now request s e h in
      refused keys user_ip again later request t c f named (
        Later-Spent keys c l (
          rw o (record {
            locked = e;
            absent = other_first c (drawn draws) (discard a.challenge s.challenges) other (
                rw (same a.challenge (sym named ∙ a.named))
                  (contains-discard_self a.challenge s.challenges));
          })))
    where
      same : (d : List ℕ) → some (some c) ≡ some (some d) → c ≡ d
      same d h = cc
