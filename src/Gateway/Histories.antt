-- ===== src/Gateway/Histories.antt =====
-- Every run of the server's session store, and what holds in all its states.
use bastionlab.Prelude.{
  ℕ, String, ◌≡◌, refl, sym, ap, subst, ◌∙◌, inl, inr, some, List, arith, ok, Outcome-cases, nat_eq,
  string_eq, list_eq, paired, lookup, lookup-nil, lookup-insert_inv,
}
use bastionlab.Common.Auth.{KeyManagement, Crypto, find_key}
use bastionlab.Common.Session.{
  ClientInfo, SocketAddr, Request, Session, SessionManager, new, get_token, get_user_id, Draws,
  drawn, new_challenge, Encoder, create_session,
}
use bastionlab.Common.Session.Creation.{opened, create_session-Authenticated}
use bastionlab.Common.Session.Failures.{create_session-refused}
use bastionlab.Common.Session.Challenges.{new_challenge_lem}
use bastionlab.Gateway.{call}
use bastionlab.Gateway.Validation.{call-ok_iff, call-lookup, call-keys}

module _ (crypto : Crypto) (encode : Encoder) where
  -- One request to the session service, or through the interceptor, whatever it answers.
  pub data Step : SessionManager → SessionManager → Type 0 where
    challenged : {s : SessionManager} (draws : Draws) → Step s (new_challenge draws s).1
    created :
        {s : SessionManager} (draws : Draws) (now : ℕ) (request : Request ClientInfo)
        → Step s (create_session crypto encode draws now request s).1
    called : {s : SessionManager} (now : ℕ) (req : Request (Unit {0})) → Step s (call now req s).1

  pub data Steps : SessionManager → SessionManager → Type 0 where
    start : {s : SessionManager} → Steps s s
    more : {s t u : SessionManager} → Steps s t → Step t u → Steps s u

-- The keys stay, and every session was opened by one of them.
pub record Registered (keys : KeyManagement) (s : SessionManager) : Type 0 where
  pub same_keys : s.keys ≡ some keys
  pub owned :
      (token : List ℕ) (session : Session)
      → lookup token s.sessions ≡ some session
      → (raw : List ℕ) × (find_key keys session.pubkey ≡ some raw)

new-Registered : (keys : KeyManagement) (secs : ℕ) → Registered keys (new (some keys) secs)
unfolding new
new-Registered keys secs = record {
  same_keys = refl;
  owned = λ token session h. ground (arith, lookup-nil {V = Session} token);
}

unchanged :
    {keys : KeyManagement} (s t : SessionManager)
    → t.sessions ≡ s.sessions
    → t.keys ≡ s.keys
    → Registered keys s
    → Registered keys t
unchanged s t same same_keys reg = record {
  same_keys = same_keys ∙ reg.same_keys;
  owned = λ token session h. reg.owned token session (sym (ap (lookup token) same) ∙ h);
}

module _ (crypto : Crypto) (encode : Encoder) (keys : KeyManagement) where
  opened-Registered :
      (user_ip : SocketAddr) (draws : Draws) (now : ℕ) (request : Request ClientInfo)
      (s : SessionManager) (challenge : List ℕ) (hash : String) (raw : List ℕ)
      → find_key keys hash ≡ some raw
      → Registered keys s
      → Registered keys (opened user_ip draws now request s challenge hash)
  opened-Registered user_ip draws now request s challenge hash raw known reg = record {
    same_keys = reg.same_keys;
    owned = λ token session h. elim (lookup-insert_inv (drawn draws) token _ s.sessions h) [
      | inl new ↦ (raw, ap (λ x. find_key keys x.pubkey) (sym new) ∙ known)
      | inr old ↦ reg.owned token session old
    ];
  }

  created-Registered :
      (draws : Draws) (now : ℕ) (request : Request ClientInfo) (s : SessionManager)
      → Registered keys s
      → Registered keys (create_session crypto encode draws now request s).1
  created-Registered draws now request s reg =
      elim (Outcome-cases (create_session crypto encode draws now request s).0) [
        | inl (info, e) ↦
            let (user_ip, f, (hash, a, same, o)) =
              create_session-Authenticated crypto encode keys draws now request s reg.same_keys
                (paired e) in
            subst (Registered keys) (sym o) (
              opened-Registered user_ip draws now request s a.challenge hash a.signed.raw_pub
                a.signed.registered reg)
        | inr e ↦
            let (same, same_keys) =
              create_session-refused crypto encode draws now request s (λ info f. ground arith) in
            unchanged s _ same same_keys reg
      ]

  Step-Registered :
      {s t : SessionManager} → Step crypto encode s t → Registered keys s → Registered keys t
  Step-Registered (challenged {s} draws) reg =
      unchanged s _ (ap (λ r. r.1.sessions) (new_challenge_lem draws s))
        (ap (λ r. r.1.keys) (new_challenge_lem draws s)) reg
  Step-Registered (created {s} draws now request) reg = created-Registered draws now request s reg
  Step-Registered (called {s} now req) reg = record {
    same_keys = call-keys now req s ∙ reg.same_keys;
    owned = λ token session h. reg.owned token session (call-lookup now req s token session h);
  }

  Steps-Registered :
      {s t : SessionManager} → Steps crypto encode s t → Registered keys s → Registered keys t
  Steps-Registered start reg = reg
  Steps-Registered (more before step) reg = Step-Registered step (Steps-Registered before reg)

  -- Whatever requests the server has answered since its start, one that it lets through is of a
  -- client whose key is registered.
  pub call-Registered :
      (secs : ℕ) {s : SessionManager}
      → Steps crypto encode (new (some keys) secs) s
      → (now : ℕ) (req : Request (Unit {0})) → (call now req s).0 ≡ ok tt
      → (token : List ℕ) × (hash : String) × (raw : List ℕ) × (get_token s req ≡ ok (some token))
        × (get_user_id s (some token) ≡ ok hash)
        × (find_key keys hash ≡ some raw)
  unfolding get_token get_user_id
  call-Registered secs {s} steps now req h =
      let reg = Steps-Registered steps (new-Registered keys secs) in
      let a = (call-ok_iff now req s (ground arith)).0 h in
      let (raw, known) = reg.owned a.token a.session a.held in
      (a.token, a.session.pubkey, raw, ground arith, ground arith, known)
