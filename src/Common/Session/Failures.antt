-- ===== src/Common/Session/Failures.antt =====
-- What a refused request leaves behind, and the server without keys.
use bastionlab.Prelude.{
  ℕ, String, ◌≡◌, refl, ◌∙◌, ◌≢◌, ◌⊎◌, inl, inr, Option, none, some, arith, Outcome, ok, err, panic,
  ok_or, nat_eq, string_eq, list_eq,
}
use bastionlab.Common.Status.{Status}
use bastionlab.Common.Action.{Action, lift, gets, continue, ◌>>=◌}
use bastionlab.Common.Auth.{KeyManagement, Crypto}
use bastionlab.Common.Session.{
  ClientInfo, SessionInfo, SocketAddr, Request, SessionManager, zero_token, Draws, drawn,
  check_challenge, Encoder, session_info, open_session, create_open, create_signed, create_for,
  create_session,
}
use bastionlab.Common.Session.Challenges.{new_challenge_lem}

-- The sessions, and the keys that opened them.
record Same (s t : SessionManager) : Type 0 where
  sessions : t.sessions ≡ s.sessions
  keys : t.keys ≡ s.keys

-- An action that touches neither.
record Untouched {A : Type 0} (m : Action SessionManager A) : Type 0 where
  same : (s : SessionManager) → Same s (m s).1

-- One that touches them only if it returns.
record Quiet {A : Type 0} (m : Action SessionManager A) : Type 0 where
  unless_ok : (s : SessionManager) → ((a : A) × ((m s).0 ≡ ok a)) ⊎ Same s (m s).1

Same-trans : {s t u : SessionManager} → Same s t → Same t u → Same s u
Same-trans h k = record { sessions = k.sessions ∙ h.sessions; keys = k.keys ∙ h.keys }

Untouched-lift : {A : Type 0} (r : Outcome Status A) → Untouched (lift r)
Untouched-lift r = record { same = λ s. record { sessions = refl; keys = refl } }

Untouched-gets : {A : Type 0} (f : SessionManager → A) → Untouched (gets f)
Untouched-gets f = record { same = λ s. record { sessions = refl; keys = refl } }

module _ {A B : Type 0} where
  Quiet-bind :
      (m : Action SessionManager A) (f : A → Action SessionManager B)
      → Untouched m
      → ((a : A) → Quiet (f a))
      → Quiet (m >>= f)
  Quiet-bind m f keeps quiet = record {
    unless_ok = λ s. let (r, t) = m s in after s r t (keeps.same s);
  }
    where
      after :
          (s : SessionManager) (r : Outcome Status A) (t : SessionManager)
          → Same s t
          → ((b : B) × ((continue r f t).0 ≡ ok b)) ⊎ Same s (continue r f t).1
      after s (ok a) t h = elim ((quiet a).unless_ok t) [
        | inl done ↦ inl done
        | inr k ↦ inr (Same-trans h k)
      ]
      after s (err e) t h = inr h
      after s panic t h = inr h

check_challenge-Untouched : (request : Request ClientInfo) → Untouched (check_challenge request)
unfolding check_challenge
check_challenge-Untouched request = record { same = λ s. ground arith }

open_session-Quiet :
    (hash : String) (user_ip : SocketAddr) (draws : Draws) (now : ℕ) (request : Request ClientInfo)
    → Quiet (open_session hash user_ip draws now request)
unfolding open_session
open_session-Quiet hash user_ip draws now request = record {
  unless_ok = λ s. inl (session_info s (drawn draws), ground (arith, new_challenge_lem draws s));
}

ruleset quiet_rules = (Quiet-bind, Untouched-lift, check_challenge-Untouched, open_session-Quiet)

module _ (crypto : Crypto) (encode : Encoder) where
  create_signed-Quiet :
      (keys : KeyManagement) (user_ip : SocketAddr) (draws : Draws) (now : ℕ)
      (request : Request ClientInfo)
      → Quiet (create_signed crypto encode keys user_ip draws now request)
  unfolding create_signed
  create_signed-Quiet keys user_ip draws now request = search quiet_rules depth 10

  create_open-Quiet :
      (user_ip : SocketAddr) (now : ℕ) (request : Request ClientInfo)
      → Quiet (create_open crypto encode user_ip now request)
  unfolding create_open
  create_open-Quiet user_ip now request = record {
    unless_ok = λ s. inl (session_info s zero_token, refl);
  }

  create_for-Quiet :
      (user_ip : SocketAddr) (draws : Draws) (now : ℕ) (request : Request ClientInfo)
      (keys : Option KeyManagement)
      → Quiet (create_for crypto encode user_ip draws now request keys)
  create_for-Quiet user_ip draws now request none = create_open-Quiet user_ip now request
  create_for-Quiet user_ip draws now request (some k) =
      create_signed-Quiet k user_ip draws now request

  create_session-Quiet :
      (draws : Draws) (now : ℕ) (request : Request ClientInfo)
      → Quiet (create_session crypto encode draws now request)
  unfolding create_session
  create_session-Quiet draws now request =
      Quiet-bind (lift (ok_or request.remote_addr _)) _ (Untouched-lift _) (λ user_ip.
        Quiet-bind (gets (λ s. s.keys)) _ (Untouched-gets _)
          (λ keys. create_for-Quiet user_ip draws now request keys))

  -- A request that is refused, or that panics, changes no session and no key.
  pub create_session-refused :
      (draws : Draws) (now : ℕ) (request : Request ClientInfo) (s : SessionManager)
      → ((info : SessionInfo) → (create_session crypto encode draws now request s).0 ≢ ok info)
      → ((create_session crypto encode draws now request s).1.sessions ≡ s.sessions)
        × ((create_session crypto encode draws now request s).1.keys ≡ s.keys)
  create_session-refused draws now request s refused =
      elim ((create_session-Quiet draws now request).unless_ok s) [
        | inl (info, e) ↦ absurd (refused info e)
        | inr same ↦ (same.sessions, same.keys)
      ]
