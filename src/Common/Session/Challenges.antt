-- ===== src/Common/Session/Challenges.antt =====
-- The life of a challenge: issued, accepted once, refused afterwards.
use bastionlab.Prelude.{
  ℕ, ◌≡◌, refl, true, false, some, List, [], ◌∷◌, arith, if◌then◌else◌, ok, err, ◌==◌, ==_iff,
  contains, nat_eq, string_eq, list_eq, beq_refl,
}
use bastionlab.Common.Status.{status, permission_denied}
use bastionlab.Common.Auth.{get_bin}
use bastionlab.Common.Session.{
  Request, SessionManager, Draws, draw, failure, drawn, new_challenge, discard, check_challenge,
}

pub contains-discard :
    (c d : List ℕ) (xs : List (List ℕ))
    → contains (discard c xs) d ≡ (if c == d then false else contains xs d)
unfolding discard
contains-discard c d [] = ground arith
contains-discard c d (x ∷ xs) =
    ground (arith, ==_iff x c, ==_iff x d, ==_iff c d, contains-discard c d xs)

pub contains-discard_self : (c : List ℕ) (xs : List (List ℕ)) → contains (discard c xs) c ≡ false
contains-discard_self c xs = rw contains-discard (rw (beq_refl c))

-- What a successful check leaves: the challenge that the request names was outstanding and is gone,
-- and nothing else has changed.
pub check_challenge_inv {ℓ} :
    {T : Type ℓ} (request : Request T) (s : SessionManager) {c : List ℕ} {s' : SessionManager}
    → check_challenge request s ≡ (ok c, s')
    → (contains s.challenges c ≡ true)
      × (s' ≡ record s { challenges = discard c s.challenges })
      × (get_bin request.metadata "challenge-bin" ≡ some (some c))
unfolding check_challenge
check_challenge_inv request s {c} {s'} h = ground arith

-- A challenge is good for one check: the request whose challenge was accepted is refused when it is
-- checked again, with no further change.
pub check_challenge_once {ℓ} :
    {T : Type ℓ} (request : Request T) (s : SessionManager) {c : List ℕ} {s' : SessionManager}
    → check_challenge request s ≡ (ok c, s')
    → check_challenge request s' ≡ (err (status permission_denied "Challenge not found!"), s')
unfolding check_challenge
check_challenge_once request s {c} {s'} h =
    ground (arith, check_challenge_inv request s h, contains-discard_self c s.challenges)

pub new_challenge_lem :
    (draws : Draws) (s : SessionManager)
    → new_challenge draws s
      ≡ (ok (drawn draws), record s { challenges = drawn draws ∷ s.challenges })
unfolding new_challenge drawn
new_challenge_lem (draw bytes) s = refl
new_challenge_lem (failure more) s = new_challenge_lem more s

-- A new challenge is outstanding, and every other one is as it was.
pub new_challenge_issued :
    (draws : Draws) (s : SessionManager) (d : List ℕ)
    → let (r, s') = new_challenge draws s in
      (r ≡ ok (drawn draws))
      × (contains s'.challenges d ≡ (if drawn draws == d then true else contains s.challenges d))
unfolding new_challenge drawn
new_challenge_issued (draw bytes) s d = (refl, ground arith)
new_challenge_issued (failure more) s d = new_challenge_issued more s d

pub check_challenge_absent {ℓ} :
    {T : Type ℓ} (request : Request T) (s : SessionManager) (c : List ℕ)
    → get_bin request.metadata "challenge-bin" ≡ some (some c)
    → contains s.challenges c ≡ false
    → check_challenge request s ≡ (err (status permission_denied "Challenge not found!"), s)
unfolding check_challenge
check_challenge_absent request s c named absent = ground arith
