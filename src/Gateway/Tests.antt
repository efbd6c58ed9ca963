-- ===== src/Gateway/Tests.antt =====
-- The server after the session of `Common.Session.Tests` was opened, and calls on it.
use bastionlab.Prelude.{
  ℕ, ◌<◌, String, ◌≡◌, ◌≢◌, refl, ap, subst, ◌↔◌, ◌⊎◌, none, some, List, [], ◌∷◌, arith, ok, err,
  nat_eq, string_eq, list_eq, lookup,
}
use bastionlab.Common.Status.{status, aborted, permission_denied}
use bastionlab.Common.Auth.{find_key, get_bin}
use bastionlab.Common.Session.{
  Request, Session, SessionManager, new, access_token, get_token, get_user_id, draw, drawn,
  new_challenge, create_session,
}
use bastionlab.Common.Session.Tests.{
  crypto, encode, keys, address, request, server, draws, after, created,
}
use bastionlab.Gateway.{call}
use bastionlab.Gateway.Validation.{Admitted, call-ok_iff, lookup-call, call-expired}
use bastionlab.Gateway.Replay.{
  create_session_replay, at_once, challenged as issued_later, called as used,
}
use bastionlab.Gateway.Histories.{
  Step, challenged, created as create, Steps, start, more, call-Registered,
}

abbrev query : Request (Unit {0})
query = record {
  metadata = record { binary = ("accesstoken-bin", some (5 ∷ 6 ∷ [])) ∷ [] };
  remote_addr = some (record { ip = 10; port = 4001 });
  message = tt;
}

abbrev held : Session
held = record {
  pubkey = "ab";
  user_ip = address;
  expiry = 60000000003;
  client_info = request.message;
}

call-ok_iff_example : ((call 7 query after).0 ≡ ok tt) ↔ Admitted 7 query after
call-ok_iff_example = call-ok_iff 7 query after refl

lookup-after : lookup (5 ∷ 6 ∷ []) after.sessions ≡ some held
unfolding lookup
lookup-after = refl

named : access_token query.metadata ≡ ok (5 ∷ 6 ∷ [])
unfolding access_token lookup
named = refl

lookup-call_example :
    (lookup (5 ∷ 6 ∷ []) (call 70000000000 query after).1.sessions ≡ some held)
    ⊎ ((lookup (5 ∷ 6 ∷ []) (call 70000000000 query after).1.sessions ≡ none)
        × (held.expiry < 70000000000)
        × (access_token query.metadata ≡ ok (5 ∷ 6 ∷ [])))
lookup-call_example = lookup-call 70000000000 query after (5 ∷ 6 ∷ []) held lookup-after

call-expired_example :
    let (r, s') = call 70000000000 query after in
    (r ≡ err (status aborted "Session Expired"))
    × (call 70000000001 query s' ≡ (err (status aborted "Session not found!"), s'))
call-expired_example =
    call-expired 70000000000 70000000001 query query after (5 ∷ 6 ∷ []) held
      (record { ip = 10; port = 4001 }) refl named named lookup-after refl refl (omega arith)

-- The start of the server, a challenge, and the session that answers it.
abbrev fresh : SessionManager
fresh = new (some keys) 60

issued : (new_challenge (draw (1 ∷ 2 ∷ [])) fresh).1 ≡ server
unfolding new_challenge new
issued = refl

history : Steps crypto encode fresh after
history =
    more (more start (subst (Step crypto encode fresh) issued (challenged (draw (1 ∷ 2 ∷ [])))))
      (subst (Step crypto encode server) (ap (λ r. r.1) created) (create draws 3 request))

passes : (call 7 query after).0 ≡ ok tt
unfolding call access_token lookup
passes = refl

call-Registered_example :
    (token : List ℕ) × (hash : String) × (raw : List ℕ) × (get_token after query ≡ ok (some token))
    × (get_user_id after (some token) ≡ ok hash)
    × (find_key keys hash ≡ some raw)
call-Registered_example = call-Registered crypto encode keys 60 history 7 query passes

-- After the session was opened, another challenge is issued, and the session is used.
abbrev in_use : SessionManager
in_use = (call 7 query (new_challenge (draw (9 ∷ [])) after).1).1

drew_token : drawn draws ≢ 1 ∷ 2 ∷ []
unfolding drawn
drew_token h = ground arith

drew_nine : drawn (draw (9 ∷ [])) ≢ 1 ∷ 2 ∷ []
unfolding drawn
drew_nine h = ground arith

asked_for : get_bin request.metadata "challenge-bin" ≡ some (some (1 ∷ 2 ∷ []))
unfolding lookup
asked_for = refl

create_session_replay_example :
    create_session crypto encode (draw (8 ∷ [])) 90 request in_use
    ≡ (err (status permission_denied "Challenge not found!"), in_use)
create_session_replay_example =
    create_session_replay crypto encode keys draws (draw (8 ∷ [])) 3 90 request server (1 ∷ 2 ∷ [])
      refl created asked_for drew_token
      (used 7 query (issued_later (draw (9 ∷ [])) at_once drew_nine))
