-- ===== src/Gateway/Validation.antt =====
-- What the interceptor lets through, and what it answers when it does not.
use bastionlab.Prelude.{
  ℕ, ◌≤◌, ◌<◌, ◌≡◌, sym, ap, ◌∙◌, ◌↔◌, ◌⊎◌, inl, inr, true, none, some, List, arith, ltb, eqb,
  ltb→lt, Bool-cases, Option-cases, ok, err, Outcome-cases, ==_iff, nat_eq, string_eq, list_eq,
  lookup, erase, lookup-erase, beq_refl,
}
use bastionlab.Common.Status.{status, aborted}
use bastionlab.Common.Session.{
  SocketAddr, Request, Session, SessionManager, auth_enabled, access_token,
}
use bastionlab.Gateway.{call}

-- Why a request passes a server with keys.
pub record Admitted {ℓ} {T : Type ℓ} (now : ℕ) (req : Request T) (s : SessionManager) : Type 0 where
  pub token : List ℕ
  pub session : Session
  pub addr : SocketAddr
  pub named : access_token req.metadata ≡ ok token
  pub held : lookup token s.sessions ≡ some session
  pub from : req.remote_addr ≡ some addr
  pub same_ip : addr.ip ≡ session.user_ip.ip
  pub current : now ≤ session.expiry

module _ {ℓ} {T : Type ℓ} where
  -- A server with keys lets a request through exactly if its token names a session that has not
  -- expired and that was opened from the same address.
  pub call-ok_iff :
      (now : ℕ) (req : Request T) (s : SessionManager)
      → auth_enabled s ≡ true
      → ((call now req s).0 ≡ ok tt) ↔ Admitted now req s
  unfolding call
  call-ok_iff now req s e = (passes, admitted)
    where
      admitted : Admitted now req s → (call now req s).0 ≡ ok tt
      admitted a = ground (arith, a.named, a.held, a.from, a.same_ip, a.current)

      passes : (call now req s).0 ≡ ok tt → Admitted now req s
      passes h = elim (Outcome-cases (access_token req.metadata)) [
        | inl (token, f) ↦ elim (Option-cases (lookup token s.sessions)) [
          | inl g ↦ ground arith
          | inr (session, g) ↦ elim (Option-cases req.remote_addr) [
            | inl k ↦ ground arith
            | inr (addr, k) ↦ record {
              token = token;
              session = session;
              addr = addr;
              named = f;
              held = g;
              from = k;
              same_ip = ground arith;
              current = ground arith;
            }
          ]
        ]
        | inr (inl (x, f)) ↦ ground arith
        | inr (inr f) ↦ ground arith
      ]

  -- A call leaves the state as it was, or removes the expired session of its own client.
  pub call-state :
      (now : ℕ) (req : Request T) (s : SessionManager)
      → ((call now req s).1 ≡ s)
        ⊎ ((token : List ℕ) × (session : Session) × (access_token req.metadata ≡ ok token)
            × (lookup token s.sessions ≡ some session)
            × (session.expiry < now)
            × ((call now req s).1 ≡ record s { sessions = erase token s.sessions }))
  unfolding call
  call-state now req s = elim (Bool-cases (auth_enabled s)) [
    | inl e ↦ elim (Outcome-cases (access_token req.metadata)) [
      | inl (token, f) ↦ elim (Option-cases (lookup token s.sessions)) [
        | inl g ↦ inl (ground arith)
        | inr (session, g) ↦ elim (Bool-cases (ltb session.expiry now)) [
          | inl old ↦ elim (Option-cases req.remote_addr) [
            | inl k ↦ inl (ground arith)
            | inr (addr, k) ↦ elim (Bool-cases (eqb session.user_ip.ip addr.ip)) [
              | inl same ↦ inr (token, session, f, g, ltb→lt session.expiry now old, ground arith)
              | inr other ↦ inl (ground arith)
            ]
          ]
          | inr fresh ↦ inl (ground arith)
        ]
      ]
      | inr (inl (x, f)) ↦ inl (ground arith)
      | inr (inr f) ↦ inl (ground arith)
    ]
    | inr e ↦ inl (ground arith)
  ]

  -- The sessions after a call are those before it, but for a session that has expired, which the
  -- call of its own client removes.
  pub lookup-call :
      (now : ℕ) (req : Request T) (s : SessionManager) (token : List ℕ) (session : Session)
      → lookup token s.sessions ≡ some session
      → (lookup token (call now req s).1.sessions ≡ some session)
        ⊎ ((lookup token (call now req s).1.sessions ≡ none)
            × (session.expiry < now)
            × (access_token req.metadata ≡ ok token))
  lookup-call now req s token session h = elim (call-state now req s) [
    | inl same ↦ inl (ap (λ t. lookup token t.sessions) same ∙ h)
    | inr (t, old, f, g, expired, o) ↦
        ground (arith, lookup-erase t token s.sessions, ==_iff t token)
  ]

  -- No call adds a session.
  pub call-lookup :
      (now : ℕ) (req : Request T) (s : SessionManager) (token : List ℕ) (session : Session)
      → lookup token (call now req s).1.sessions ≡ some session
      → lookup token s.sessions ≡ some session
  call-lookup now req s token session h = elim (call-state now req s) [
    | inl same ↦ sym (ap (λ t. lookup token t.sessions) same) ∙ h
    | inr (t, old, f, g, expired, o) ↦
        ground (arith, lookup-erase t token s.sessions, ==_iff t token)
  ]

  pub call-keys :
      (now : ℕ) (req : Request T) (s : SessionManager) → (call now req s).1.keys ≡ s.keys
  unfolding call
  call-keys now req s = ground arith

  -- A session that has expired is removed by the request that finds it so: that request is refused,
  -- and any later request with its token is answered as if the session had never been.
  pub call-expired :
      (now later : ℕ) (req again : Request T) (s : SessionManager) (token : List ℕ)
      (session : Session) (addr : SocketAddr)
      → auth_enabled s ≡ true
      → access_token req.metadata ≡ ok token
      → access_token again.metadata ≡ ok token
      → lookup token s.sessions ≡ some session
      → req.remote_addr ≡ some addr
      → addr.ip ≡ session.user_ip.ip
      → session.expiry < now
      → let (r, s') = call now req s in
        (r ≡ err (status aborted "Session Expired"))
        × (call later again s' ≡ (err (status aborted "Session not found!"), s'))
  unfolding call
  call-expired now later req again s token session addr on named named' held from same expired =
      ground (arith, lookup-erase token token s.sessions, beq_refl token)
