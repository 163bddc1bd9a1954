-- ===== src/Instance/Auth/Sound.antt =====
-- What a successful authentication has checked.
use agro_daemon.Base.{
  ℕ, ◌+◌, ◌≤◌, String, ◌≡◌, refl, true, some, List, Option, arith, length, ◌⊎◌, Option-cases, inl,
  inr,
}
use agro_daemon.Message.Json.{Json}
use agro_daemon.Message.Types.{UserCommand, autheticate, auth_session_id}
use agro_daemon.User.Account.{User, Logged, Status, set_user, authenticate}
use agro_daemon.Instance.Db.{Db}
use agro_daemon.Instance.Users.{
  Instance, check_user_session_id, get_user_by_name, get_user_password,
}
use agro_daemon.Instance.Auth.{
  Error, Outcome, ok, err, fault, key_length, session_time_seconds, same_bytes, check_user_status,
  text_of, data_of, check_password, check_session_id, check_credential, find_user, authenticate_doc,
}

Outcome-cases {ℓ} :
    {A : Type ℓ} (o : Outcome A)
    → ((a : A) × (o ≡ ok a)) ⊎ (((e : Error) × (o ≡ err e)) ⊎ (o ≡ fault))
Outcome-cases (ok a) = inl (a, refl)
Outcome-cases (err e) = inr (inl (e, refl))
Outcome-cases fault = inr (inr refl)

module _ (J : Json) (D : Db) (pbkdf2 : String → List ℕ → Option (List ℕ)) where
  -- What proves that a client is a user: a password that hashes to the stored key, or a session of
  -- the user that is not older than its lifetime.
  pub data Credential (now : ℕ) (i : Instance D) (user : User) (payload : J.Value)
      : UserCommand → Type 0 where
    by_password :
        (password : String) (salt pass key : List ℕ)
        → text_of J payload "password" ≡ some password
        → get_user_password D i user.info.username ≡ some (salt, pass)
        → length pass ≡ key_length
        → pbkdf2 password salt ≡ some key
        → same_bytes key_length key pass ≡ true
        → Credential now i user payload autheticate
    by_session :
        (sessionid user_agent : String) (time : ℕ)
        → text_of J payload "sessionid" ≡ some sessionid
        → text_of J payload "user_agent" ≡ some user_agent
        → check_user_session_id D i user.id sessionid user_agent ≡ (true, time)
        → now ≤ time + session_time_seconds
        → Credential now i user payload auth_session_id

  check_password-Credential :
      (now : ℕ) (i : Instance D) (user : User) (payload : J.Value)
      → check_password J D pbkdf2 i user payload ≡ ok tt
      → (user.info.status ≡ Status.active) × Credential now i user payload autheticate
  unfolding check_password check_user_status
  check_password-Credential now i user payload h =
      elim (Option-cases (text_of J payload "password")) [
        | inl e ↦ ground arith
        | inr (pw, p) ↦ elim (Option-cases (get_user_password D i user.info.username)) [
          | inl e ↦ ground arith
          | inr (stored, s) ↦ elim (Option-cases (pbkdf2 pw stored.0)) [
            | inl e ↦ ground arith
            | inr (key, k) ↦ (
              ground arith,
              by_password pw stored.0 stored.1 key p s (ground arith) k (ground arith),
            )
          ]
        ]
      ]

  check_session_id-Credential :
      (now : ℕ) (i : Instance D) (user : User) (payload : J.Value)
      → check_session_id J D pbkdf2 now i user payload ≡ ok tt
      → (user.info.status ≡ Status.active) × Credential now i user payload auth_session_id
  unfolding check_session_id check_user_status
  check_session_id-Credential now i user payload h =
      elim (Option-cases (text_of J payload "sessionid")) [
        | inl e ↦ ground arith
        | inr (sid, s) ↦ elim (Option-cases (text_of J payload "user_agent")) [
          | inl e ↦ ground arith
          | inr (agent, a) ↦ (
            ground arith,
            by_session sid agent (check_user_session_id D i user.id sid agent).1 s a (ground arith)
                (ground arith),
          )
        ]
      ]

  -- The facts behind an accepted document, and the connection that it leaves.
  pub record Admitted (now : ℕ) (i : Instance D) (logged : Logged) (doc : J.Value)
      (comm : UserCommand) : Type 0 where
    pub user : User
    pub payload : J.Value
    pub username : String
    pub has_payload : data_of J doc ≡ some payload
    pub has_username : text_of J payload "user" ≡ some username
    pub is_user : get_user_by_name D i username ≡ some user
    pub is_active : user.info.status ≡ Status.active
    pub credential : Credential now i user payload comm
    pub connection :
        (authenticate_doc J D pbkdf2 now i logged doc).1 ≡ authenticate (set_user logged user)

  check_credential-Credential :
      (now : ℕ) (comm : UserCommand) (i : Instance D) (user : User) (payload : J.Value)
      → check_credential J D pbkdf2 now comm i user payload ≡ ok tt
      → (user.info.status ≡ Status.active) × Credential now i user payload comm
  unfolding check_credential
  check_credential-Credential now autheticate i user payload h =
      check_password-Credential now i user payload h
  check_credential-Credential now auth_session_id i user payload h =
      check_session_id-Credential now i user payload h
  check_credential-Credential now _ i user payload h = cc

  find_user-found :
      (i : Instance D) (doc : J.Value) (comm : UserCommand) (user : User) (payload : J.Value)
      → find_user J D pbkdf2 i doc ≡ ok (comm, user, payload)
      → (username : String) × (data_of J doc ≡ some payload)
        × (text_of J payload "user" ≡ some username)
        × (get_user_by_name D i username ≡ some user)
  unfolding find_user
  find_user-found i doc comm user payload h = elim (Option-cases (text_of J payload "user")) [
    | inl e ↦ ground arith
    | inr (name, n) ↦ (name, ground arith, n, ground arith)
  ]

  admit :
      (now : ℕ) (i : Instance D) (logged : Logged) (doc : J.Value) (comm : UserCommand)
      (user : User) (payload : J.Value)
      → find_user J D pbkdf2 i doc ≡ ok (comm, user, payload)
      → check_credential J D pbkdf2 now comm i user payload ≡ ok tt
      → Admitted now i logged doc comm
  unfolding authenticate_doc
  admit now i logged doc comm user payload f k =
      let (username, d, n, u) = find_user-found i doc comm user payload f in
      let (active, c) = check_credential-Credential now comm i user payload k in
      record {
        user = user;
        payload = payload;
        username = username;
        has_payload = d;
        has_username = n;
        is_user = u;
        is_active = active;
        credential = c;
        connection = ground arith;
      }

  -- A document is accepted only for the user that it names, if that user is active and the document
  -- holds the user's password or a live session of the user; the connection then stands for that
  -- user.
  pub authenticate_doc-Admitted :
      (now : ℕ) (i : Instance D) (logged : Logged) (doc : J.Value) (comm : UserCommand)
      → (authenticate_doc J D pbkdf2 now i logged doc).0 ≡ ok comm
      → Admitted now i logged doc comm
  unfolding authenticate_doc
  authenticate_doc-Admitted now i logged doc comm h =
      elim (Outcome-cases (find_user J D pbkdf2 i doc)) [
        | inr other ↦ ground arith
        | inl ((c, user, payload), f) ↦
            elim (Outcome-cases (check_credential J D pbkdf2 now c i user payload)) [
              | inr other ↦ ground arith
              | inl (_, k) ↦ admit now i logged doc comm user payload (ground arith) (ground arith)
            ]
      ]
