-- ===== src/Web/Admission.antt =====
-- Whom the middleware of auth/auth.go admits.
use nectar.Prelude.{
  ◌≡◌, ◌⊎◌, inl, inr, true, not, Option, none, some, ◌||◌, if◌then◌else◌, if-cases, is_empty, Text,
  text, text_eq, arith, option-cases_eq, subst,
}
use nectar.Web.Auth.{
  AuthConfig, AuthRequest, Decision, anonymous, admitted, unauthorized, matches, bearer,
  check_basic, check_header, check_cookie, basic_auth, login, logged_in,
}

-- the three ways to be admitted as a user
abbrev pub Proves : (Text → Option Text) → AuthConfig → AuthRequest → Text → Type 0
Proves validate config r user =
    ((token : Text) × (r.cookie ≡ some token) × (validate token ≡ some user))
    ⊎ ((token : Text) × (bearer r.authorization ≡ some token) × (validate token ≡ some user))
    ⊎ ((password : Text) × (r.basic ≡ some (user, password))
        × (matches config user password ≡ true))

module _ (validate : Text → Option Text) (config : AuthConfig) (r : AuthRequest) where
  Justified : Decision → Type 0
  Justified anonymous = Unit
  Justified unauthorized = Unit
  Justified (admitted user) = Proves validate config r user

  check_basic-Justified : Justified (check_basic validate config r)
  unfolding Justified
  check_basic-Justified =
      option-cases_eq Justified r.basic _ _ (λ _. tt)
        (λ up e.
          let (u, p) = up in
          if-cases Justified (matches config u p) _ _ (λ t. inr (inr (p, e, t))) (λ _. tt))

  check_header-Justified : Justified (check_header validate config r)
  unfolding Justified
  check_header-Justified =
      option-cases_eq Justified (if is_empty r.authorization then none else bearer r.authorization)
        _ _ (λ _. check_basic-Justified)
        (λ token e.
          option-cases_eq Justified (validate token) _ _ (λ _. check_basic-Justified)
            (λ user v. inr (inl (token, taken r.authorization token e, v))))
    where
      taken :
          (a token : Text)
          → (if is_empty a then none else bearer a) ≡ some token
          → bearer a ≡ some token
      taken a token e = ground (arith, e)

  check_cookie-Justified : Justified (check_cookie validate config r)
  unfolding Justified
  check_cookie-Justified =
      option-cases_eq Justified r.cookie _ _ (λ _. check_header-Justified)
        (λ token c.
          option-cases_eq Justified (if is_empty token then none else validate token) _ _
            (λ _. check_header-Justified) (λ user e. inl (token, c, taken token user e)))
    where
      taken :
          (token user : Text)
          → (if is_empty token then none else validate token) ≡ some user
          → validate token ≡ some user
      taken token user e = ground (arith, e)

  basic_auth-Justified : Justified (basic_auth validate config r)
  unfolding Justified basic_auth
  basic_auth-Justified =
      if-cases Justified (not config.enabled) _ _ (λ _. tt)
        (λ _.
          if-cases Justified (text_eq r.path (text "/login") || text_eq r.path (text "/api/login"))
            _ _ (λ _. tt) (λ _. check_cookie-Justified))

  -- `BasicAuth` admits a request as a user only if its cookie, or the token of its header, is valid
  -- for the user, or its basic credentials are the configured ones with the user's name.
  pub basic_auth-Proves :
      (user : Text) → basic_auth validate config r ≡ admitted user → Proves validate config r user
  unfolding Justified
  basic_auth-Proves user e = subst Justified e basic_auth-Justified

login-username :
    (generate : Text → Option Text) (config : AuthConfig) (username password token : Text)
    → login generate config (some (username, password)) ≡ logged_in token
    → text_eq username config.username ≡ true
unfolding login
login-username generate config username password token l = ground (arith, l)
