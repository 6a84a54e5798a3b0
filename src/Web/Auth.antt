-- ===== src/Web/Auth.antt =====
-- Authentication, auth/auth.go: the configuration, the middleware and the login. The tokens
-- (package jwt) are parameters: `validate` gives the user name of a valid token, `generate` a token
-- for a user name, none for an error. Times and the cookie's domain and flags are left out.
use nectar.Prelude.{
  Bool, false, not, Option, none, some, [], ◌∷◌, ◌==◌, ◌&&◌, ◌||◌, if◌then◌else◌, is_empty, Text,
  text, text_eq, split_at,
}

pub record AuthConfig : Type 0 where
  pub enabled : Bool
  pub username : Text
  pub password : Text
  pub jwt_secret : Text

abbrev pub get_default_config : AuthConfig
get_default_config = record {
  enabled = false;
  username = text "admin";
  password = text "admin";
  jwt_secret = text "nectar-secret-key";
}

abbrev pub given_or : Text → Text → Text
given_or given old = if is_empty given then old else given

-- The settings of the file, and then those of the environment, where they are not empty.
unfoldable pub new_config_from_toml : Bool → Text → Text → Text → Text → Text → Text → AuthConfig
new_config_from_toml enabled username password secret env_user env_pass env_secret = record {
  enabled = enabled;
  username = given_or env_user (given_or username get_default_config.username);
  password = given_or env_pass (given_or password get_default_config.password);
  jwt_secret = given_or env_secret (given_or secret get_default_config.jwt_secret);
}

-- what of a request is looked at: the path, the cookie, the header, the basic credentials
pub record AuthRequest : Type 0 where
  pub path : Text
  pub cookie : Option Text
  pub authorization : Text
  pub basic : Option (Text × Text)

-- The request goes on, perhaps for a user, or it is refused.
pub data Decision : Type 0 where
  anonymous : Decision
  admitted : Text → Decision
  unauthorized : Decision

abbrev pub matches : AuthConfig → Text → Text → Bool
matches config username password =
    text_eq username config.username && text_eq password config.password

-- the token of the header "Bearer …", if it has this form
unfoldable pub bearer : Text → Option Text
unfolding split_at
bearer header = elim (split_at (λ c. c == 32) header) [
  | [] ↦ none
  | scheme ∷ rest ↦ elim rest [
    | [] ↦ none
    | token ∷ more ↦ elim more [
      | [] ↦ if text_eq scheme (text "Bearer") then some token else none
      | _ ∷ _ ↦ none
    ]
  ]
]

module _ (validate : Text → Option Text) where
  abbrev pub check_basic : AuthConfig → AuthRequest → Decision
  check_basic config r = elim r.basic [
    | none ↦ unauthorized
    | some (username, password) ↦
        if matches config username password then admitted username else unauthorized
  ]

  abbrev pub check_header : AuthConfig → AuthRequest → Decision
  check_header config r = elim (if is_empty r.authorization then none else bearer r.authorization) [
    | none ↦ check_basic config r
    | some token ↦ elim (validate token) [ none ↦ check_basic config r | some user ↦ admitted user ]
  ]

  abbrev pub check_cookie : AuthConfig → AuthRequest → Decision
  check_cookie config r = elim r.cookie [
    | none ↦ check_header config r
    | some token ↦ elim (if is_empty token then none else validate token) [
      | none ↦ check_header config r
      | some user ↦ admitted user
    ]
  ]

  -- `BasicAuth`
  unfoldable pub basic_auth : AuthConfig → AuthRequest → Decision
  unfolding bearer
  basic_auth config r =
      if not config.enabled
      then anonymous
      else if text_eq r.path (text "/login") || text_eq r.path (text "/api/login")
      then anonymous
      else check_cookie config r

-- The answers of `LoginHandler`; a token is sent in the body and as the cookie.
pub data Login : Type 0 where
  bad_request invalid_credentials token_failed : Login
  logged_in : Text → Login

-- a request's credentials, none where the body cannot be bound
unfoldable pub login : (Text → Option Text) → AuthConfig → Option (Text × Text) → Login
login generate config none = bad_request
login generate config (some (username, password)) =
    if not (matches config username password)
    then invalid_credentials
    else elim (generate username) [ none ↦ token_failed | some token ↦ logged_in token ]
