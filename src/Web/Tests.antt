-- ===== src/Web/Tests.antt =====
-- Two websocket clients, and a login.
use native.Mathlib.Decide.{ℕ_discrete}
use nectar.Prelude.{
  ◌≡◌, ◌⊎◌, refl, true, Option, none, some, List, [], ◌∷◌, ◌==◌, if◌then◌else◌, Text, text,
}
use nectar.Web.Auth.{AuthConfig, AuthRequest, admitted, basic_auth, login, logged_in}
use nectar.Web.Admission.{Proves, basic_auth-Proves}
use nectar.Prelude.Dict.{lookup}
use nectar.Web.Hub.{
  HubEvent, connects, leaves, updates, broadcasts, pings, writes, new_hub, hub_step, hub_run,
}
use nectar.Web.Safe.{PingsClosed, hub_step-PingsClosed}

abbrev events : List HubEvent
events = connects ∷ connects ∷ updates (text "a") ∷ broadcasts ∷ writes 0 ∷ leaves 0 ∷ []

hub_step-PingsClosed_example :
    let h = hub_run events new_hub in
    ((hub_step (pings 1) h).panicked ≡ h.panicked) ⊎ PingsClosed (pings 1) h
hub_step-PingsClosed_example = hub_step-PingsClosed events (pings 1)

second_client : lookup ℕ_discrete 1 (hub_run events new_hub).clients ≡ some true
unfolding lookup hub_run new_hub ℕ_discrete
second_client = refl

abbrev config : AuthConfig
config = record {
  enabled = true;
  username = text "nectar";
  password = text "pw";
  jwt_secret = text "s";
}

-- tokens that are the user's name with a letter before it
abbrev make_token : Text → Option Text
make_token user = some (84 ∷ user)

abbrev read_token : Text → Option Text
read_token [] = none
read_token (c ∷ user) = if c == 84 then some user else none

abbrev page : AuthRequest
page = record { path = text "/"; cookie = some (text "Tnectar"); authorization = []; basic = none }

page-admitted : basic_auth read_token config page ≡ admitted (text "nectar")
unfolding basic_auth
page-admitted = refl

basic_auth-Proves_example : Proves read_token config page (text "nectar")
basic_auth-Proves_example = basic_auth-Proves read_token config page (text "nectar") page-admitted

sent_token : login make_token config (some (text "nectar", text "pw")) ≡ logged_in (text "Tnectar")
unfolding login
sent_token = refl
