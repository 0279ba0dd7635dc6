-- ===== src/Api/SessionTests.antt =====
-- A registration, a login and a request, over concrete libraries.
use simulator.Common.{ℕ, ◌+◌, refl, ap, inr, none, some, [], ◌∷◌, arith, get_or, replicate}
use simulator.Common.Texts.{split_on}
use simulator.Common.Maps.{text_key}
use simulator.Runtime.{more}
use simulator.Registry.{Registry}
use simulator.Auth.{
  bearer, strip_prefix, trim_left, trim_right, is_space, issue_pair, issue_access, issue_refresh,
  issue,
}
use simulator.Auth.Passwords.{phc_text, hash_password}
use simulator.Auth.Accounts.{
  UserInfo, Drawn, register_role, register_user, register_hash, created_user,
}
use simulator.Auth.Tests.{
  toy, toy-IsJwt, tokens, toy_crypto, toy_crypto-IsCrypto, user_list, user_list-IsUsers, toy_encode,
}
use simulator.Runner.{Model}
use simulator.Api.{Server, Outside, api_error, write_json, account}
use simulator.Api.Routes.{Request, list_simulations_route}
use simulator.Api.Accounts.{Credentials, register_handler, register_answer, byte_length, byte_width}
use simulator.Api.Sessions.{IsSignedUp, register_then_login}

abbrev no_models : Registry (Model ℕ ℕ ℕ)
no_models = record { entries = []; latest = [] }

abbrev outside : Outside ℕ ℕ ℕ ℕ
outside = record {
  jwt = toy;
  persistence = record {
    upsert_model = λ info s. (none, s);
    create_simulation = λ info s. (inr info, s);
    update_status = λ id status s. (none, s);
    delete_simulation = λ id s. (none, s);
  };
  exec = λ w. (w + 1, more);
  null = 0;
  fresh = "s1";
  working = λ s. s;
  meanwhile = λ s. s;
  read = λ r m id. some (api_error 404 "not_found", m);
  recovered = λ m. (api_error 500 "", m);
}

abbrev server : Server ℕ ℕ ℕ ℕ
server = record {
  manager = record { sims = []; store = 0; registry = no_models; met = none };
  tokens = some tokens;
}

abbrev drawn : Drawn
drawn = record { salt = some (1 ∷ []); id = "ann" }

abbrev ann_credentials : Credentials
ann_credentials = record { username = "anna"; password = "corr-ect" }

abbrev ann_account : UserInfo
ann_account = record {
  id = "ann";
  username = "anna";
  password_hash = phc_text (toy_encode (1 ∷ [])) (toy_encode (replicate 32 2));
  role = "USER";
}

abbrev list_request : Request ℕ
list_request = record {
  route = list_simulations_route;
  authorization = "Bearer a";
  now = 6;
  below_limit = none;
}

register_then_login_example :
    IsSignedUp outside server toy_crypto user_list tokens drawn ann_credentials "wrong"
      (ann_account ∷ [])
      5
      (record { access_token = "a"; refresh_token = "r"; token_type = "bearer" })
      list_request
      (write_json 201 (account "ann" "anna" "USER"))
unfolding register_handler register_answer byte_length byte_width register_user register_role
    register_hash created_user hash_password split_on bearer strip_prefix trim_left trim_right
    is_space issue_pair issue_access issue_refresh issue write_json
register_then_login_example =
    register_then_login outside server toy-IsJwt toy_crypto toy_crypto-IsCrypto user_list
      user_list-IsUsers tokens drawn (1 ∷ []) ann_credentials "wrong" [] (ann_account ∷ [])
      (write_json 201 (account "ann" "anna" "USER")) 5
      (record { access_token = "a"; refresh_token = "r"; token_type = "bearer" }) list_request refl
      refl refl refl (λ e. absurd (ground (arith, ap (λ l. get_or l 0 0) e))) refl refl
      (λ e. cc (e, (text_key.same_iff "a" "").1 e)) (omega arith) (omega arith)
